-- ===== src/Egress/Examples.antt =====
-- The egress theorems at a service in a small cluster.
use netmaker_k8s_ops.Base.{
  ℕ, String, ◌==◌, ◌&&◌, if◌then◌else◌, ap, lookup, ◌≡◌, ◌≢◌, refl, ◌↔◌, true, Option, none, some,
  List, [], ◌∷◌, map, All, Env,
}
use netmaker_k8s_ops.Kube.{Key, Service, ServicePort, EndpointPort, Pod, Secret}
use netmaker_k8s_ops.Kube.Client.{
  Call, Client, Response, create_endpoints, Result, ok, returned, run, calls, writes, get_pod,
  get_secret, no_requeue,
}
use netmaker_k8s_ops.Kube.Memory.{Objects, serve, memory, answer_of, memory-IsFaithful, memory_pods}
use netmaker_k8s_ops.Egress.Secrets.{build_proxy_pod_lem, expected_env_vars}
use netmaker_k8s_ops.Kube.Memory.Written.{memory_endpoints}
use netmaker_k8s_ops.Egress.Published.{LeadsTo, reconcile-LeadsTo}
use netmaker_k8s_ops.Egress.Ports.{endpoint_ports-eq-listen_ports_iff, SamePort}
use netmaker_k8s_ops.Egress.Build.{listen_port, build_proxy_pod, proxy_pod}
use netmaker_k8s_ops.Egress.{
  reconcile, dispatch, on_service, cleanup_proxy_pod, delete_found, pod_key, pod_name,
  is_egress_enabled, get_egress_target, ensure_proxy_pod, update_service_endpoints, publish,
  write_endpoints, subsets_of, endpoint_ports,
}

abbrev empty_env : Env
empty_env _ = ""

abbrev port : ℕ → ℕ → ServicePort
port number target = record {
  name = "http";
  port = number;
  target_port = record { int_val = target; str_val = "" };
  protocol = "TCP";
}

abbrev web : Service
web = record {
  name = "web";
  namespace = "shop";
  uid = "u1";
  annotations =
      some
        (("netmaker.io/egress", "enabled") ∷ ("netmaker.io/egress-target-ip", "100.64.0.7") ∷ []);
  ports = port 80 8080 ∷ [];
  cluster_ip = "10.0.0.1";
}

abbrev web_key : Key
web_key = record { name = "web"; namespace = "shop" }

abbrev web_pod : Pod
web_pod = record {
  name = "web-egress-proxy";
  namespace = "shop";
  uid = "u2";
  labels = none;
  annotations = none;
  owner_references = [];
  spec = record { containers = []; volumes = []; untouched = "" };
  phase = "Running";
  pod_ip = "10.1.0.5";
}

-- Only the operator's namespace has the token.
abbrev secrets : Key → Option Secret
secrets k =
    if k.namespace == "netmaker-k8s-ops-system" && k.name == "netclient-token"
    then some (record { entries = ("token", "t0") ∷ [] })
    else none

abbrev cluster : List Service → List Pod → Objects
cluster services pods = record {
  services = services;
  pods = pods;
  endpoints = [];
  secrets = secrets;
  claims = [];
}

web_is_enabled : is_egress_enabled web ≡ true
unfolding is_egress_enabled lookup
web_is_enabled = refl

web_has_target : get_egress_target web ≢ ("", "")
unfolding get_egress_target lookup
web_has_target e = absurd (cc (ap (λ (p : String × String). p.0 == "") e))

gone_reconciles :
    (run memory (reconcile empty_env web_key) (cluster [] (web_pod ∷ []))).0
    ≡ returned (no_requeue, none)
unfolding reconcile dispatch cleanup_proxy_pod delete_found pod_name
gone_reconciles = refl

-- A cluster whose secrets never change.
abbrev serve_fixed : (c : Call) → Objects → Response c × Objects
serve_fixed (get_secret k) s = (answer_of (secrets k), s)
serve_fixed c s = serve c s

abbrev fixed : Client
fixed = record { State = Objects; serve = serve_fixed }

abbrev fixed_secrets : Key → Result Secret
fixed_secrets k = answer_of (secrets k)

build_proxy_pod_lem_example :
    (run fixed (build_proxy_pod empty_env web "web-egress-proxy" "100.64.0.7" "") (cluster [] [])).0
    ≡ returned (
        proxy_pod empty_env web "web-egress-proxy" "100.64.0.7" ""
          (expected_env_vars empty_env web fixed_secrets))
build_proxy_pod_lem_example =
    build_proxy_pod_lem empty_env fixed fixed_secrets (λ k s. refl) web "web-egress-proxy"
      "100.64.0.7" "" (cluster [] [])

pod_there : (memory.serve (get_pod (pod_key web_key)) (cluster [] (web_pod ∷ []))).0 ≡ ok web_pod
unfolding pod_name
pod_there = refl

-- The endpoints that are created for the pod.
web_endpoints :
    writes (calls memory (update_service_endpoints web) (cluster [] (web_pod ∷ [])))
    ≡ create_endpoints
        (record { name = "web"; namespace = "shop"; subsets = subsets_of web web_pod })
      ∷ []
unfolding update_service_endpoints publish write_endpoints pod_name
web_endpoints = refl

abbrev two_ports : List ServicePort
two_ports = port 80 0 ∷ port 443 443 ∷ []

endpoint_ports-eq-listen_ports_iff_example :
    (map (λ (e : EndpointPort). e.port) (endpoint_ports two_ports) ≡ map listen_port two_ports)
    ↔ All SamePort two_ports
endpoint_ports-eq-listen_ports_iff_example = endpoint_ports-eq-listen_ports_iff two_ports

-- With a target port of its own, the endpoints name a port on which nothing listens.
ports_differ :
    (map listen_port web.ports ≡ 8080 ∷ [])
    × (map (λ (e : EndpointPort). e.port) (endpoint_ports web.ports) ≡ 80 ∷ [])
unfolding listen_port endpoint_ports
ports_differ = (refl, refl)

-- The pod of "web" runs, and there are no endpoints yet.
abbrev running_web : Objects
running_web = cluster (web ∷ []) (web_pod ∷ [])

web_reconciles :
    (run memory (reconcile empty_env web_key) running_web).0 ≡ returned (no_requeue, none)
unfolding reconcile dispatch on_service lookup is_egress_enabled get_egress_target ensure_proxy_pod
    update_service_endpoints pod_name
web_reconciles = refl

web_runs :
    memory_pods.pods (run memory (reconcile empty_env web_key) running_web).1 (pod_key web_key)
    ≡ some web_pod
unfolding reconcile dispatch on_service lookup is_egress_enabled get_egress_target ensure_proxy_pod
    update_service_endpoints pod_name
web_runs = refl

reconcile-LeadsTo_example :
    LeadsTo memory memory_endpoints web web_pod
      (run memory (reconcile empty_env web_key) running_web).1
reconcile-LeadsTo_example =
    reconcile-LeadsTo empty_env memory memory-IsFaithful memory_pods memory_endpoints web_key
      running_web refl web_is_enabled web_has_target web_reconciles web_runs refl
