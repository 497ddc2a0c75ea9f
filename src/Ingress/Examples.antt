-- ===== src/Ingress/Examples.antt =====
-- The ingress theorems at a service in a small cluster.
use netmaker_k8s_ops.Base.{
  String, ◌==◌, ◌≡◌, refl, true, false, Option, none, some, List, [], ◌∷◌, Env, lookup, index,
}
use netmaker_k8s_ops.Kube.{Key, Service, Pod}
use netmaker_k8s_ops.Kube.Client.{returned, run, no_requeue}
use netmaker_k8s_ops.Kube.Memory.{Objects, memory}
use netmaker_k8s_ops.Ingress.Token.{get_netclient_token, build_netclient_env_vars}
use netmaker_k8s_ops.Ingress.Build.{build_proxy_pod}
use netmaker_k8s_ops.Ingress.{
  reconcile, dispatch, on_service, cleanup_proxy_pod, delete_found, pod_name, is_ingress_enabled,
  ensure_proxy_pod, create_proxy_pod,
}

abbrev empty_env : Env
empty_env _ = ""

abbrev service_with : Option String → Service
service_with egress = record {
  name = "db";
  namespace = "shop";
  uid = "u1";
  annotations = some (
      ("netmaker.io/ingress", "enabled")
      ∷ ("netmaker.io/egress", elim egress [ none ↦ "" | some v ↦ v ])
      ∷ []);
  ports =
      record {
        name = "sql";
        port = 5432;
        target_port = record { int_val = 0; str_val = "" };
        protocol = "TCP";
      }
      ∷ [];
  cluster_ip = "None";
}

abbrev db : Service
db = service_with none

abbrev both : Service
both = service_with (some "enabled")

abbrev db_key : Key
db_key = record { name = "db"; namespace = "shop" }

abbrev db_pod : Pod
db_pod = record {
  name = "db-ingress-proxy";
  namespace = "shop";
  uid = "u2";
  labels = none;
  annotations = none;
  owner_references = [];
  spec = record { containers = []; volumes = []; untouched = "" };
  phase = "Running";
  pod_ip = "10.1.0.5";
}

abbrev cluster : List Service → List Pod → Objects
cluster services pods = record {
  services = services;
  pods = pods;
  endpoints = [];
  secrets = λ _. none;
  claims = [];
}

is_enabled : (is_ingress_enabled db ≡ true) × (is_ingress_enabled both ≡ true)
unfolding is_ingress_enabled lookup
is_enabled = (refl, refl)

only_ingress : (index db.annotations "netmaker.io/egress" == "enabled") ≡ false
unfolding lookup
only_ingress = refl

both_enabled : (index both.annotations "netmaker.io/egress" == "enabled") ≡ true
unfolding lookup
both_enabled = refl

db_reconciles :
    (run memory (reconcile empty_env db_key) (cluster (db ∷ []) [])).0 ≡ returned (no_requeue, none)
unfolding reconcile dispatch on_service lookup is_ingress_enabled ensure_proxy_pod create_proxy_pod
    build_proxy_pod get_netclient_token build_netclient_env_vars
db_reconciles = refl

gone_reconciles :
    (run memory (reconcile empty_env db_key) (cluster [] (db_pod ∷ []))).0
    ≡ returned (no_requeue, none)
unfolding reconcile dispatch cleanup_proxy_pod delete_found pod_name
gone_reconciles = refl
