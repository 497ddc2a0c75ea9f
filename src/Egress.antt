-- ===== src/Egress.antt =====
-- internal/controller/egress_proxy_controller.go: the reconciler of services with egress.
pub mod Token
pub mod Build
pub mod Safety
pub mod Keeps
pub mod Reports
pub mod Convergence
pub mod Published
pub mod Creates
pub mod Lines
pub mod Laws
pub mod Secrets
pub mod Ports
mod Examples
use netmaker_k8s_ops.Base.{
  ℕ, zero, suc, String, ◌<>◌, ◌==◌, Bool, true, false, ◌&&◌, not, Option, none, some, List, [], ◌∷◌,
  map, Env, index, if◌then◌else◌,
}
use netmaker_k8s_ops.Kube.{
  Key, Service, ServicePort, Pod, Endpoints, EndpointAddress, EndpointPort, EndpointSubset,
}
use netmaker_k8s_ops.Kube.Client.{
  GoError, wrapped, out_of_fuel, is_not_found, Result, ok, err, Prog, ret, call, get_service,
  get_pod, get_endpoints, wrap_error, Reply, no_requeue, create_pod, create_endpoints,
  update_endpoints, delete_pod, ◌>>=◌,
}
use netmaker_k8s_ops.Egress.Build.{build_proxy_pod}

unfoldable pub is_egress_enabled : Service → Bool
is_egress_enabled service = index service.annotations "netmaker.io/egress" == "enabled"

unfoldable pub get_egress_target : Service → String × String
get_egress_target service = (
  index service.annotations "netmaker.io/egress-target-ip",
  index service.annotations "netmaker.io/egress-target-dns",
)

unfoldable pub pod_name : String → String
pod_name service_name = service_name <> "-egress-proxy"

abbrev pub pod_key : Key → Key
pod_key k = record { name = pod_name k.name; namespace = k.namespace }

abbrev pub key_of : Service → Key
key_of service = record { name = service.name; namespace = service.namespace }

unfoldable pub needs_update : Pod → String → String → Bool
needs_update pod target_ip target_dns = false

-- `ensure` is `ensureProxyPod`, which this function and it call in turn.
unfoldable pub update_proxy_pod :
    (Service → String → String → Prog (Option GoError))
    → Pod
    → Service
    → String
    → String
    → Prog (Option GoError)
update_proxy_pod ensure pod service target_ip target_dns = do
  failed ← call (delete_pod pod)
  elim failed [ some e ↦ ret (some e) | none ↦ ensure service target_ip target_dns ]

module _ (env : Env) where
  -- The last part of `ensureProxyPod`, for a pod that is not there.
  unfoldable pub create_proxy_pod : Service → String → String → Prog (Option GoError)
  create_proxy_pod service target_ip target_dns = do
    pod ← build_proxy_pod env service (pod_name service.name) target_ip target_dns
    failed ← call (create_pod pod)
    ret (wrap_error "failed to create proxy pod" failed)

  -- The rest of `ensureProxyPod`, on what reading the pod returned.
  unfoldable pub on_existing :
      (Service → String → String → Prog (Option GoError))
      → Service
      → String
      → String
      → Result Pod
      → Prog (Option GoError)
  unfolding needs_update
  on_existing ensure service target_ip target_dns (ok pod) =
      elim (needs_update pod target_ip target_dns) [
        | true ↦ update_proxy_pod ensure pod service target_ip target_dns
        | false ↦ ret none
      ]
  on_existing ensure service target_ip target_dns (err e) =
      if is_not_found e then create_proxy_pod service target_ip target_dns else ret (some e)

  -- The fuel bounds the rounds of deleting and creating anew.
  unfoldable pub ensure_proxy_pod : ℕ → Service → String → String → Prog (Option GoError)
  unfolding on_existing
  ensure_proxy_pod zero service target_ip target_dns = ret (some out_of_fuel)
  ensure_proxy_pod (suc fuel) service target_ip target_dns = do
    existing ← call (get_pod (pod_key (key_of service)))
    on_existing (ensure_proxy_pod fuel) service target_ip target_dns existing

abbrev pub addresses_of : Pod → List EndpointAddress
addresses_of pod =
    record {
      ip = pod.pod_ip;
      target_ref = record {
        kind = "Pod";
        namespace = pod.namespace;
        name = pod.name;
        uid = pod.uid;
      };
    }
    ∷ []

unfoldable pub endpoint_ports : List ServicePort → List EndpointPort
endpoint_ports = map λ port. record { name = port.name; port = port.port; protocol = port.protocol }

abbrev pub subsets_of : Service → Pod → List EndpointSubset
subsets_of service pod =
    record { addresses = addresses_of pod; ports = endpoint_ports service.ports } ∷ []

-- The last part of `updateServiceEndpoints`, on what reading the endpoints returned.
unfoldable pub write_endpoints : Service → Pod → Result Endpoints → Prog (Option GoError)
write_endpoints service pod (ok endpoints) =
    call (update_endpoints (record endpoints { subsets = subsets_of service pod }))
write_endpoints service pod (err e) =
    if is_not_found e
    then call (
        create_endpoints (record {
          name = service.name;
          namespace = service.namespace;
          subsets = subsets_of service pod;
        }))
    else ret (some e)

-- The rest of `updateServiceEndpoints`, on what reading the pod returned.
unfoldable pub publish : Service → Result Pod → Prog (Option GoError)
unfolding write_endpoints
publish service (err e) = if is_not_found e then ret none else ret (some e)
publish service (ok pod) =
    if pod.phase == "Running"
    then (do
      endpoints ← call (get_endpoints (key_of service))
      write_endpoints service pod endpoints)
    else ret none

unfoldable pub update_service_endpoints : Service → Prog (Option GoError)
unfolding publish
update_service_endpoints service = do
  found ← call (get_pod (pod_key (key_of service)))
  publish service found

-- The rest of `cleanupProxyPod`, on what reading the pod returned.
unfoldable pub delete_found : Result Pod → Prog Reply
delete_found (err e) = if is_not_found e then ret (no_requeue, none) else ret (no_requeue, some e)
delete_found (ok pod) = do failed ← call (delete_pod pod); ret (no_requeue, failed)

unfoldable pub cleanup_proxy_pod : Key → Prog Reply
unfolding delete_found
cleanup_proxy_pod k = do found ← call (get_pod (pod_key k)); delete_found found

-- The end of `Reconcile`, on what ensuring the pod returned.
unfoldable pub or_endpoints : Service → Option GoError → Prog Reply
or_endpoints service (some e) = ret (no_requeue, some e)
or_endpoints service none = do failed ← update_service_endpoints service; ret (no_requeue, failed)

module _ (env : Env) where
  -- The two last steps of `Reconcile`, for a service with a target.
  unfoldable pub forward : Service → String → String → Prog Reply
  unfolding or_endpoints
  forward service target_ip target_dns = do
    failed ← ensure_proxy_pod env 1 service target_ip target_dns
    or_endpoints service failed

  -- The rest of `Reconcile`, for a service that was found.
  unfoldable pub on_service : Key → Service → Prog Reply
  unfolding forward
  on_service k service =
      if is_egress_enabled service
      then (let (target_ip, target_dns) = get_egress_target service in
          if target_ip == "" && target_dns == ""
          then ret (no_requeue, none)
          else forward service target_ip target_dns)
      else cleanup_proxy_pod k

  -- The rest of `Reconcile`, on what reading the service returned.
  unfoldable pub dispatch : Key → Result Service → Prog Reply
  unfolding on_service
  dispatch k (err e) = if is_not_found e then cleanup_proxy_pod k else ret (no_requeue, some e)
  dispatch k (ok service) = on_service k service

  unfoldable pub reconcile : Key → Prog Reply
  unfolding dispatch
  reconcile k = do found ← call (get_service k); dispatch k found
