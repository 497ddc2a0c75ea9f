-- ===== src/Ingress.antt =====
-- internal/controller/ingress_proxy_controller.go: the reconciler of services with ingress.
pub mod Token
mod Script
pub mod Build
pub mod Safety
pub mod Keeps
pub mod Reports
pub mod Convergence
pub mod Creates
pub mod Lines
mod Examples
use netmaker_k8s_ops.Base.{
  ℕ, zero, suc, String, ◌<>◌, ◌==◌, Bool, true, false, Option, none, some, Env, index,
  if◌then◌else◌,
}
use netmaker_k8s_ops.Kube.{Key, Service, Pod}
use netmaker_k8s_ops.Kube.Client.{
  GoError, out_of_fuel, is_not_found, Result, ok, err, Prog, ret, call, get_service, get_pod,
  wrap_error, Reply, no_requeue, create_pod, delete_pod, ◌>>=◌,
}
use netmaker_k8s_ops.Egress.{key_of}
use netmaker_k8s_ops.Ingress.Build.{build_proxy_pod}

unfoldable pub is_ingress_enabled : Service → Bool
is_ingress_enabled service = index service.annotations "netmaker.io/ingress" == "enabled"

unfoldable pub pod_name : String → String
pod_name service_name = service_name <> "-ingress-proxy"

abbrev pub pod_key : Key → Key
pod_key k = record { name = pod_name k.name; namespace = k.namespace }

unfoldable pub needs_ingress_update : Pod → Service → Bool
needs_ingress_update pod service = false

-- `ensure` is `ensureProxyPod`, which this function and it call in turn.
unfoldable pub update_proxy_pod :
    (Service → Prog (Option GoError)) → Pod → Service → Prog (Option GoError)
update_proxy_pod ensure pod service = do
  failed ← call (delete_pod pod)
  elim failed [ some e ↦ ret (some e) | none ↦ ensure service ]

module _ (env : Env) where
  -- The last part of `ensureProxyPod`, for a pod that is not there.
  unfoldable pub create_proxy_pod : Service → Prog (Option GoError)
  create_proxy_pod service = do
    pod ← build_proxy_pod env service (pod_name service.name)
    failed ← call (create_pod pod)
    ret (wrap_error "failed to create ingress proxy pod" failed)

  -- The rest of `ensureProxyPod`, on what reading the pod returned.
  unfoldable pub on_existing :
      (Service → Prog (Option GoError)) → Service → Result Pod → Prog (Option GoError)
  unfolding needs_ingress_update
  on_existing ensure service (ok pod) = elim (needs_ingress_update pod service) [
    | true ↦ update_proxy_pod ensure pod service
    | false ↦ ret none
  ]
  on_existing ensure service (err e) =
      if is_not_found e then create_proxy_pod service else ret (some e)

  -- The fuel bounds the rounds of deleting and creating anew.
  unfoldable pub ensure_proxy_pod : ℕ → Service → Prog (Option GoError)
  unfolding on_existing
  ensure_proxy_pod zero service = ret (some out_of_fuel)
  ensure_proxy_pod (suc fuel) service = do
    existing ← call (get_pod (pod_key (key_of service)))
    on_existing (ensure_proxy_pod fuel) service existing

-- The rest of `cleanupProxyPod`, on what reading the pod returned.
unfoldable pub delete_found : Result Pod → Prog Reply
delete_found (err e) = if is_not_found e then ret (no_requeue, none) else ret (no_requeue, some e)
delete_found (ok pod) = do failed ← call (delete_pod pod); ret (no_requeue, failed)

unfoldable pub cleanup_proxy_pod : Key → Prog Reply
unfolding delete_found
cleanup_proxy_pod k = do found ← call (get_pod (pod_key k)); delete_found found

module _ (env : Env) where
  -- The rest of `Reconcile`, for a service that was found.
  unfoldable pub on_service : Key → Service → Prog Reply
  on_service k service =
      if is_ingress_enabled service
      then if index service.annotations "netmaker.io/egress" == "enabled"
        then ret (no_requeue, none)
        else (do failed ← ensure_proxy_pod env 1 service; ret (no_requeue, failed))
      else cleanup_proxy_pod k

  -- The rest of `Reconcile`, on what reading the service returned.
  unfoldable pub dispatch : Key → Result Service → Prog Reply
  unfolding on_service
  dispatch k (err e) = if is_not_found e then cleanup_proxy_pod k else ret (no_requeue, some e)
  dispatch k (ok service) = on_service k service

  unfoldable pub reconcile : Key → Prog Reply
  unfolding dispatch
  reconcile k = do found ← call (get_service k); dispatch k found
