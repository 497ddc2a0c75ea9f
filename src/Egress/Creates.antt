-- ===== src/Egress/Creates.antt =====
-- On internal/controller/egress_proxy_controller.go.
-- The pods that a reconciliation of egress creates.
use netmaker_k8s_ops.Base.{String, ◌==◌, ◌≡◌, refl, ◌&&◌, none, List, Env}
use netmaker_k8s_ops.Kube.{Key, Service, Pod, EnvVar}
use netmaker_k8s_ops.Kube.Client.{Result, ok, err, is_not_found, no_requeue, ret}
use netmaker_k8s_ops.Kube.Calls.{Anything, Always, Always-bind, Always-if, Always-weaken}
use netmaker_k8s_ops.Kube.Cluster.{KeepsPods, Creates}
use netmaker_k8s_ops.Kube.Creates.{KeepsPods-Creates}
use netmaker_k8s_ops.Egress.Token.{get_netclient_token, build_netclient_env_vars}
use netmaker_k8s_ops.Egress.Build.{build_proxy_pod, proxy_pod}
use netmaker_k8s_ops.Egress.Keeps.{token-Keeps, or_endpoints-Keeps}
use netmaker_k8s_ops.Egress.{
  pod_name, on_existing, ensure_proxy_pod, create_proxy_pod, or_endpoints, forward, on_service,
  cleanup_proxy_pod, delete_found, is_egress_enabled, get_egress_target,
}

delete-Creates :
    (R : Pod → Type 0) (found : Result Pod) → Always (Creates R) Anything (delete_found found)
unfolding delete_found
delete-Creates R (ok pod) = (tt, λ r a. tt)
delete-Creates R (err e) = Always-if _ _ (is_not_found e) _ _ tt tt

pub cleanup-Creates :
    (R : Pod → Type 0) (k : Key) → Always (Creates R) Anything (cleanup_proxy_pod k)
unfolding cleanup_proxy_pod
cleanup-Creates R k = (tt, λ found _. delete-Creates R found)

module _ (env : Env) (service : Service) where
  -- The pod that is built for the service and its target, with some environment of the netclient.
  abbrev pub IsBuilt : String → String → Pod → Type 0
  IsBuilt ip dns pod =
      (env_vars : List EnvVar) × (pod
        ≡ proxy_pod env service (pod_name service.name) ip dns env_vars)

  build-IsBuilt :
      (ip dns : String)
      → Always KeepsPods
          (IsBuilt ip dns)
          (build_proxy_pod env service (pod_name service.name) ip dns)
  unfolding build_proxy_pod build_netclient_env_vars
  build-IsBuilt ip dns =
      Always-bind _ Anything _ (get_netclient_token env service) _ (token-Keeps env service)
        λ token _. (tt, λ own _. (_, refl))

  create-Creates :
      (ip dns : String)
      → Always (Creates (IsBuilt ip dns)) Anything (create_proxy_pod env service ip dns)
  unfolding create_proxy_pod
  create-Creates ip dns =
      Always-bind _ (IsBuilt ip dns) Anything
        (build_proxy_pod env service (pod_name service.name) ip dns) _
        (Always-weaken KeepsPods (Creates (IsBuilt ip dns)) (KeepsPods-Creates (IsBuilt ip dns))
          (IsBuilt ip dns) (build_proxy_pod env service (pod_name service.name) ip dns)
          (build-IsBuilt ip dns))
        λ pod built. (built, λ r a. tt)

  existing-Creates :
      (ip dns : String) (found : Result Pod)
      → Always
          (Creates (IsBuilt ip dns))
          Anything
          (on_existing env (ensure_proxy_pod env 0) service ip dns found)
  unfolding on_existing
  existing-Creates ip dns (ok pod) = tt
  existing-Creates ip dns (err e) = Always-if _ _ (is_not_found e) _ _ (create-Creates ip dns) tt

  ensure-Creates :
      (ip dns : String)
      → Always (Creates (IsBuilt ip dns)) Anything (ensure_proxy_pod env 1 service ip dns)
  unfolding ensure_proxy_pod
  ensure-Creates ip dns = (tt, λ found _. existing-Creates ip dns found)

  forward-Creates :
      (ip dns : String) → Always (Creates (IsBuilt ip dns)) Anything (forward env service ip dns)
  unfolding forward
  forward-Creates ip dns =
      Always-bind _ Anything Anything (ensure_proxy_pod env 1 service ip dns) _
        (ensure-Creates ip dns)
        λ failed _.
          Always-weaken KeepsPods (Creates (IsBuilt ip dns)) (KeepsPods-Creates (IsBuilt ip dns))
            Anything (or_endpoints service failed) (or_endpoints-Keeps service failed)

  pub on_service-Creates :
      (k : Key)
      → let (ip, dns) = get_egress_target service in
        Always (Creates (IsBuilt ip dns)) Anything (on_service env k service)
  unfolding on_service
  on_service-Creates k =
      let (ip, dns) = get_egress_target service in
      Always-if _ _ (is_egress_enabled service) _ _
        (Always-if _ _ (ip == "" && dns == "") (ret (no_requeue, none)) (forward env service ip dns)
          tt (forward-Creates ip dns))
        (cleanup-Creates _ k)
