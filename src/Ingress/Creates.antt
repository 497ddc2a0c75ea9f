-- ===== src/Ingress/Creates.antt =====
-- On internal/controller/ingress_proxy_controller.go.
-- The pods that a reconciliation of ingress creates.
use netmaker_k8s_ops.Base.{◌==◌, ◌≡◌, refl, List, Env, index}
use netmaker_k8s_ops.Kube.{Key, Service, Pod, EnvVar}
use netmaker_k8s_ops.Kube.Client.{Result, ok, err, is_not_found}
use netmaker_k8s_ops.Kube.Calls.{Anything, Always, Always-bind, Always-if, Always-weaken}
use netmaker_k8s_ops.Kube.Cluster.{KeepsPods, Creates}
use netmaker_k8s_ops.Kube.Creates.{KeepsPods-Creates}
use netmaker_k8s_ops.Ingress.Token.{get_netclient_token, build_netclient_env_vars}
use netmaker_k8s_ops.Ingress.Build.{build_proxy_pod, proxy_pod}
use netmaker_k8s_ops.Ingress.Keeps.{token-Keeps}
use netmaker_k8s_ops.Ingress.{
  pod_name, on_existing, ensure_proxy_pod, create_proxy_pod, on_service, cleanup_proxy_pod,
  delete_found, is_ingress_enabled,
}

delete-Creates :
    (R : Pod → Type 0) (found : Result Pod) → Always (Creates R) Anything (delete_found found)
unfolding delete_found
delete-Creates R (ok pod) = (tt, λ r a. tt)
delete-Creates R (err e) = Always-if _ _ (is_not_found e) _ _ tt tt

pub cleanup-Creates :
    (R : Pod → Type 0) (k : Key) → Always (Creates R) Anything (cleanup_proxy_pod k)
unfolding cleanup_proxy_pod
cleanup-Creates R k = (tt, λ found _. delete-Creates R found)

module _ (env : Env) (service : Service) where
  -- The pod that is built for the service, with some environment of the netclient.
  abbrev pub IsBuilt : Pod → Type 0
  IsBuilt pod =
      (env_vars : List EnvVar) × (pod ≡ proxy_pod env service (pod_name service.name) env_vars)

  build-IsBuilt : Always KeepsPods IsBuilt (build_proxy_pod env service (pod_name service.name))
  unfolding build_proxy_pod build_netclient_env_vars
  build-IsBuilt =
      Always-bind _ Anything _ (get_netclient_token env service) _ (token-Keeps env service)
        λ token _. (tt, λ own _. (_, refl))

  create-Creates : Always (Creates IsBuilt) Anything (create_proxy_pod env service)
  unfolding create_proxy_pod
  create-Creates =
      Always-bind _ IsBuilt Anything (build_proxy_pod env service (pod_name service.name)) _
        (Always-weaken KeepsPods (Creates IsBuilt) (KeepsPods-Creates IsBuilt) IsBuilt
          (build_proxy_pod env service (pod_name service.name)) build-IsBuilt)
        λ pod built. (built, λ r a. tt)

  existing-Creates :
      (found : Result Pod)
      → Always (Creates IsBuilt) Anything (on_existing env (ensure_proxy_pod env 0) service found)
  unfolding on_existing
  existing-Creates (ok pod) = tt
  existing-Creates (err e) = Always-if _ _ (is_not_found e) _ _ create-Creates tt

  ensure-Creates : Always (Creates IsBuilt) Anything (ensure_proxy_pod env 1 service)
  unfolding ensure_proxy_pod
  ensure-Creates = (tt, λ found _. existing-Creates found)

  pub on_service-Creates : (k : Key) → Always (Creates IsBuilt) Anything (on_service env k service)
  unfolding on_service
  on_service-Creates k =
      Always-if _ _ (is_ingress_enabled service) _ _
        (Always-if _ _ (index service.annotations "netmaker.io/egress" == "enabled") _ _ tt (
          Always-bind _ Anything Anything (ensure_proxy_pod env 1 service) _ ensure-Creates
            λ failed _. tt))
        (cleanup-Creates _ k)
