-- ===== src/Egress/Keeps.antt =====
-- On internal/controller/egress_proxy_controller.go.
-- The programs that neither create nor delete a pod.
use netmaker_k8s_ops.Base.{String, ◌==◌, ◌≡◌, refl, Option, none, some, Env}
use netmaker_k8s_ops.Kube.{Service, Pod, Endpoints}
use netmaker_k8s_ops.Kube.Client.{GoError, Result, ok, err, is_not_found}
use netmaker_k8s_ops.Kube.Calls.{Anything, Always, Always-bind, Always-if}
use netmaker_k8s_ops.Kube.Cluster.{KeepsPods, key_of_pod}
use netmaker_k8s_ops.Egress.Token.{
  or_operator_token, get_netclient_token, build_netclient_env_vars, token_in,
}
use netmaker_k8s_ops.Egress.Build.{build_proxy_pod, proxy_pod}
use netmaker_k8s_ops.Egress.{write_endpoints, publish, update_service_endpoints, or_endpoints}

module _ (env : Env) (service : Service) where
  pub or_operator_token-Keeps :
      (found : Option String) → Always KeepsPods Anything (or_operator_token env service found)
  unfolding or_operator_token
  or_operator_token-Keeps (some token) = tt
  or_operator_token-Keeps none = (tt, λ r a. tt)

  pub token-Keeps : Always KeepsPods Anything (get_netclient_token env service)
  unfolding get_netclient_token
  token-Keeps = (tt, λ own _. or_operator_token-Keeps (token_in _ own))

  pub build-Keeps :
      (name ip dns : String)
      → Always KeepsPods
          (λ p. key_of_pod p ≡ record { name = name; namespace = service.namespace })
          (build_proxy_pod env service name ip dns)
  unfolding build_proxy_pod build_netclient_env_vars proxy_pod
  build-Keeps name ip dns =
      Always-bind _ Anything _ (get_netclient_token env service) _ token-Keeps
        λ token _. (tt, λ own _. refl)

module _ (service : Service) where
  pub write-Keeps :
      (pod : Pod) (found : Result Endpoints)
      → Always KeepsPods Anything (write_endpoints service pod found)
  unfolding write_endpoints
  write-Keeps pod (ok endpoints) = (tt, λ r a. tt)
  write-Keeps pod (err e) = Always-if _ _ (is_not_found e) _ _ (tt, λ r a. tt) tt

  pub publish-Keeps : (found : Result Pod) → Always KeepsPods Anything (publish service found)
  unfolding publish
  publish-Keeps (err e) = Always-if _ _ (is_not_found e) _ _ tt tt
  publish-Keeps (ok pod) =
      Always-if _ _ (pod.phase == "Running") _ _ (tt, λ found _. write-Keeps pod found) tt

  pub or_endpoints-Keeps :
      (failed : Option GoError) → Always KeepsPods Anything (or_endpoints service failed)
  unfolding or_endpoints update_service_endpoints
  or_endpoints-Keeps (some e) = tt
  or_endpoints-Keeps none = (
    tt,
    λ found _.
        Always-bind _ Anything Anything (publish service found) _ (publish-Keeps found) λ _ _. tt,
  )
