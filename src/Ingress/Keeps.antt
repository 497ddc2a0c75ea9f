-- ===== src/Ingress/Keeps.antt =====
-- On internal/controller/ingress_proxy_controller.go.
-- The programs that neither create nor delete a pod.
use netmaker_k8s_ops.Base.{String, ◌≡◌, refl, Option, none, some, Env}
use netmaker_k8s_ops.Kube.{Service}
use netmaker_k8s_ops.Kube.Calls.{Anything, Always, Always-bind}
use netmaker_k8s_ops.Kube.Cluster.{KeepsPods, key_of_pod}
use netmaker_k8s_ops.Egress.Token.{token_in}
use netmaker_k8s_ops.Ingress.Token.{
  or_operator_token, get_netclient_token, build_netclient_env_vars,
}
use netmaker_k8s_ops.Ingress.Build.{build_proxy_pod, proxy_pod}

module _ (env : Env) (service : Service) where
  pub or_operator_token-Keeps :
      (found : Option String) → Always KeepsPods Anything (or_operator_token env service found)
  unfolding or_operator_token
  or_operator_token-Keeps (some token) = tt
  or_operator_token-Keeps none = (tt, λ r a. tt)

  pub token-Keeps : Always KeepsPods Anything (get_netclient_token env service)
  unfolding get_netclient_token
  token-Keeps = (tt, λ own _. or_operator_token-Keeps (token_in _ own))

  pub build-Keeps :
      (name : String)
      → Always KeepsPods
          (λ p. key_of_pod p ≡ record { name = name; namespace = service.namespace })
          (build_proxy_pod env service name)
  unfolding build_proxy_pod build_netclient_env_vars proxy_pod
  build-Keeps name =
      Always-bind _ Anything _ (get_netclient_token env service) _ token-Keeps
        λ token _. (tt, λ own _. refl)
