-- ===== src/Ingress/Reports.antt =====
-- On internal/controller/ingress_proxy_controller.go.
-- The errors that the ingress reconciler returns, and how many calls it makes.
use netmaker_k8s_ops.Base.{String, ◌==◌, refl, Option, none, some, Env, arith, index}
use netmaker_k8s_ops.Kube.{Key, Service, Pod}
use netmaker_k8s_ops.Kube.Client.{Result}
use netmaker_k8s_ops.Kube.Calls.{Anything}
use netmaker_k8s_ops.Kube.Reports.{
  Reports, Reports-bind, Reports-if, Reports-le, Ended, Branch, Never, NoError, IsOf, FineReply,
  FailedReply, read_failure, wrap_error-IsOf, reply-FailedReply, read-Reports,
}
use netmaker_k8s_ops.Egress.Token.{token_in}
use netmaker_k8s_ops.Ingress.Token.{
  or_operator_token, get_netclient_token, build_netclient_env_vars,
}
use netmaker_k8s_ops.Ingress.Build.{proxy_pod, build_proxy_pod}
use netmaker_k8s_ops.Ingress.{
  create_proxy_pod, on_existing, ensure_proxy_pod, delete_found, dispatch, cleanup_proxy_pod,
  on_service, reconcile, is_ingress_enabled,
}

module _ (env : Env) (service : Service) where
  or_operator_token-Reports :
      (found : Option String) → Reports Anything Never 1 (or_operator_token env service found)
  unfolding or_operator_token
  or_operator_token-Reports (some token) = tt
  or_operator_token-Reports none = λ r. tt

  token-Reports : Reports Anything Never 2 (get_netclient_token env service)
  unfolding get_netclient_token
  token-Reports = λ own. or_operator_token-Reports (token_in _ own)

  build-Reports : (name : String) → Reports Anything Never 3 (build_proxy_pod env service name)
  unfolding build_proxy_pod build_netclient_env_vars proxy_pod
  build-Reports name =
      Reports-bind Anything Never Anything Never 2 1 3 (get_netclient_token env service) _
        (omega arith) token-Reports (λ token _ own. tt) (λ e a h. absurd h)

  create-Reports : Reports NoError IsOf 4 (create_proxy_pod env service)
  unfolding create_proxy_pod
  create-Reports =
      Reports-bind Anything Never NoError IsOf 3 1 4 (build_proxy_pod env service _) _ (omega arith)
        (build-Reports _) (λ _ _. wrap_error-IsOf _) (λ e a h. absurd h)

  existing-Reports :
      (found : Result Pod)
      → Branch
          (read_failure found)
          (Reports NoError IsOf 4 (on_existing env (ensure_proxy_pod env 0) service found))
          (λ e. Ended NoError IsOf e (on_existing env (ensure_proxy_pod env 0) service found))
  unfolding on_existing
  existing-Reports =
      read-Reports NoError IsOf 4 (on_existing env (ensure_proxy_pod env 0) service) (λ pod. refl)
        (λ e missing. rw missing create-Reports) (λ e other. rw other refl)

  ensure-Reports : Reports NoError IsOf 5 (ensure_proxy_pod env 1 service)
  unfolding ensure_proxy_pod
  ensure-Reports = existing-Reports

delete-Reports :
    (found : Result Pod)
    → Branch
        (read_failure found)
        (Reports FineReply FailedReply 1 (delete_found found))
        (λ e. Ended FineReply FailedReply e (delete_found found))
unfolding delete_found
delete-Reports =
    read-Reports FineReply FailedReply 1 delete_found (λ pod. reply-FailedReply)
      (λ e missing. rw missing (refl, refl)) (λ e other. rw other (refl, refl))

cleanup-Reports : (k : Key) → Reports FineReply FailedReply 5 (cleanup_proxy_pod k)
unfolding cleanup_proxy_pod
cleanup-Reports k =
    Reports-le FineReply FailedReply 2 5 (cleanup_proxy_pod k) (omega arith) delete-Reports

on_service-Reports :
    (env : Env) (k : Key) (service : Service)
    → Reports FineReply FailedReply 5 (on_service env k service)
unfolding on_service
on_service-Reports env k service =
    Reports-if FineReply FailedReply 5 (is_ingress_enabled service) _ _
      (Reports-if FineReply FailedReply 5
        (index service.annotations "netmaker.io/egress" == "enabled") _ _ (refl, refl)
        (Reports-bind NoError IsOf FineReply FailedReply 5 0 5 (ensure_proxy_pod env 1 service) _
          (omega arith) (ensure-Reports env service) (λ o fine. (refl, fine))
          (λ e o fails. (refl, fails))))
      (cleanup-Reports k)

dispatch-Reports :
    (env : Env) (k : Key) (found : Result Service)
    → Branch
        (read_failure found)
        (Reports FineReply FailedReply 5 (dispatch env k found))
        (λ e. Ended FineReply FailedReply e (dispatch env k found))
unfolding dispatch
dispatch-Reports env k =
    read-Reports FineReply FailedReply 5 (dispatch env k) (on_service-Reports env k)
      (λ e missing. rw missing (cleanup-Reports k)) (λ e other. rw other (refl, refl))

pub reconcile-Reports : (env : Env) (k : Key) → Reports FineReply FailedReply 6 (reconcile env k)
unfolding reconcile
reconcile-Reports env k = dispatch-Reports env k
