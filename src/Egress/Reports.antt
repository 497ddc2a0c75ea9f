-- ===== src/Egress/Reports.antt =====
-- On internal/controller/egress_proxy_controller.go.
-- The errors that the egress reconciler returns, and how many calls it makes.
use netmaker_k8s_ops.Base.{String, ◌==◌, ◌&&◌, refl, Option, none, some, Env, arith, suc, ℕ}
use netmaker_k8s_ops.Kube.{Key, Service, Pod, Endpoints}
use netmaker_k8s_ops.Kube.Client.{GoError, Result}
use netmaker_k8s_ops.Kube.Calls.{Anything}
use netmaker_k8s_ops.Kube.Reports.{
  Reports, Reports-bind, Reports-if, Reports-le, Ended, Branch, Never, NoError, IsOf, FineReply,
  FailedReply, read_failure, write-IsOf, wrap_error-IsOf, reply-FailedReply, read-Reports,
}
use netmaker_k8s_ops.Egress.Token.{
  or_operator_token, get_netclient_token, build_netclient_env_vars, token_in,
}
use netmaker_k8s_ops.Egress.Build.{proxy_pod, build_proxy_pod}
use netmaker_k8s_ops.Egress.{
  create_proxy_pod, on_existing, ensure_proxy_pod, delete_found, dispatch, write_endpoints, publish,
  update_service_endpoints, cleanup_proxy_pod, or_endpoints, on_service, forward, reconcile,
  is_egress_enabled, get_egress_target,
}

module _ (env : Env) (service : Service) where
  or_operator_token-Reports :
      (found : Option String) → Reports Anything Never 1 (or_operator_token env service found)
  unfolding or_operator_token
  or_operator_token-Reports (some token) = tt
  or_operator_token-Reports none = λ r. tt

  token-Reports : Reports Anything Never 2 (get_netclient_token env service)
  unfolding get_netclient_token
  token-Reports = λ own. or_operator_token-Reports (token_in _ own)

  build-Reports :
      (name ip dns : String) → Reports Anything Never 3 (build_proxy_pod env service name ip dns)
  unfolding build_proxy_pod build_netclient_env_vars proxy_pod
  build-Reports name ip dns =
      Reports-bind Anything Never Anything Never 2 1 3 (get_netclient_token env service) _
        (omega arith) token-Reports (λ token _ own. tt) (λ e a h. absurd h)

  create-Reports : (ip dns : String) → Reports NoError IsOf 4 (create_proxy_pod env service ip dns)
  unfolding create_proxy_pod
  create-Reports ip dns =
      Reports-bind Anything Never NoError IsOf 3 1 4 (build_proxy_pod env service _ ip dns) _
        (omega arith) (build-Reports _ ip dns) (λ _ _. wrap_error-IsOf _) (λ e a h. absurd h)

  existing-Reports :
      (ip dns : String) (found : Result Pod)
      → Branch
          (read_failure found)
          (Reports NoError IsOf 4 (on_existing env (ensure_proxy_pod env 0) service ip dns found))
          (λ e.
            Ended NoError IsOf e (on_existing env (ensure_proxy_pod env 0) service ip dns found))
  unfolding on_existing
  existing-Reports ip dns =
      read-Reports NoError IsOf 4 (on_existing env (ensure_proxy_pod env 0) service ip dns)
        (λ pod. refl) (λ e missing. rw missing (create-Reports ip dns)) (λ e other. rw other refl)

  ensure-Reports :
      (ip dns : String) → Reports NoError IsOf 5 (ensure_proxy_pod env 1 service ip dns)
  unfolding ensure_proxy_pod
  ensure-Reports ip dns = existing-Reports ip dns

  write-Reports :
      (pod : Pod) (found : Result Endpoints)
      → Branch
          (read_failure found)
          (Reports NoError IsOf 1 (write_endpoints service pod found))
          (λ e. Ended NoError IsOf e (write_endpoints service pod found))
  unfolding write_endpoints
  write-Reports pod =
      read-Reports NoError IsOf 1 (write_endpoints service pod) (λ endpoints. write-IsOf)
        (λ e missing. rw missing write-IsOf) (λ e other. rw other refl)

  publish-Reports :
      (found : Result Pod)
      → Branch
          (read_failure found)
          (Reports NoError IsOf 2 (publish service found))
          (λ e. Ended NoError IsOf e (publish service found))
  unfolding publish
  publish-Reports =
      read-Reports NoError IsOf 2 (publish service)
        (λ pod. Reports-if NoError IsOf 2 (pod.phase == "Running") _ _ (write-Reports pod) refl)
        (λ e missing. rw missing refl) (λ e other. rw other refl)

  endpoints-Reports : Reports NoError IsOf 3 (update_service_endpoints service)
  unfolding update_service_endpoints
  endpoints-Reports = publish-Reports

  or_endpoints-Reports : Reports FineReply FailedReply 3 (or_endpoints service none)
  unfolding or_endpoints
  or_endpoints-Reports =
      Reports-bind NoError IsOf FineReply FailedReply 3 0 3 (update_service_endpoints service) _
        (omega arith) endpoints-Reports (λ o fine. (refl, fine)) (λ e o fails. (refl, fails))

  Ended-or_endpoints :
      (e : GoError) (failed : Option GoError)
      → IsOf e failed
      → Ended FineReply FailedReply e (or_endpoints service failed)
  unfolding or_endpoints
  Ended-or_endpoints e none fails = cc fails
  Ended-or_endpoints e (some x) fails = (refl, fails)

  forward-Reports : (ip dns : String) → Reports FineReply FailedReply 8 (forward env service ip dns)
  unfolding forward
  forward-Reports ip dns =
      Reports-bind NoError IsOf FineReply FailedReply 5 3 8 (ensure_proxy_pod env 1 service ip dns)
        (or_endpoints service) (omega arith) (ensure-Reports ip dns)
        (λ o fine. rw fine or_endpoints-Reports) Ended-or_endpoints

delete-Reports :
    (found : Result Pod)
    → Branch
        (read_failure found)
        (Reports FineReply FailedReply 1 (delete_found found))
        (λ e. Ended FineReply FailedReply e (delete_found found))
unfolding delete_found
delete-Reports =
    read-Reports FineReply FailedReply 1 delete_found (λ pod. reply-FailedReply)
      (λ e missing. rw missing (refl, refl)) (λ e other. rw other (refl, refl))

cleanup-Reports :
    (n : ℕ) (k : Key) → Reports FineReply FailedReply (suc (suc n)) (cleanup_proxy_pod k)
unfolding cleanup_proxy_pod
cleanup-Reports n k =
    Reports-le FineReply FailedReply 2 (suc (suc n)) (cleanup_proxy_pod k) (omega arith)
      delete-Reports

on_service-Reports :
    (env : Env) (k : Key) (service : Service)
    → Reports FineReply FailedReply 8 (on_service env k service)
unfolding on_service
on_service-Reports env k service =
    let (ip, dns) = get_egress_target service in
    Reports-if FineReply FailedReply 8 (is_egress_enabled service) _ _
      (Reports-if FineReply FailedReply 8 (ip == "" && dns == "") _ _ (refl, refl)
        (forward-Reports env service ip dns))
      (cleanup-Reports 6 k)

dispatch-Reports :
    (env : Env) (k : Key) (found : Result Service)
    → Branch
        (read_failure found)
        (Reports FineReply FailedReply 8 (dispatch env k found))
        (λ e. Ended FineReply FailedReply e (dispatch env k found))
unfolding dispatch
dispatch-Reports env k =
    read-Reports FineReply FailedReply 8 (dispatch env k) (on_service-Reports env k)
      (λ e missing. rw missing (cleanup-Reports 6 k)) (λ e other. rw other (refl, refl))

pub reconcile-Reports : (env : Env) (k : Key) → Reports FineReply FailedReply 9 (reconcile env k)
unfolding reconcile
reconcile-Reports env k = dispatch-Reports env k
