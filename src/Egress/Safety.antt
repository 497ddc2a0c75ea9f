-- ===== src/Egress/Safety.antt =====
-- The objects that the egress reconciler calls for (internal/controller/egress_proxy_controller.go).
use netmaker_k8s_ops.Base.{
  String, ◌≡◌, refl, ◌⊎◌, inl, inr, Option, none, some, Env, All, arith, subst, zero, suc, ℕ, ◌==◌,
  ◌&&◌,
}
use netmaker_k8s_ops.Kube.{Key, Service, Pod, Endpoints}
use netmaker_k8s_ops.Kube.Client.{
  Call, GoError, Result, ok, err, is_not_found, Prog, Client, calls, get_service, get_pod,
  get_endpoints, get_secret, create_pod, create_endpoints, update_endpoints, delete_pod, ret,
  no_requeue,
}
use netmaker_k8s_ops.Kube.Calls.{
  Answers, IsFaithful, Anything, Always, Always-bind, Always-if, calls-All,
}
use netmaker_k8s_ops.Egress.Token.{
  operator_namespace, token_in, or_operator_token, get_netclient_token, build_netclient_env_vars,
}
use netmaker_k8s_ops.Egress.Build.{proxy_pod, build_proxy_pod}
use netmaker_k8s_ops.Egress.{
  pod_name, pod_key, key_of, create_proxy_pod, on_existing, ensure_proxy_pod, delete_found,
  dispatch, write_endpoints, publish, update_service_endpoints, cleanup_proxy_pod, or_endpoints,
  on_service, forward, reconcile, is_egress_enabled, get_egress_target,
}

-- The object of the call is the service `k`, its proxy pod, its endpoints, or a secret in its
-- namespace or the operator's. Nothing else is called.
abbrev pub Confined : Env → Key → Call → Type 0
Confined env k (get_service j) = (j.name ≡ k.name) × (j.namespace ≡ k.namespace)
Confined env k (get_pod j) = (j.name ≡ pod_name k.name) × (j.namespace ≡ k.namespace)
Confined env k (get_endpoints j) = (j.name ≡ k.name) × (j.namespace ≡ k.namespace)
Confined env k (get_secret j) = (j.namespace ≡ k.namespace) ⊎ (j.namespace ≡ operator_namespace env)
Confined env k (create_pod p) = (p.name ≡ pod_name k.name) × (p.namespace ≡ k.namespace)
Confined env k (delete_pod p) = (p.name ≡ pod_name k.name) × (p.namespace ≡ k.namespace)
Confined env k (create_endpoints e) = (e.name ≡ k.name) × (e.namespace ≡ k.namespace)
Confined env k (update_endpoints e) = (e.name ≡ k.name) × (e.namespace ≡ k.namespace)
Confined env k _ = ⊥

module _ (env : Env) (k : Key) where
  abbrev pub Stays {ℓ} : {A : Type ℓ} → Prog A → Type 0
  Stays = Always (Confined env k) Anything

  delete-Stays :
      (found : Result Pod) → Answers (get_pod (pod_key k)) found → Stays (delete_found found)
  unfolding delete_found
  delete-Stays (ok pod) named = (named, λ r a. tt)
  delete-Stays (err e) _ = Always-if _ _ (is_not_found e) _ _ tt tt

  cleanup-Stays : Stays (cleanup_proxy_pod k)
  unfolding cleanup_proxy_pod
  cleanup-Stays = ((refl, refl), delete-Stays)

module _ (env : Env) (service : Service) where
  abbrev Holds {ℓ} : {A : Type ℓ} → (A → Type 0) → Prog A → Type 0
  Holds = Always (Confined env (key_of service))

  or_operator_token-Holds :
      (found : Option String) → Holds Anything (or_operator_token env service found)
  unfolding or_operator_token
  or_operator_token-Holds (some token) = tt
  or_operator_token-Holds none = (inr refl, λ r a. tt)

  token-Holds : Holds Anything (get_netclient_token env service)
  unfolding get_netclient_token
  token-Holds = (inl refl, λ own _. or_operator_token-Holds (token_in _ own))

  abbrev IsNamed : String → Pod → Type 0
  IsNamed name pod = (pod.name ≡ name) × (pod.namespace ≡ service.namespace)

  build-Holds :
      (name ip dns : String) → Holds (IsNamed name) (build_proxy_pod env service name ip dns)
  unfolding build_proxy_pod build_netclient_env_vars proxy_pod
  build-Holds name ip dns =
      Always-bind _ Anything (IsNamed name) (get_netclient_token env service) _ token-Holds
        λ token _. (inl refl, λ own _. (refl, refl))

  create-Holds : (ip dns : String) → Holds Anything (create_proxy_pod env service ip dns)
  unfolding create_proxy_pod
  create-Holds ip dns =
      Always-bind _ (IsNamed (pod_name service.name)) Anything
        (build_proxy_pod env service _ ip dns) _ (build-Holds _ ip dns)
        λ pod named. (named, λ r a. tt)

  existing-Holds :
      (fuel : ℕ) (ip dns : String) (found : Result Pod)
      → Holds Anything (on_existing env (ensure_proxy_pod env fuel) service ip dns found)
  unfolding on_existing
  existing-Holds fuel ip dns (ok pod) = tt
  existing-Holds fuel ip dns (err e) = Always-if _ _ (is_not_found e) _ _ (create-Holds ip dns) tt

  ensure-Holds :
      (fuel : ℕ) (ip dns : String) → Holds Anything (ensure_proxy_pod env fuel service ip dns)
  unfolding ensure_proxy_pod
  ensure-Holds zero ip dns = tt
  ensure-Holds (suc fuel) ip dns = ((refl, refl), λ found _. existing-Holds fuel ip dns found)

  write-Holds :
      (pod : Pod) (found : Result Endpoints)
      → Answers (get_endpoints (key_of service)) found
      → Holds Anything (write_endpoints service pod found)
  unfolding write_endpoints
  write-Holds pod (ok endpoints) named = (named, λ r a. tt)
  write-Holds pod (err e) _ = Always-if _ _ (is_not_found e) _ _ ((refl, refl), λ r a. tt) tt

  publish-Holds : (found : Result Pod) → Holds Anything (publish service found)
  unfolding publish
  publish-Holds (err e) = Always-if _ _ (is_not_found e) _ _ tt tt
  publish-Holds (ok pod) =
      Always-if _ _ (pod.phase == "Running") _ _
        ((refl, refl), λ found named. write-Holds pod found named) tt

  endpoints-Holds : Holds Anything (update_service_endpoints service)
  unfolding update_service_endpoints
  endpoints-Holds = ((refl, refl), λ found _. publish-Holds found)

  or_endpoints-Holds : (failed : Option GoError) → Holds Anything (or_endpoints service failed)
  unfolding or_endpoints
  or_endpoints-Holds (some e) = tt
  or_endpoints-Holds none =
      Always-bind _ Anything Anything (update_service_endpoints service) _ endpoints-Holds λ _ _. tt

  forward-Holds : (ip dns : String) → Holds Anything (forward env service ip dns)
  unfolding forward
  forward-Holds ip dns =
      Always-bind _ Anything Anything (ensure_proxy_pod env 1 service ip dns) _
        (ensure-Holds 1 ip dns) λ failed _. or_endpoints-Holds failed

on_service-Stays :
    (env : Env) (k : Key) (service : Service)
    → service.name ≡ k.name
    → service.namespace ≡ k.namespace
    → Stays env k (on_service env k service)
unfolding on_service
on_service-Stays env k service n ns =
    let (ip, dns) = get_egress_target service in
    let e : key_of service ≡ k = ground arith in
    Always-if _ _ (is_egress_enabled service) _ _
      (Always-if _ _ (ip == "" && dns == "") (ret (no_requeue, none)) (forward env service ip dns)
        tt
        (subst (λ j. Stays env j (forward env service ip dns)) e
          (forward-Holds env service ip dns)))
      (cleanup-Stays env k)

dispatch-Stays :
    (env : Env) (k : Key) (found : Result Service)
    → Answers (get_service k) found
    → Stays env k (dispatch env k found)
unfolding dispatch
dispatch-Stays env k (ok service) (n, ns) = on_service-Stays env k service n ns
dispatch-Stays env k (err e) _ = Always-if _ _ (is_not_found e) _ _ (cleanup-Stays env k) tt

pub reconcile-Stays : (env : Env) (k : Key) → Stays env k (reconcile env k)
unfolding reconcile
reconcile-Stays env k = ((refl, refl), dispatch-Stays env k)

-- Against an API server that returns the objects that it is asked for, a reconciliation of the
-- service `k` calls for nothing but that service, the pod named after it, its endpoints, and
-- secrets in its namespace or the operator's.
pub reconcile-Confined :
    (env : Env) (C : Client) (k : Key) (s : C.State)
    → IsFaithful C
    → All (Confined env k) (calls C (reconcile env k) s)
reconcile-Confined env C k s faithful =
    calls-All _ Anything C (reconcile env k) s faithful (reconcile-Stays env k)
