-- ===== src/Ingress/Safety.antt =====
-- The objects that the ingress reconciler calls for (internal/controller/ingress_proxy_controller.go).
use netmaker_k8s_ops.Base.{
  String, ◌≡◌, refl, ◌⊎◌, inl, inr, Option, none, some, Env, All, arith, subst, zero, suc, ℕ, ◌==◌,
  index,
}
use netmaker_k8s_ops.Kube.{Key, Service, Pod}
use netmaker_k8s_ops.Kube.Client.{
  Call, GoError, Result, ok, err, is_not_found, Prog, Client, calls, get_service, get_pod,
  get_secret, create_pod, delete_pod, ◌>>=◌, ret, no_requeue, Reply,
}
use netmaker_k8s_ops.Kube.Calls.{
  Answers, IsFaithful, Anything, Always, Always-bind, Always-if, calls-All,
}
use netmaker_k8s_ops.Egress.{key_of}
use netmaker_k8s_ops.Egress.Token.{token_in}
use netmaker_k8s_ops.Ingress.Token.{
  operator_namespace, or_operator_token, get_netclient_token, build_netclient_env_vars,
}
use netmaker_k8s_ops.Ingress.Build.{proxy_pod, build_proxy_pod}
use netmaker_k8s_ops.Ingress.{
  pod_name, pod_key, create_proxy_pod, on_existing, ensure_proxy_pod, delete_found, dispatch,
  cleanup_proxy_pod, on_service, reconcile, is_ingress_enabled,
}

-- The object of the call is the service `k`, its proxy pod, or a secret in its namespace or the
-- operator's. Nothing else is called.
abbrev pub Confined : Env → Key → Call → Type 0
Confined env k (get_service j) = (j.name ≡ k.name) × (j.namespace ≡ k.namespace)
Confined env k (get_pod j) = (j.name ≡ pod_name k.name) × (j.namespace ≡ k.namespace)
Confined env k (get_secret j) = (j.namespace ≡ k.namespace) ⊎ (j.namespace ≡ operator_namespace env)
Confined env k (create_pod p) = (p.name ≡ pod_name k.name) × (p.namespace ≡ k.namespace)
Confined env k (delete_pod p) = (p.name ≡ pod_name k.name) × (p.namespace ≡ k.namespace)
Confined env k _ = ⊥

module _ (env : Env) (k : Key) where
  abbrev pub Stays {ℓ} : {A : Type ℓ} → Prog A → Type 0
  Stays = Always (Confined env k) Anything

  delete-Stays :
      (found : Result Pod) → Answers (get_pod (pod_key k)) found → Stays (delete_found found)
  unfolding delete_found
  delete-Stays (ok pod) named = (named, λ r a. tt)
  delete-Stays (err e) _ = Always-if _ _ (is_not_found e) _ _ tt tt

  cleanup-Stays : Stays (cleanup_proxy_pod k)
  unfolding cleanup_proxy_pod
  cleanup-Stays = ((refl, refl), delete-Stays)

module _ (env : Env) (service : Service) where
  abbrev Holds {ℓ} : {A : Type ℓ} → (A → Type 0) → Prog A → Type 0
  Holds = Always (Confined env (key_of service))

  or_operator_token-Holds :
      (found : Option String) → Holds Anything (or_operator_token env service found)
  unfolding or_operator_token
  or_operator_token-Holds (some token) = tt
  or_operator_token-Holds none = (inr refl, λ r a. tt)

  token-Holds : Holds Anything (get_netclient_token env service)
  unfolding get_netclient_token
  token-Holds = (inl refl, λ own _. or_operator_token-Holds (token_in _ own))

  abbrev IsNamed : String → Pod → Type 0
  IsNamed name pod = (pod.name ≡ name) × (pod.namespace ≡ service.namespace)

  build-Holds : (name : String) → Holds (IsNamed name) (build_proxy_pod env service name)
  unfolding build_proxy_pod build_netclient_env_vars proxy_pod
  build-Holds name =
      Always-bind _ Anything (IsNamed name) (get_netclient_token env service) _ token-Holds
        λ token _. (inl refl, λ own _. (refl, refl))

  create-Holds : Holds Anything (create_proxy_pod env service)
  unfolding create_proxy_pod
  create-Holds =
      Always-bind _ (IsNamed (pod_name service.name)) Anything (build_proxy_pod env service _) _
        (build-Holds _) λ pod named. (named, λ r a. tt)

  existing-Holds :
      (fuel : ℕ) (found : Result Pod)
      → Holds Anything (on_existing env (ensure_proxy_pod env fuel) service found)
  unfolding on_existing
  existing-Holds fuel (ok pod) = tt
  existing-Holds fuel (err e) = Always-if _ _ (is_not_found e) _ _ create-Holds tt

  ensure-Holds : (fuel : ℕ) → Holds Anything (ensure_proxy_pod env fuel service)
  unfolding ensure_proxy_pod
  ensure-Holds zero = tt
  ensure-Holds (suc fuel) = ((refl, refl), λ found _. existing-Holds fuel found)

abbrev finish : Option GoError → Prog Reply
finish failed = ret (no_requeue, failed)

on_service-Stays :
    (env : Env) (k : Key) (service : Service)
    → service.name ≡ k.name
    → service.namespace ≡ k.namespace
    → Stays env k (on_service env k service)
unfolding on_service
on_service-Stays env k service n ns =
    let e : key_of service ≡ k = ground arith in
    Always-if _ _ (is_ingress_enabled service) _ _
      (Always-if _ _ (index service.annotations "netmaker.io/egress" == "enabled") _ _ tt (
        subst (λ j. Stays env j (ensure_proxy_pod env 1 service >>= finish)) e
          (Always-bind _ Anything Anything (ensure_proxy_pod env 1 service) _
            (ensure-Holds env service 1) λ failed _. tt)))
      (cleanup-Stays env k)

dispatch-Stays :
    (env : Env) (k : Key) (found : Result Service)
    → Answers (get_service k) found
    → Stays env k (dispatch env k found)
unfolding dispatch
dispatch-Stays env k (ok service) (n, ns) = on_service-Stays env k service n ns
dispatch-Stays env k (err e) _ = Always-if _ _ (is_not_found e) _ _ (cleanup-Stays env k) tt

pub reconcile-Stays : (env : Env) (k : Key) → Stays env k (reconcile env k)
unfolding reconcile
reconcile-Stays env k = ((refl, refl), dispatch-Stays env k)

-- Against an API server that returns the objects that it is asked for, a reconciliation of the
-- service `k` calls for nothing but that service, the pod named after it, and secrets in its namespace or the operator's.
pub reconcile_ingress-Confined :
    (env : Env) (C : Client) (k : Key) (s : C.State)
    → IsFaithful C
    → All (Confined env k) (calls C (reconcile env k) s)
reconcile_ingress-Confined env C k s faithful =
    calls-All _ Anything C (reconcile env k) s faithful (reconcile-Stays env k)
