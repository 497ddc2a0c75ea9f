-- ===== src/Controllers/Quiet.antt =====
-- On internal/controller/egress_proxy_controller.go and internal/controller/ingress_proxy_controller.go.
-- The parts of a reconciliation that change no pod where all is as the service asks.
use netmaker_k8s_ops.Base.{
  String, ◌≡◌, ◌≢◌, refl, subst, All, false, inl, inr, Bool-cases, none, Env,
}
use netmaker_k8s_ops.Kube.{Key, Service, Pod}
use netmaker_k8s_ops.Kube.Client.{
  GoError, Result, ok, err, is_not_found, Client, run, calls, get_pod,
}
use netmaker_k8s_ops.Kube.Calls.{IsFaithful, Anything, calls-All}
use netmaker_k8s_ops.Kube.Runs.{calls-bind}
use netmaker_k8s_ops.Kube.Cluster.{Pods, KeepsPods}
use netmaker_k8s_ops.Egress
use netmaker_k8s_ops.Egress.{key_of, get_egress_target}
use netmaker_k8s_ops.Egress.Keeps.{or_endpoints-Keeps}
use netmaker_k8s_ops.Ingress
use netmaker_k8s_ops.Controllers.{egress, ingress, pod_of}

module _ (C : Client) (faithful : IsFaithful C) (P : Pods C) where
  -- If the pod is not there, nor one that terminates, reading it does not find it.
  not_found_there :
      (j : Key) (s : C.State) (pod : Pod)
      → P.terminating s j ≡ false
      → P.pods s j ≡ none
      → (C.serve (get_pod j) s).0 ≢ ok pod
  not_found_there j s pod unmarked gone e = absurd (cc (P.found j s pod unmarked e, gone))

  found_there :
      (j : Key) (s : C.State) (e : GoError)
      → P.pods s j ≢ none
      → (C.serve (get_pod j) s).0 ≡ err e
      → is_not_found e ≡ false
  found_there j s e there failed = elim (Bool-cases (is_not_found e)) [
    | inl missing ↦ absurd (there (P.missing j s e failed missing))
    | inr other ↦ other
  ]

  module _ (k : Key) where
    egress_delete :
        (found : Result Pod) (t : C.State)
        → ((pod : Pod) → found ≢ ok pod)
        → All KeepsPods (calls C (Egress.delete_found found) t)
    unfolding Egress.delete_found
    egress_delete (ok pod) t none_there = absurd (none_there pod refl)
    egress_delete (err e) t none_there = elim (Bool-cases (is_not_found e)) [
      | inl missing ↦ rw missing tt
      | inr other ↦ rw other tt
    ]

    delete_same : (found : Result Pod) → Egress.delete_found found ≡ Ingress.delete_found found
    unfolding Egress.delete_found Ingress.delete_found
    delete_same (ok pod) = refl
    delete_same (err e) = refl

    pub egress_cleanup :
        (s : C.State)
        → P.terminating s (pod_of egress k) ≡ false
        → P.pods s (pod_of egress k) ≡ none
        → All KeepsPods (calls C (Egress.cleanup_proxy_pod k) s)
    unfolding Egress.cleanup_proxy_pod
    egress_cleanup s unmarked gone =
        (tt, egress_delete _ _ λ pod. not_found_there (pod_of egress k) s pod unmarked gone)

    pub ingress_cleanup :
        (s : C.State)
        → P.terminating s (pod_of ingress k) ≡ false
        → P.pods s (pod_of ingress k) ≡ none
        → All KeepsPods (calls C (Ingress.cleanup_proxy_pod k) s)
    unfolding Ingress.cleanup_proxy_pod
    ingress_cleanup s unmarked gone =
        let t = (C.serve (get_pod (pod_of ingress k)) s).1 in
        let found = (C.serve (get_pod (pod_of ingress k)) s).0 in
        (
          tt,
          subst (λ m. All KeepsPods (calls C m t)) (delete_same found)
              (egress_delete found t λ pod. not_found_there (pod_of ingress k) s pod unmarked gone),
        )

  module _ (env : Env) (service : Service) where
    egress_existing :
        (ip dns : String) (found : Result Pod) (t : C.State)
        → ((e : GoError) → found ≡ err e → is_not_found e ≡ false)
        → All KeepsPods (
            calls C (Egress.on_existing env (Egress.ensure_proxy_pod env 0) service ip dns found) t)
    unfolding Egress.on_existing
    egress_existing ip dns (ok pod) t there = tt
    egress_existing ip dns (err e) t there = rw (there e refl) tt

    ingress_existing :
        (found : Result Pod) (t : C.State)
        → ((e : GoError) → found ≡ err e → is_not_found e ≡ false)
        → All KeepsPods
            (calls C (Ingress.on_existing env (Ingress.ensure_proxy_pod env 0) service found) t)
    unfolding Ingress.on_existing
    ingress_existing (ok pod) t there = tt
    ingress_existing (err e) t there = rw (there e refl) tt

    egress_ensure :
        (ip dns : String) (s : C.State)
        → P.pods s (pod_of egress (key_of service)) ≢ none
        → All KeepsPods (calls C (Egress.ensure_proxy_pod env 1 service ip dns) s)
    unfolding Egress.ensure_proxy_pod
    egress_ensure ip dns s there =
        (tt, egress_existing ip dns _ _ λ e. found_there (pod_of egress (key_of service)) s e there)

    pub ingress_ensure :
        (s : C.State)
        → P.pods s (pod_of ingress (key_of service)) ≢ none
        → All KeepsPods (calls C (Ingress.ensure_proxy_pod env 1 service) s)
    unfolding Ingress.ensure_proxy_pod
    ingress_ensure s there =
        (tt, ingress_existing _ _ λ e. found_there (pod_of ingress (key_of service)) s e there)

    pub egress_forward :
        (ip dns : String) (s : C.State)
        → P.pods s (pod_of egress (key_of service)) ≢ none
        → All KeepsPods (calls C (Egress.forward env service ip dns) s)
    unfolding Egress.forward
    egress_forward ip dns s there =
        let ensure = Egress.ensure_proxy_pod env 1 service ip dns in
        calls-bind C KeepsPods ensure (Egress.or_endpoints service) s (egress_ensure ip dns s there)
          λ failed _.
            calls-All KeepsPods Anything C (Egress.or_endpoints service failed) (run C ensure s).1
              faithful (or_endpoints-Keeps service failed)
