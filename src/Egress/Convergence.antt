-- ===== src/Egress/Convergence.antt =====
-- On internal/controller/egress_proxy_controller.go.
-- Where a reconciliation of egress leads, if it ends with no error.
use netmaker_k8s_ops.Base.{
  String, ◌==◌, ◌≡◌, refl, sym, ap, subst, true, false, ◌&&◌, Option, none, some, Env, arith,
  eq_iff, ◌≢◌, ◌∙◌, inl, inr, Bool-cases,
}
use netmaker_k8s_ops.Kube.{Key, Service, Pod}
use netmaker_k8s_ops.Kube.Client.{
  GoError, Result, ok, err, is_not_found, Client, call, returned, run, get_service, get_pod,
  create_pod, delete_pod, no_requeue,
}
use netmaker_k8s_ops.Kube.Calls.{Answers, IsFaithful, Anything}
use netmaker_k8s_ops.Kube.Runs.{wrap_error-none, run-bind_inv, run-Always}
use netmaker_k8s_ops.Kube.Cluster.{Pods, KeepsPods, pods-run, key_of_pod}
use netmaker_k8s_ops.Egress.Build.{build_proxy_pod}
use netmaker_k8s_ops.Egress.{
  pod_name, pod_key, key_of, on_existing, ensure_proxy_pod, create_proxy_pod, delete_found,
  cleanup_proxy_pod, forward, or_endpoints, dispatch, reconcile, is_egress_enabled,
  get_egress_target,
}
use netmaker_k8s_ops.Egress.Keeps.{build-Keeps, or_endpoints-Keeps}

pub has_target :
    (target : String × String) → target ≢ ("", "") → (target.0 == "" && target.1 == "") ≡ false
has_target (ip, dns) h = ground (arith, eq_iff ip "", eq_iff dns "")

module _ (env : Env) (C : Client) (faithful : IsFaithful C) (P : Pods C) (service : Service) where
  abbrev Present : C.State → Type 0
  Present s = P.pods s (pod_key (key_of service)) ≢ none

  created-Present :
      (pod : Pod) (s : C.State)
      → key_of_pod pod ≡ pod_key (key_of service)
      → (run C (call (create_pod pod)) s).0 ≡ returned none
      → Present (run C (call (create_pod pod)) s).1
  created-Present pod s named e =
      subst (λ k. P.pods (C.serve (create_pod pod) s).1 k ≢ none) named
        (P.created pod s (ground arith))

  create-Present :
      (ip dns : String) (s : C.State)
      → (run C (create_proxy_pod env service ip dns) s).0 ≡ returned none
      → Present (run C (create_proxy_pod env service ip dns) s).1
  unfolding create_proxy_pod
  create-Present ip dns s e =
      let build = build_proxy_pod env service (pod_name service.name) ip dns in
      let (pod, built, same) = run-bind_inv C build _ s e in
      let named =
        run-Always C KeepsPods _ build s pod faithful (build-Keeps env service _ ip dns) built in
      rw same (created-Present pod (run C build s).1 named (wrap_error-none _ _ (rw same at e)))

  existing-Present :
      (ip dns : String) (found : Result Pod) (s : C.State)
      → ((pod : Pod) → found ≡ ok pod → Present s)
      → let m = on_existing env (ensure_proxy_pod env 0) service ip dns found in
        (run C m s).0 ≡ returned none → Present (run C m s).1
  unfolding on_existing
  existing-Present ip dns (ok pod) s there e = there pod refl
  existing-Present ip dns (err m) s there e = elim (Bool-cases (is_not_found m)) [
    | inl absent ↦ rw absent (create-Present ip dns s (rw absent at e))
    | inr failed ↦ cc (failed, e)
  ]

  ensure-Present :
      (ip dns : String) (s : C.State)
      → P.terminating s (pod_key (key_of service)) ≡ false
      → (run C (ensure_proxy_pod env 1 service ip dns) s).0 ≡ returned none
      → Present (run C (ensure_proxy_pod env 1 service ip dns) s).1
  unfolding ensure_proxy_pod
  ensure-Present ip dns s unmarked e =
      let k = pod_key (key_of service) in
      existing-Present ip dns (C.serve (get_pod k) s).0 (C.serve (get_pod k) s).1
        (λ pod answer gone. cc (P.found k s pod unmarked answer, P.frame (get_pod k) s k tt, gone))
        e

  or_endpoints-Present :
      (failed : Option GoError) (s : C.State)
      → (failed ≡ none → Present s)
      → (run C (or_endpoints service failed) s).0 ≡ returned (no_requeue, none)
      → Present (run C (or_endpoints service failed) s).1
  or_endpoints-Present none s there e =
      rw
        (pods-run C P Anything (or_endpoints service none) s _ faithful
          (or_endpoints-Keeps service none))
        (there refl)
  or_endpoints-Present (some x) s there e = absurd (unfold or_endpoints in cc)

  forward-Present :
      (ip dns : String) (s : C.State)
      → P.terminating s (pod_key (key_of service)) ≡ false
      → (run C (forward env service ip dns) s).0 ≡ returned (no_requeue, none)
      → Present (run C (forward env service ip dns) s).1
  unfolding forward
  forward-Present ip dns s unmarked e =
      let ensure = ensure_proxy_pod env 1 service ip dns in
      let (failed, ensured, same) = run-bind_inv C ensure (or_endpoints service) s e in
      rw same (
        or_endpoints-Present failed (run C ensure s).1
          (λ done. ensure-Present ip dns s unmarked (ensured ∙ ap (λ o. returned o) done))
          (rw same at e))

module _ (env : Env) (C : Client) (faithful : IsFaithful C) (P : Pods C) (k : Key) where
  abbrev service_answer : C.State → Result Service
  service_answer s = (C.serve (get_service k) s).0

  abbrev Done : C.State → Type 0
  Done s = (run C (reconcile env k) s).0 ≡ returned (no_requeue, none)

  abbrev after : C.State → C.State
  after s = (run C (reconcile env k) s).1

  delete-Absent :
      (found : Result Pod) (s : C.State)
      → Answers (get_pod (pod_key k)) found
      → ((e : GoError) → found ≡ err e → is_not_found e ≡ true → P.pods s (pod_key k) ≡ none)
      → (run C (delete_found found) s).0 ≡ returned (no_requeue, none)
      → P.pods (run C (delete_found found) s).1 (pod_key k) ≡ none
  unfolding delete_found
  delete-Absent (ok pod) s (n, ns) there e =
      let named : key_of_pod pod ≡ pod_key k = ground arith in
      subst (λ j. P.pods (C.serve (delete_pod pod) s).1 j ≡ none) named
        (P.deleted pod s (ground arith))
  delete-Absent (err m) s _ there e = elim (Bool-cases (is_not_found m)) [
    | inl absent ↦ rw absent (there m refl absent)
    | inr failed ↦ cc (failed, e)
  ]

  cleanup-Absent :
      (s : C.State)
      → (run C (cleanup_proxy_pod k) s).0 ≡ returned (no_requeue, none)
      → P.pods (run C (cleanup_proxy_pod k) s).1 (pod_key k) ≡ none
  unfolding cleanup_proxy_pod
  cleanup-Absent s e =
      let j = pod_key k in
      delete-Absent (C.serve (get_pod j) s).0 (C.serve (get_pod j) s).1 (faithful (get_pod j) s)
        (λ m answer absent. P.frame (get_pod j) s j tt ∙ P.missing j s m answer absent) e

  dispatch-Absent :
      (found : Result Service) (s : C.State)
      → ((service : Service) → found ≡ ok service → is_egress_enabled service ≡ false)
      → (run C (dispatch env k found) s).0 ≡ returned (no_requeue, none)
      → P.pods (run C (dispatch env k found) s).1 (pod_key k) ≡ none
  unfolding dispatch
  dispatch-Absent (ok service) s off e =
      rw (off service refl) (cleanup-Absent s (rw (off service refl) at e))
  dispatch-Absent (err m) s off e = elim (Bool-cases (is_not_found m)) [
    | inl absent ↦ rw absent (cleanup-Absent s (rw absent at e))
    | inr failed ↦ cc (failed, e)
  ]

  dispatch-Present :
      (found : Result Service) (s : C.State) {service : Service}
      → Answers (get_service k) found
      → found ≡ ok service
      → is_egress_enabled service ≡ true
      → get_egress_target service ≢ ("", "")
      → P.terminating s (pod_key k) ≡ false
      → (run C (dispatch env k found) s).0 ≡ returned (no_requeue, none)
      → P.pods (run C (dispatch env k found) s).1 (pod_key k) ≢ none
  unfolding dispatch
  dispatch-Present (err m) s _ answer on target unmarked e = cc
  dispatch-Present (ok x) s {service} (n, ns) answer on target unmarked e =
      let same : service ≡ x = cc in
      let on_x = subst (λ y. is_egress_enabled y ≡ true) same on in
      let target_x = has_target _ (subst (λ y. get_egress_target y ≢ ("", "")) same target) in
      let (ip, dns) = get_egress_target x in
      let named : key_of x ≡ k = ground arith in
      let unmarked_x = subst (λ j. P.terminating s (pod_key j) ≡ false) (sym named) unmarked in
      subst (λ j. P.pods (run C (dispatch env k (ok x)) s).1 (pod_key j) ≢ none) named
        (rw (on_x, target_x)
          (forward-Present env C faithful P x ip dns s unmarked_x (rw (on_x, target_x) at e)))

  -- On a server as `IsFaithful` and `Pods` describe it: if the service is gone, or its annotation does not enable egress, a reconciliation that
  -- ends with no error leaves no proxy pod for it.
  pub reconcile-Absent :
      (s : C.State)
      → ((service : Service) → service_answer s ≡ ok service → is_egress_enabled service ≡ false)
      → Done s
      → P.pods (after s) (pod_key k) ≡ none
  unfolding reconcile
  reconcile-Absent s off e = dispatch-Absent (service_answer s) (C.serve (get_service k) s).1 off e

  -- On a server as `IsFaithful` and `Pods` describe it: if the service is there with egress enabled and a target, a reconciliation that ends with no
  -- error leaves a proxy pod for it, unless one was terminating.
  pub reconcile-Present :
      (s : C.State) {service : Service}
      → service_answer s ≡ ok service
      → is_egress_enabled service ≡ true
      → get_egress_target service ≢ ("", "")
      → P.terminating s (pod_key k) ≡ false
      → Done s
      → P.pods (after s) (pod_key k) ≢ none
  unfolding reconcile
  reconcile-Present s answer on target unmarked e =
      dispatch-Present (service_answer s) (C.serve (get_service k) s).1 (faithful (get_service k) s)
        answer on target (P.unmarked (get_service k) s (pod_key k) tt unmarked) e
