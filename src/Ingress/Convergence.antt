-- ===== src/Ingress/Convergence.antt =====
-- On internal/controller/ingress_proxy_controller.go.
-- Where a reconciliation of ingress leads, if it ends with no error.
use netmaker_k8s_ops.Base.{
  ◌==◌, ◌≡◌, refl, sym, ap, subst, true, false, Option, none, some, Env, arith, ◌≢◌, ◌∙◌, inl, inr,
  Bool-cases, index, [], ◌∷◌,
}
use netmaker_k8s_ops.Kube.{Key, Service, Pod}
use netmaker_k8s_ops.Kube.Client.{
  GoError, Result, ok, err, is_not_found, Prog, Client, call, returned, run, calls, ret, ◌>>=◌,
  get_service, get_pod, create_pod, delete_pod, Reply, no_requeue,
}
use netmaker_k8s_ops.Kube.Calls.{Answers, IsFaithful}
use netmaker_k8s_ops.Kube.Runs.{wrap_error-none, run-bind_inv, run-Always}
use netmaker_k8s_ops.Kube.Cluster.{Pods, KeepsPods, key_of_pod}
use netmaker_k8s_ops.Egress.{key_of}
use netmaker_k8s_ops.Ingress.Build.{build_proxy_pod}
use netmaker_k8s_ops.Ingress.{
  pod_name, pod_key, on_existing, ensure_proxy_pod, create_proxy_pod, delete_found,
  cleanup_proxy_pod, on_service, dispatch, reconcile, is_ingress_enabled,
}
use netmaker_k8s_ops.Ingress.Keeps.{build-Keeps}

module _ (env : Env) (C : Client) (faithful : IsFaithful C) (P : Pods C) (service : Service) where
  abbrev Present : C.State → Type 0
  Present s = P.pods s (pod_key (key_of service)) ≢ none

  created-Present :
      (pod : Pod) (s : C.State)
      → key_of_pod pod ≡ pod_key (key_of service)
      → (run C (call (create_pod pod)) s).0 ≡ returned none
      → Present (run C (call (create_pod pod)) s).1
  created-Present pod s named e =
      subst (λ k. P.pods (C.serve (create_pod pod) s).1 k ≢ none) named
        (P.created pod s (ground arith))

  create-Present :
      (s : C.State)
      → (run C (create_proxy_pod env service) s).0 ≡ returned none
      → Present (run C (create_proxy_pod env service) s).1
  unfolding create_proxy_pod
  create-Present s e =
      let build = build_proxy_pod env service (pod_name service.name) in
      let (pod, built, same) = run-bind_inv C build _ s e in
      let named = run-Always C KeepsPods _ build s pod faithful (build-Keeps env service _) built in
      rw same (created-Present pod (run C build s).1 named (wrap_error-none _ _ (rw same at e)))

  existing-Present :
      (found : Result Pod) (s : C.State)
      → ((pod : Pod) → found ≡ ok pod → Present s)
      → let m = on_existing env (ensure_proxy_pod env 0) service found in
        (run C m s).0 ≡ returned none → Present (run C m s).1
  unfolding on_existing
  existing-Present (ok pod) s there e = there pod refl
  existing-Present (err m) s there e = elim (Bool-cases (is_not_found m)) [
    | inl absent ↦ rw absent (create-Present s (rw absent at e))
    | inr failed ↦ cc (failed, e)
  ]

  ensure-Present :
      (s : C.State)
      → P.terminating s (pod_key (key_of service)) ≡ false
      → (run C (ensure_proxy_pod env 1 service) s).0 ≡ returned none
      → Present (run C (ensure_proxy_pod env 1 service) s).1
  unfolding ensure_proxy_pod
  ensure-Present s unmarked e =
      let k = pod_key (key_of service) in
      existing-Present (C.serve (get_pod k) s).0 (C.serve (get_pod k) s).1
        (λ pod answer gone. cc (P.found k s pod unmarked answer, P.frame (get_pod k) s k tt, gone))
        e

  abbrev finish : Option GoError → Prog Reply
  finish failed = ret (no_requeue, failed)

  finish-Present :
      (failed : Option GoError) (s : C.State)
      → (failed ≡ none → Present s)
      → (run C (finish failed) s).0 ≡ returned (no_requeue, none)
      → Present s
  finish-Present none s there e = there refl
  finish-Present (some x) s there e = absurd cc

  forward-Present :
      (s : C.State)
      → P.terminating s (pod_key (key_of service)) ≡ false
      → (run C (ensure_proxy_pod env 1 service >>= finish) s).0 ≡ returned (no_requeue, none)
      → Present (run C (ensure_proxy_pod env 1 service >>= finish) s).1
  forward-Present s unmarked e =
      let ensure = ensure_proxy_pod env 1 service in
      let (failed, ensured, same) = run-bind_inv C ensure finish s e in
      rw same (
        finish-Present failed (run C ensure s).1
          (λ done. ensure-Present s unmarked (ensured ∙ ap (λ o. returned o) done)) (rw same at e))

module _ (env : Env) (C : Client) (faithful : IsFaithful C) (P : Pods C) (k : Key) where
  abbrev service_answer : C.State → Result Service
  service_answer s = (C.serve (get_service k) s).0

  abbrev Done : C.State → Type 0
  Done s = (run C (reconcile env k) s).0 ≡ returned (no_requeue, none)

  abbrev after : C.State → C.State
  after s = (run C (reconcile env k) s).1

  delete-Absent :
      (found : Result Pod) (s : C.State)
      → Answers (get_pod (pod_key k)) found
      → ((e : GoError) → found ≡ err e → is_not_found e ≡ true → P.pods s (pod_key k) ≡ none)
      → (run C (delete_found found) s).0 ≡ returned (no_requeue, none)
      → P.pods (run C (delete_found found) s).1 (pod_key k) ≡ none
  unfolding delete_found
  delete-Absent (ok pod) s (n, ns) there e =
      let named : key_of_pod pod ≡ pod_key k = ground arith in
      subst (λ j. P.pods (C.serve (delete_pod pod) s).1 j ≡ none) named
        (P.deleted pod s (ground arith))
  delete-Absent (err m) s _ there e = elim (Bool-cases (is_not_found m)) [
    | inl absent ↦ rw absent (there m refl absent)
    | inr failed ↦ cc (failed, e)
  ]

  cleanup-Absent :
      (s : C.State)
      → (run C (cleanup_proxy_pod k) s).0 ≡ returned (no_requeue, none)
      → P.pods (run C (cleanup_proxy_pod k) s).1 (pod_key k) ≡ none
  unfolding cleanup_proxy_pod
  cleanup-Absent s e =
      let j = pod_key k in
      delete-Absent (C.serve (get_pod j) s).0 (C.serve (get_pod j) s).1 (faithful (get_pod j) s)
        (λ m answer absent. P.frame (get_pod j) s j tt ∙ P.missing j s m answer absent) e

  dispatch-Absent :
      (found : Result Service) (s : C.State)
      → ((service : Service) → found ≡ ok service → is_ingress_enabled service ≡ false)
      → (run C (dispatch env k found) s).0 ≡ returned (no_requeue, none)
      → P.pods (run C (dispatch env k found) s).1 (pod_key k) ≡ none
  unfolding dispatch
  dispatch-Absent (ok service) s off e =
      rw (off service refl) (cleanup-Absent s (rw (off service refl) at e))
  dispatch-Absent (err m) s off e = elim (Bool-cases (is_not_found m)) [
    | inl absent ↦ rw absent (cleanup-Absent s (rw absent at e))
    | inr failed ↦ cc (failed, e)
  ]

  dispatch-Present :
      (found : Result Service) (s : C.State) {service : Service}
      → Answers (get_service k) found
      → found ≡ ok service
      → is_ingress_enabled service ≡ true
      → (index service.annotations "netmaker.io/egress" == "enabled") ≡ false
      → P.terminating s (pod_key k) ≡ false
      → (run C (dispatch env k found) s).0 ≡ returned (no_requeue, none)
      → P.pods (run C (dispatch env k found) s).1 (pod_key k) ≢ none
  unfolding dispatch
  dispatch-Present (err m) s _ answer on only unmarked e = cc
  dispatch-Present (ok x) s {service} (n, ns) answer on only unmarked e =
      let same : service ≡ x = cc in
      let on_x = subst (λ y. is_ingress_enabled y ≡ true) same on in
      let only_x =
        subst (λ y. (index y.annotations "netmaker.io/egress" == "enabled") ≡ false) same only in
      let named : key_of x ≡ k = ground arith in
      let unmarked_x = subst (λ j. P.terminating s (pod_key j) ≡ false) (sym named) unmarked in
      subst (λ j. P.pods (run C (dispatch env k (ok x)) s).1 (pod_key j) ≢ none) named
        (rw (on_x, only_x)
          (forward-Present env C faithful P x s unmarked_x (rw (on_x, only_x) at e)))

  -- On a server as `IsFaithful` and `Pods` describe it: if the service is gone, or its annotation does not enable ingress, a reconciliation that
  -- ends with no error leaves no proxy pod for it.
  pub reconcile_ingress-Absent :
      (s : C.State)
      → ((service : Service) → service_answer s ≡ ok service → is_ingress_enabled service ≡ false)
      → Done s
      → P.pods (after s) (pod_key k) ≡ none
  unfolding reconcile
  reconcile_ingress-Absent s off e =
      dispatch-Absent (service_answer s) (C.serve (get_service k) s).1 off e

  -- On a server as `IsFaithful` and `Pods` describe it: if the service is there with ingress enabled and egress not, a reconciliation that ends with no
  -- error leaves a proxy pod for it, unless one was terminating.
  pub reconcile_ingress-Present :
      (s : C.State) {service : Service}
      → service_answer s ≡ ok service
      → is_ingress_enabled service ≡ true
      → (index service.annotations "netmaker.io/egress" == "enabled") ≡ false
      → P.terminating s (pod_key k) ≡ false
      → Done s
      → P.pods (after s) (pod_key k) ≢ none
  unfolding reconcile
  reconcile_ingress-Present s answer on only unmarked e =
      dispatch-Present (service_answer s) (C.serve (get_service k) s).1 (faithful (get_service k) s)
        answer on only (P.unmarked (get_service k) s (pod_key k) tt unmarked) e

  dispatch_both :
      (service : Service)
      → is_ingress_enabled service ≡ true
      → (index service.annotations "netmaker.io/egress" == "enabled") ≡ true
      → dispatch env k (ok service) ≡ ret (no_requeue, none)
  unfolding dispatch on_service
  dispatch_both service on both = rw (on, both) refl

  -- On a server as `IsFaithful` and `Pods` describe it: if the service is there with both enabled, a reconciliation only reads it and ends with no
  -- error: no pod is created, and one that was created before stays.
  pub reconcile_ingress_both :
      (s : C.State) {service : Service}
      → service_answer s ≡ ok service
      → is_ingress_enabled service ≡ true
      → (index service.annotations "netmaker.io/egress" == "enabled") ≡ true
      → (calls C (reconcile env k) s ≡ get_service k ∷ [])
        × Done s
        × ((j : Key) → P.pods (after s) j ≡ P.pods s j)
  unfolding reconcile
  reconcile_ingress_both s {service} answer on both =
      let settled : dispatch env k (service_answer s) ≡ ret (no_requeue, none) =
        rw answer (dispatch_both service on both) in
      let t = (C.serve (get_service k) s).1 in
      (
        ap (λ m. get_service k ∷ calls C m t) settled,
        ap (λ m. (run C m t).0) settled,
        λ j. ap (λ m. P.pods (run C m t).1 j) settled ∙ P.frame (get_service k) s j tt,
      )
