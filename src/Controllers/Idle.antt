-- ===== src/Controllers/Idle.antt =====
-- On internal/controller/egress_proxy_controller.go and internal/controller/ingress_proxy_controller.go.
-- A reconciliation where all is as the service asks.
use netmaker_k8s_ops.Base.{
  ◌≡◌, ◌≢◌, refl, subst, sym, All, true, false, inl, inr, Bool-cases, none, some, Env, arith,
}
use netmaker_k8s_ops.Kube.{Key, Service}
use netmaker_k8s_ops.Kube.Client.{
  GoError, Result, ok, err, is_not_found, Client, calls, get_service,
}
use netmaker_k8s_ops.Kube.Calls.{IsFaithful, Answers}
use netmaker_k8s_ops.Kube.Runs.{calls-bind}
use netmaker_k8s_ops.Kube.Cluster.{Pods, Services, KeepsPods}
use netmaker_k8s_ops.Egress
use netmaker_k8s_ops.Egress.{key_of, get_egress_target}
use netmaker_k8s_ops.Ingress
use netmaker_k8s_ops.Controllers.Settled.{IsSettled, answer}
use netmaker_k8s_ops.Controllers.{
  Controller, egress, ingress, reconcile_by, pod_of, is_enabled, is_passed_over, want, Meets,
}
use netmaker_k8s_ops.Controllers.Quiet.{
  egress_cleanup, ingress_cleanup, egress_forward, ingress_ensure,
}

module _ (C : Client) (faithful : IsFaithful C) (P : Pods C) where
  module _ (env : Env) (k : Key) where
    abbrev Idle : Controller → Result Service → C.State → Type 0
    Idle egress found t = All KeepsPods (calls C (Egress.dispatch env k found) t)
    Idle ingress found t = All KeepsPods (calls C (Ingress.dispatch env k found) t)

    -- A service that is there, by what its annotations ask.
    off-Idle :
        (c : Controller) (x : Service) (t : C.State)
        → is_enabled c x ≡ false
        → P.terminating t (pod_of c k) ≡ false
        → P.pods t (pod_of c k) ≡ none
        → Idle c (ok x) t
    unfolding Egress.dispatch Egress.on_service Ingress.dispatch Ingress.on_service
    off-Idle egress x t off unmarked gone = rw off (egress_cleanup C faithful P k t unmarked gone)
    off-Idle ingress x t off unmarked gone = rw off (ingress_cleanup C faithful P k t unmarked gone)

    over-Idle :
        (c : Controller) (x : Service) (t : C.State)
        → is_enabled c x ≡ true
        → is_passed_over c x ≡ true
        → Idle c (ok x) t
    unfolding Egress.dispatch Egress.on_service Ingress.dispatch Ingress.on_service
    over-Idle egress x t on over = rw (on, over) tt
    over-Idle ingress x t on over = rw (on, over) tt

    on-Idle :
        (c : Controller) (x : Service) (t : C.State)
        → key_of x ≡ k
        → is_enabled c x ≡ true
        → is_passed_over c x ≡ false
        → P.pods t (pod_of c k) ≢ none
        → Idle c (ok x) t
    unfolding Egress.dispatch Egress.on_service Ingress.dispatch Ingress.on_service
    on-Idle egress x t named on only there =
        let (ip, dns) = get_egress_target x in
        rw (on, only)
          (egress_forward C faithful P env x ip dns t
            (subst (λ j. P.pods t (pod_of egress j) ≢ none) (sym named) there))
    on-Idle ingress x t named on only there =
        let ensure = Ingress.ensure_proxy_pod env 1 x in
        rw (on, only)
          (calls-bind C KeepsPods ensure _ t
            (ingress_ensure C faithful P env x t
              (subst (λ j. P.pods t (pod_of ingress j) ≢ none) (sym named) there))
            λ failed _. tt)

    found-Idle :
        (c : Controller) (x : Service) (t : C.State)
        → key_of x ≡ k
        → P.terminating t (pod_of c k) ≡ false
        → Meets (want c (some x)) (P.pods t (pod_of c k))
        → Idle c (ok x) t
    found-Idle c x t named unmarked meets = elim (Bool-cases (is_enabled c x)) [
      | inr off ↦ off-Idle c x t off unmarked (rw off at meets)
      | inl on ↦ elim (Bool-cases (is_passed_over c x)) [
        | inl over ↦ over-Idle c x t on over
        | inr only ↦ on-Idle c x t named on only (rw (on, only) at meets)
      ]
    ]

    missing-Idle :
        (c : Controller) (e : GoError) (t : C.State)
        → P.terminating t (pod_of c k) ≡ false
        → (is_not_found e ≡ true → P.pods t (pod_of c k) ≡ none)
        → Idle c (err e) t
    unfolding Egress.dispatch Ingress.dispatch
    missing-Idle egress e t unmarked gone = elim (Bool-cases (is_not_found e)) [
      | inl missing ↦ rw missing (egress_cleanup C faithful P k t unmarked (gone missing))
      | inr other ↦ rw other tt
    ]
    missing-Idle ingress e t unmarked gone = elim (Bool-cases (is_not_found e)) [
      | inl missing ↦ rw missing (ingress_cleanup C faithful P k t unmarked (gone missing))
      | inr other ↦ rw other tt
    ]

    module _ (V : Services C) where
      answer-Idle :
          (c : Controller) (s t : C.State) (found : Result Service)
          → Answers (get_service k) found
          → answer env C faithful P k s ≡ found
          → P.terminating t (pod_of c k) ≡ false
          → Meets (want c (V.services s k)) (P.pods t (pod_of c k))
          → Idle c found t
      answer-Idle c s t (ok x) (n, ns) there unmarked meets =
          let named : key_of x ≡ k = ground arith in
          found-Idle c x t named unmarked (rw (V.read k s x there) at meets)
      answer-Idle c s t (err e) _ there unmarked meets =
          missing-Idle c e t unmarked λ missing. (rw (V.unread k s e there missing) at meets)

      -- What reading the service leaves is as it was.
      read-Idle :
          (c : Controller) (s : C.State)
          → P.terminating s (pod_of c k) ≡ false
          → IsSettled env C faithful P k V c s
          → Idle c (answer env C faithful P k s) (C.serve (get_service k) s).1
      read-Idle c s unmarked settled =
          answer-Idle c s (C.serve (get_service k) s).1 (answer env C faithful P k s)
            (faithful (get_service k) s) refl
            (P.unmarked (get_service k) s (pod_of c k) tt unmarked)
            (rw (P.frame (get_service k) s (pod_of c k) tt) settled)

      -- On a server as `IsFaithful`, `Pods` and `Services` describe it: where the proxy pod is there,
      -- or not, as the service asks, and none of its name terminates, a reconciliation by that controller, however it ends, calls for no
      -- creation and no deletion of a pod.
      pub reconcile_by_idle :
          (c : Controller) (s : C.State)
          → P.terminating s (pod_of c k) ≡ false
          → IsSettled env C faithful P k V c s
          → All KeepsPods (calls C (reconcile_by c env k) s)
      unfolding Egress.reconcile Ingress.reconcile
      reconcile_by_idle egress s unmarked settled = (tt, read-Idle egress s unmarked settled)
      reconcile_by_idle ingress s unmarked settled = (tt, read-Idle ingress s unmarked settled)
