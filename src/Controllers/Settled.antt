-- ===== src/Controllers/Settled.antt =====
-- On internal/controller/egress_proxy_controller.go and internal/controller/ingress_proxy_controller.go.
-- Where a reconciliation by either controller leads, if it ends with no error.
use netmaker_k8s_ops.Base.{
  String, ◌==◌, ◌&&◌, ◌≡◌, ◌≢◌, refl, ap, subst, true, false, inl, inr, Bool-cases, none, some, Env,
}
use netmaker_k8s_ops.Kube.{Key, Service}
use netmaker_k8s_ops.Kube.Client.{
  GoError, Result, ok, err, is_not_found, Client, returned, run, get_service, no_requeue, ret,
}
use netmaker_k8s_ops.Kube.Calls.{IsFaithful}
use netmaker_k8s_ops.Kube.Cluster.{Pods, Services, services-run}
use netmaker_k8s_ops.Egress
use netmaker_k8s_ops.Egress.{get_egress_target}
use netmaker_k8s_ops.Egress.Convergence.{reconcile-Absent, reconcile-Present}
use netmaker_k8s_ops.Ingress
use netmaker_k8s_ops.Ingress.Convergence.{reconcile_ingress-Absent, reconcile_ingress-Present}
use netmaker_k8s_ops.Controllers.{
  Controller, egress, ingress, reconcile_by, pod_of, is_enabled, is_passed_over, want, present,
  Meets,
}

has_target :
    (target : String × String) → (target.0 == "" && target.1 == "") ≡ false → target ≢ ("", "")
has_target (ip, dns) h e = absurd (cc (h, ap (λ (t : String × String). t.0 == "" && t.1 == "") e))

module _ (env : Env) (C : Client) (faithful : IsFaithful C) (P : Pods C) (k : Key) where
  abbrev pub Done : Controller → C.State → Type 0
  Done c s = (run C (reconcile_by c env k) s).0 ≡ returned (no_requeue, none)

  abbrev pub after : Controller → C.State → C.State
  after c s = (run C (reconcile_by c env k) s).1

  abbrev pub answer : C.State → Result Service
  answer s = (C.serve (get_service k) s).0

  off-Absent :
      (c : Controller) (s : C.State)
      → ((service : Service) → answer s ≡ ok service → is_enabled c service ≡ false)
      → Done c s
      → P.pods (after c s) (pod_of c k) ≡ none
  off-Absent egress s off e = reconcile-Absent env C faithful P k s off e
  off-Absent ingress s off e = reconcile_ingress-Absent env C faithful P k s off e

  on-Present :
      (c : Controller) (s : C.State) (service : Service)
      → answer s ≡ ok service
      → is_enabled c service ≡ true
      → is_passed_over c service ≡ false
      → P.terminating s (pod_of c k) ≡ false
      → Done c s
      → P.pods (after c s) (pod_of c k) ≢ none
  on-Present egress s service there on target unmarked e =
      reconcile-Present env C faithful P k s there on (has_target _ target) unmarked e
  on-Present ingress s service there on only unmarked e =
      reconcile_ingress-Present env C faithful P k s there on only unmarked e

  egress_fails :
      (m : GoError)
      → is_not_found m ≡ false
      → Egress.dispatch env k (err m) ≡ ret (no_requeue, some m)
  unfolding Egress.dispatch
  egress_fails m real = rw real refl

  ingress_fails :
      (m : GoError)
      → is_not_found m ≡ false
      → Ingress.dispatch env k (err m) ≡ ret (no_requeue, some m)
  unfolding Ingress.dispatch
  ingress_fails m real = rw real refl

  -- Another error than that the service is not there is returned.
  failed-Done :
      (c : Controller) (s : C.State) (m : GoError)
      → answer s ≡ err m
      → is_not_found m ≡ false
      → Done c s
      → ⊥
  unfolding Egress.reconcile Ingress.reconcile
  failed-Done egress s m there real e =
      let fails : Egress.dispatch env k (answer s) ≡ ret (no_requeue, some m) =
        rw there (egress_fails m real) in
      let t = (C.serve (get_service k) s).1 in absurd (cc (e, fails))
  failed-Done ingress s m there real e =
      let fails : Ingress.dispatch env k (answer s) ≡ ret (no_requeue, some m) =
        rw there (ingress_fails m real) in
      let t = (C.serve (get_service k) s).1 in absurd (cc (e, fails))

  ok-Meets :
      (c : Controller) (s : C.State) (service : Service)
      → answer s ≡ ok service
      → (want c (some service) ≡ present → P.terminating s (pod_of c k) ≡ false)
      → Done c s
      → Meets (want c (some service)) (P.pods (after c s) (pod_of c k))
  ok-Meets c s service there unmarked e = elim (Bool-cases (is_enabled c service)) [
    | inr off ↦ rw off (
        off-Absent c s
          (λ x same.
            subst (λ y. is_enabled c y ≡ false) (let back : service ≡ x = cc (there, same) in back)
              off)
          e)
    | inl on ↦ elim (Bool-cases (is_passed_over c service)) [
      | inl over ↦ rw (on, over) tt
      | inr only ↦
          rw (on, only) (on-Present c s service there on only (unmarked (rw (on, only) refl)) e)
    ]
  ]

  module _ (V : Services C) where
    -- The pod that the controller keeps for `k` is there, or not, as the service asks.
    abbrev pub IsSettled : Controller → C.State → Type 0
    IsSettled c s = Meets (want c (V.services s k)) (P.pods s (pod_of c k))

    answer-Meets :
        (c : Controller) (s : C.State) (found : Result Service)
        → answer s ≡ found
        → (want c (V.services s k) ≡ present → P.terminating s (pod_of c k) ≡ false)
        → Done c s
        → Meets (want c (V.services s k)) (P.pods (after c s) (pod_of c k))
    answer-Meets c s (ok service) there unmarked e =
        rw (V.read k s service there)
          (ok-Meets c s service there (rw (V.read k s service there) at unmarked) e)
    answer-Meets c s (err m) there unmarked e = elim (Bool-cases (is_not_found m)) [
      | inl gone ↦ rw (V.unread k s m there gone) (off-Absent c s (λ x same. cc (there, same)) e)
      | inr real ↦ absurd (failed-Done c s m there real e)
    ]

    -- On a server as `IsFaithful`, `Pods` and `Services` describe it: a reconciliation by either
    -- controller that ends with no error leaves a proxy pod for the service `k` if the service is
    -- there, enabled and not passed over, and none of its name was terminating, and none if the service is gone or not enabled.
    pub reconcile_by-IsSettled :
        (c : Controller) (s : C.State)
        → (want c (V.services s k) ≡ present → P.terminating s (pod_of c k) ≡ false)
        → Done c s
        → IsSettled c (after c s)
    reconcile_by-IsSettled c s unmarked e =
        rw (services-run C V (reconcile_by c env k) s) (answer-Meets c s (answer s) refl unmarked e)
