-- ===== src/Controllers/Kept.antt =====
-- On internal/controller/egress_proxy_controller.go and internal/controller/ingress_proxy_controller.go.
-- A reconciliation where there is to be no pod makes none.
use netmaker_k8s_ops.Base.{◌≡◌, refl, All, false, inl, inr, Bool-cases, some, Env}
use netmaker_k8s_ops.Kube.{Key, Service}
use netmaker_k8s_ops.Kube.Client.{
  Result, ok, err, is_not_found, Client, Call, run, calls, get_service,
}
use netmaker_k8s_ops.Kube.Calls.{IsFaithful, Anything, Always, Always-if, calls-All}
use netmaker_k8s_ops.Kube.Cluster.{Pods, Services, Creates, none-calls, pods-calls, services-run}
use netmaker_k8s_ops.Egress
use netmaker_k8s_ops.Egress.Creates.{cleanup-Creates as egress-Creates}
use netmaker_k8s_ops.Ingress
use netmaker_k8s_ops.Ingress.Creates.{cleanup-Creates as ingress-Creates}
use netmaker_k8s_ops.Controllers.{
  Controller, egress, ingress, reconcile_by, pod_of, is_enabled, is_passed_over, Want, want,
  present, absent, either, Meets,
}
use netmaker_k8s_ops.Controllers.Idle.{reconcile_by_idle}
use netmaker_k8s_ops.Controllers.Settled.{IsSettled}

abbrev IsMaking : Call → Type 0
IsMaking = Creates (λ _. ⊥)

absent_disabled : (c : Controller) (x : Service) → want c (some x) ≡ absent → is_enabled c x ≡ false
absent_disabled c x e = elim (Bool-cases (is_enabled c x)) [
  | inr off ↦ off
  | inl on ↦ elim (Bool-cases (is_passed_over c x)) [
    | inl over ↦ cc (rw (on, over) at e)
    | inr only ↦ cc (rw (on, only) at e)
  ]
]

module _ (env : Env) (k : Key) where
  egress-none :
      (found : Result Service)
      → ((x : Service) → found ≡ ok x → is_enabled egress x ≡ false)
      → Always IsMaking Anything (Egress.dispatch env k found)
  unfolding Egress.dispatch Egress.on_service
  egress-none (ok x) off = rw (off x refl) (egress-Creates (λ _. ⊥) k)
  egress-none (err e) off = Always-if _ _ (is_not_found e) _ _ (egress-Creates (λ _. ⊥) k) tt

  ingress-none :
      (found : Result Service)
      → ((x : Service) → found ≡ ok x → is_enabled ingress x ≡ false)
      → Always IsMaking Anything (Ingress.dispatch env k found)
  unfolding Ingress.dispatch Ingress.on_service
  ingress-none (ok x) off = rw (off x refl) (ingress-Creates (λ _. ⊥) k)
  ingress-none (err e) off = Always-if _ _ (is_not_found e) _ _ (ingress-Creates (λ _. ⊥) k) tt

module _ (env : Env) (C : Client) (faithful : IsFaithful C) (P : Pods C) (V : Services C)
    (k : Key) where
  off_read :
      (c : Controller) (s : C.State)
      → want c (V.services s k) ≡ absent
      → (x : Service) → (C.serve (get_service k) s).0 ≡ ok x
      → is_enabled c x ≡ false
  off_read c s off x e = absent_disabled c x (rw (V.read k s x e) at off)

  calls-none :
      (c : Controller) (s : C.State)
      → want c (V.services s k) ≡ absent
      → All IsMaking (calls C (reconcile_by c env k) s)
  unfolding Egress.reconcile Ingress.reconcile
  calls-none egress s off = (
    tt,
    calls-All IsMaking Anything C (Egress.dispatch env k (C.serve (get_service k) s).0)
        (C.serve (get_service k) s).1 faithful (egress-none env k _ (off_read egress s off)),
  )
  calls-none ingress s off = (
    tt,
    calls-All IsMaking Anything C (Ingress.dispatch env k (C.serve (get_service k) s).0)
        (C.serve (get_service k) s).1 faithful (ingress-none env k _ (off_read ingress s off)),
  )

  kept :
      (c : Controller) (s : C.State) (w : Want)
      → want c (V.services s k) ≡ w
      → Meets w (P.pods s (pod_of c k))
      → Meets w (P.pods (run C (reconcile_by c env k) s).1 (pod_of c k))
  kept c s present e there =
      let idle =
        reconcile_by_idle C faithful P env k V c s (P.alone (pod_of c k) s there) (rw e there) in
      rw (pods-calls C P (reconcile_by c env k) s (pod_of c k) idle) there
  kept c s absent e gone =
      none-calls C P (reconcile_by c env k) s (pod_of c k) (calls-none c s e) gone
  kept c s either e _ = tt

  -- Where the pod is there, or not, as the service asks, another reconciliation, however it ends, leaves
  -- it so, also where a pod of that name is terminating.
  pub again-IsSettled :
      (c : Controller) (s : C.State)
      → IsSettled env C faithful P k V c s
      → IsSettled env C faithful P k V c (run C (reconcile_by c env k) s).1
  again-IsSettled c s settled =
      rw (services-run C V (reconcile_by c env k) s)
        (kept c s (want c (V.services s k)) refl settled)
