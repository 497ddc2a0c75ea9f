-- ===== src/Controllers/Schedule.antt =====
-- On internal/controller/egress_proxy_controller.go and internal/controller/ingress_proxy_controller.go.
-- Runs of both controllers on all services, with what users and other programs do in between.
use netmaker_k8s_ops.Base.{◌≡◌, ◌≢◌, subst, false, Env, inl, inr, []}
use netmaker_k8s_ops.Kube.{Key}
use netmaker_k8s_ops.Kube.Client.{Client, run}
use netmaker_k8s_ops.Kube.Calls.{IsFaithful}
use netmaker_k8s_ops.Kube.Cluster.{Pods, Services, services-run}
use netmaker_k8s_ops.Kube.Reports.{failures}
use netmaker_k8s_ops.Controllers.{Controller, reconcile_by, pod_of, want, present, Meets}
use netmaker_k8s_ops.Controllers.Apart.{reconcile_by_frame, same_turn}
use netmaker_k8s_ops.Controllers.Settled.{after, IsSettled, reconcile_by-IsSettled}
use netmaker_k8s_ops.Controllers.Errors.{no_failures-returns}
use netmaker_k8s_ops.Controllers.Kept.{again-IsSettled}

module _ (env : Env) (C : Client) (faithful : IsFaithful C) (P : Pods C) (V : Services C) where
  module _ (c : Controller) (k : Key) where
    -- What happens to a cluster: a reconciliation of any service by either controller, whatever it
    -- returns, or anything else that leaves the service `k` and the pod that `c` keeps for it.
    pub data Step : C.State → C.State → Type 0 where
      turn : (d : Controller) (j : Key) (s : C.State) → Step s (run C (reconcile_by d env j) s).1
      outside :
          (s t : C.State)
          → V.services t k ≡ V.services s k
          → P.pods t (pod_of c k) ≡ P.pods s (pod_of c k)
          → Step s t

    pub data Steps : C.State → C.State → Type 0 where
      stay : (s : C.State) → Steps s s
      go : (s t u : C.State) → Step s t → Steps t u → Steps s u

    abbrev Goal : C.State → Type 0
    Goal s = IsSettled env C faithful P k V c s

    aside :
        (d : Controller) (j : Key) (s : C.State)
        → pod_of c k ≢ pod_of d j
        → Goal s
        → Goal (run C (reconcile_by d env j) s).1
    aside d j s apart settled =
        rw
          (
            services-run C V (reconcile_by d env j) s,
            reconcile_by_frame env C P d j (pod_of c k) s faithful apart,
          )
          settled

    pub turn-IsSettled :
        (d : Controller) (j : Key) (s : C.State) → Goal s → Goal (run C (reconcile_by d env j) s).1
    turn-IsSettled d j s settled = elim (same_turn c d k j) [
      | inl (same_c, same_k) ↦
          subst (λ x. Goal (run C (reconcile_by x env j) s).1) same_c
            (subst (λ x. Goal (run C (reconcile_by c env x) s).1) same_k
              (again-IsSettled env C faithful P V k c s settled))
      | inr apart ↦ aside d j s apart settled
    ]

    Step-IsSettled : {s t : C.State} → Step s t → Goal s → Goal t
    Step-IsSettled (turn d j s) settled = turn-IsSettled d j s settled
    Step-IsSettled (outside s t service pod) settled = rw (service, pod) settled

    pub Steps-IsSettled : {s t : C.State} → Steps s t → Goal s → Goal t
    Steps-IsSettled (stay s) settled = settled
    Steps-IsSettled (go s t u first rest) settled =
        Steps-IsSettled rest (Step-IsSettled first settled)

    -- On a server as `IsFaithful`, `Pods` and `Services` describe it, which marks a pod that is deleted
    -- and lets it terminate: from the first reconciliation of `k` by the controller `c` in which no call
    -- fails, and before which no pod of that name was terminating if the service asks for one, the
    -- service has its proxy pod, unmarked, or has none that is unmarked, as it asks, and this stays so for
    -- as long as nothing but reconciliations changes that service or that pod: reconciliations of every
    -- service by either controller, in any order and however they end, do not undo it.
    pub schedule-IsSettled :
        (s : C.State) {t : C.State}
        → failures C (reconcile_by c env k) s ≡ []
        → (want c (V.services s k) ≡ present → P.terminating s (pod_of c k) ≡ false)
        → Steps (after env C faithful P k c s) t
        → Meets (want c (V.services t k)) (P.pods t (pod_of c k))
    schedule-IsSettled s fine unmarked steps = Steps-IsSettled steps (
        reconcile_by-IsSettled env C faithful P k V c s unmarked
          (no_failures-returns c env C k s fine))
