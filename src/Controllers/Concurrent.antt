-- ===== src/Controllers/Concurrent.antt =====
-- On internal/controller/egress_proxy_controller.go and internal/controller/ingress_proxy_controller.go.
-- The two controllers at work at the same time: the manager gives each a worker of its own, and the
-- API server meets the calls of the two in any order.
use netmaker_k8s_ops.Base.{
  ◌≡◌, ◌≢◌, refl, ◌⊎◌, inl, inr, false, List, [], ◌∷◌, Env, Option, none, some, ◌≤◌, Bool,
}
use netmaker_k8s_ops.Kube.{Key}
use netmaker_k8s_ops.Kube.Client.{Client, GoError, Prog, ret, Reply, returned, run, no_requeue}
use netmaker_k8s_ops.Kube.Calls.{IsFaithful}
use netmaker_k8s_ops.Kube.Cluster.{Pods, Services}
use netmaker_k8s_ops.Kube.Reports.{FineReply, FailedReply}
use netmaker_k8s_ops.Kube.Beside.{Turn, race}
use netmaker_k8s_ops.Kube.Shared.{Shared, shared, shared-IsFaithful, shared_pods, shared_services}
use netmaker_k8s_ops.Kube.Race.{race-Matches}
use netmaker_k8s_ops.Kube.Turns.{own_turns, Reports-Within, race-Within}
use netmaker_k8s_ops.Controllers.{Controller, reconcile_by, pod_of, want, present, Meets}
use netmaker_k8s_ops.Controllers.Errors.{most_calls, reconcile_by-Reports, reconcile_by_returns}
use netmaker_k8s_ops.Controllers.Settled.{reconcile_by-IsSettled}
use netmaker_k8s_ops.Controllers.Workers.{work, keeps, keeps_own, work-Aside, reconcile_by-own}

module _ (env : Env) (C : Client) (faithful : IsFaithful C) (P : Pods C) (V : Services C)
    (c d : Controller) (apart : c ≢ d) (k : Key) (queue : List Key) where
  -- The reconciliation of `k` by `c` beside the worker of `d`.
  abbrev pub beside : List Turn → C.State → Prog Reply × Prog (Option Reply) × C.State
  beside turns s = race C turns (reconcile_by c env k) (work d env queue) s

  abbrev own : Key → Bool
  own = keeps c (k ∷ [])

  abbrev Other : Client
  Other = shared C faithful P V own (Option Reply)

  abbrev start : List Turn → C.State → Shared C faithful P V own (Option Reply)
  start turns s = record {
    here = s;
    others = work d env queue;
    aside = work-Aside env c (k ∷ []) d apart queue;
    turns = turns;
  }

  returned-Meets :
      (turns : List Turn) (s : C.State) (reply : Reply)
      → (beside turns s).0 ≡ ret reply
      → (want c (V.services s k) ≡ present → P.terminating s (pod_of c k) ≡ false)
      → (reply.1 ≡ none)
      → Meets (want c (V.services (beside turns s).2 k)) (P.pods (beside turns s).2 (pod_of c k))
  returned-Meets turns s reply e unmarked fine =
      let (done, pods, services) =
        race-Matches C faithful P V own Reply (Option Reply) turns (reconcile_by c env k)
          (work d env queue) (work-Aside env c (k ∷ []) d apart queue) s reply
          (reconcile_by-own env own k c (keeps_own c k [])) e in
      let (other_reply, returns, result, _, _) =
        reconcile_by_returns c env Other k (start turns s) in
      let finished : (run Other (reconcile_by c env k) (start turns s)).0
          ≡ returned (no_requeue, none) =
        cc (done, returns, result, fine) in
      let settled =
        reconcile_by-IsSettled env Other (shared-IsFaithful C faithful P V own (Option Reply))
          (shared_pods C faithful P V own (Option Reply)) k
          (shared_services C faithful P V own (Option Reply)) c (start turns s)
          (rw (keeps_own c k []) unmarked) finished in
      rw (pods (pod_of c k) (keeps_own c k []), services) (rw (keeps_own c k []) at settled)

  verdict-Meets :
      (turns : List Turn) (s : C.State) (reply : Reply) (failed : Option GoError)
      → (beside turns s).0 ≡ ret reply
      → (want c (V.services s k) ≡ present → P.terminating s (pod_of c k) ≡ false)
      → reply.1 ≡ failed
      → (reply.1 ≢ none)
        ⊎ Meets (want c (V.services (beside turns s).2 k)) (P.pods (beside turns s).2 (pod_of c k))
  verdict-Meets turns s reply none e unmarked fine =
      inr (returned-Meets turns s reply e unmarked fine)
  verdict-Meets turns s reply (some x) e unmarked failed = inl λ fine. cc (fine, failed)

  -- On a server as `IsFaithful`, `Pods` and `Services` describe it, which marks a pod that is deleted
  -- and lets it terminate: while the controller `c` reconciles the service `k`, the worker of the other
  -- controller reconciles any services, `k` too if need be, and the calls of the two come in any order. If
  -- `c` has as many turns as its longest reconciliation makes calls, and no pod of that name was
  -- terminating before if the service asks for one, it returns; and then it returns an error, or the
  -- service has its proxy pod, unmarked, or has none that is unmarked, as it asks, also after the calls of
  -- the other worker that still follow.
  pub race-Meets :
      (turns : List Turn) (s : C.State)
      → most_calls c ≤ own_turns turns
      → (want c (V.services s k) ≡ present → P.terminating s (pod_of c k) ≡ false)
      → (reply : Reply) × ((beside turns s).0 ≡ ret reply)
        × ((reply.1 ≢ none)
            ⊎ Meets
                (want c (V.services (beside turns s).2 k))
                (P.pods (beside turns s).2 (pod_of c k)))
  race-Meets turns s enough unmarked =
      let (reply, e) =
        race-Within C turns (most_calls c) (reconcile_by c env k) (work d env queue) s
          (Reports-Within FineReply FailedReply (most_calls c) (reconcile_by c env k)
            (reconcile_by-Reports c env k))
          enough in
      (reply, e, verdict-Meets turns s reply reply.1 e unmarked refl)
