-- ===== src/Controllers/Overlap.antt =====
-- On internal/controller/egress_proxy_controller.go and internal/controller/ingress_proxy_controller.go.
-- What is settled stays so while both workers are at work.
use netmaker_k8s_ops.Base.{◌≢◌, sym, subst, List, [], ◌∷◌, Env, Option, Bool, ℕ, ◌+◌, ◌≤◌, arith}
use netmaker_k8s_ops.Kube.{Key}
use netmaker_k8s_ops.Kube.Client.{Client, Prog, Reply, run}
use netmaker_k8s_ops.Kube.Calls.{IsFaithful}
use netmaker_k8s_ops.Kube.Runs.{run-bind}
use netmaker_k8s_ops.Kube.Cluster.{Pods, Services}
use netmaker_k8s_ops.Kube.Beside.{Turn, race}
use netmaker_k8s_ops.Kube.Shared.{Shared, shared, shared-IsFaithful, shared_pods, shared_services}
use netmaker_k8s_ops.Kube.Within.{Within, Within-bind}
use netmaker_k8s_ops.Kube.Reports.{FineReply, FailedReply}
use netmaker_k8s_ops.Kube.Turns.{own_turns, Reports-Within, race-Within}
use netmaker_k8s_ops.Kube.Race.{race-Matches}
use netmaker_k8s_ops.Controllers.{Controller, reconcile_by, pod_of, want, Meets}
use netmaker_k8s_ops.Controllers.Errors.{most_calls, reconcile_by-Reports, reconcile_by_returns}
use netmaker_k8s_ops.Controllers.Settled.{IsSettled}
use netmaker_k8s_ops.Controllers.Schedule.{turn-IsSettled}
use netmaker_k8s_ops.Controllers.Workers.{work, keeps, keeps_own, keeps_cons, work-Aside, work-own}

-- The calls of the longest run of the worker.
abbrev pub most_work : Controller → List Key → ℕ
most_work c [] = 0
most_work c (_ ∷ queue) = most_calls c + most_work c queue

work-Within :
    (env : Env) (c : Controller) (queue : List Key) → Within (most_work c queue) (work c env queue)
work-Within env c [] = tt
work-Within env c (k ∷ queue) =
    Within-bind (most_calls c) (most_work c queue) (most_work c (k ∷ queue)) (reconcile_by c env k)
      _ (omega arith)
      (Reports-Within FineReply FailedReply (most_calls c) (reconcile_by c env k)
        (reconcile_by-Reports c env k))
      λ _. work-Within env c queue

module _ (env : Env) (C : Client) (faithful : IsFaithful C) (P : Pods C) (V : Services C)
    (c : Controller) (k : Key) where
  -- The worker alone, on any queue.
  pub work-IsSettled :
      (queue : List Key) (s : C.State)
      → IsSettled env C faithful P k V c s
      → IsSettled env C faithful P k V c (run C (work c env queue) s).1
  work-IsSettled [] s settled = settled
  work-IsSettled (j ∷ queue) s settled =
      let (reply, returns, _, _, _) = reconcile_by_returns c env C j s in
      subst (λ o. IsSettled env C faithful P k V c o.1)
        (sym (run-bind C (reconcile_by c env j) (λ _. work c env queue) reply s returns))
        (work-IsSettled queue (run C (reconcile_by c env j) s).1
          (turn-IsSettled env C faithful P V c k c j s settled))

module _ (env : Env) (C : Client) (faithful : IsFaithful C) (P : Pods C) (V : Services C)
    (c d : Controller) (apart : c ≢ d) (k : Key) (queue others : List Key) where
  -- The workers of both controllers, each with its queue.
  abbrev pub overlap : List Turn → C.State → Prog (Option Reply) × Prog (Option Reply) × C.State
  overlap turns s = race C turns (work c env queue) (work d env others) s

  abbrev own : Key → Bool
  own = keeps c (k ∷ queue)

  abbrev Other : Client
  Other = shared C faithful P V own (Option Reply)

  abbrev start : List Turn → C.State → Shared C faithful P V own (Option Reply)
  start turns s = record {
    here = s;
    others = work d env others;
    aside = work-Aside env c (k ∷ queue) d apart others;
    turns = turns;
  }

  other-IsSettled :
      (turns : List Turn) (s : C.State)
      → Meets (want c (V.services s k)) (P.pods s (pod_of c k))
      → let x = (run Other (work c env queue) (start turns s)).1 in
        Meets (want c (V.services x.here k)) (P.pods x.here (pod_of c k))
  other-IsSettled turns s settled =
      let after =
        work-IsSettled env Other (shared-IsFaithful C faithful P V own (Option Reply))
          (shared_pods C faithful P V own (Option Reply))
          (shared_services C faithful P V own (Option Reply)) c k queue (start turns s)
          (rw (keeps_own c k queue) settled) in
      rw (keeps_own c k queue) at after

  -- On a server as `IsFaithful`, `Pods` and `Services` describe it: where the proxy pod that `c` keeps
  -- for the service `k` is there unmarked, or not, as the service asks, this is so again when the worker of `c`
  -- has had enough turns to go through any queue of services, `k` too if need be, however its
  -- reconciliations ended, and whatever calls of the other worker, on any queue, came in between or after.
  pub overlap-IsSettled :
      (turns : List Turn) (s : C.State)
      → most_work c queue ≤ own_turns turns
      → Meets (want c (V.services s k)) (P.pods s (pod_of c k))
      → Meets (want c (V.services (overlap turns s).2 k)) (P.pods (overlap turns s).2 (pod_of c k))
  overlap-IsSettled turns s enough settled =
      let (last, e) =
        race-Within C turns (most_work c queue) (work c env queue) (work d env others) s
          (work-Within env c queue) enough in
      let (done, pods, services) =
        race-Matches C faithful P V own (Option Reply) (Option Reply) turns (work c env queue)
          (work d env others) (work-Aside env c (k ∷ queue) d apart others) s last
          (work-own env c own queue λ j kept. keeps_cons c k j queue kept) e in
      rw (pods (pod_of c k) (keeps_own c k queue), services) (other-IsSettled turns s settled)
