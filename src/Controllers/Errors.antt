-- ===== src/Controllers/Errors.antt =====
-- On internal/controller/egress_proxy_controller.go and internal/controller/ingress_proxy_controller.go.
-- What a reconciliation returns, whatever the API server answers.
use netmaker_k8s_ops.Base.{
  ℕ, ◌≤◌, ◌≡◌, refl, ap, sym, ◌∙◌, List, [], ◌∷◌, map, length, Env, Option, none, some,
}
use netmaker_k8s_ops.Kube.{Key}
use netmaker_k8s_ops.Kube.Client.{GoError, Client, Reply, run, calls, returned, no_requeue}
use netmaker_k8s_ops.Kube.Reports.{
  FineReply, FailedReply, Reports, Verdict, run-Reports, failures, errors_of, root,
}
use netmaker_k8s_ops.Egress.Reports as EgressReports
use netmaker_k8s_ops.Ingress.Reports as IngressReports
use netmaker_k8s_ops.Controllers.{Controller, egress, ingress, reconcile_by}

-- The calls of the longest reconciliation.
abbrev pub most_calls : Controller → ℕ
most_calls egress = 9
most_calls ingress = 6

pub reconcile_by-Reports :
    (c : Controller) (env : Env) (k : Key)
    → Reports FineReply FailedReply (most_calls c) (reconcile_by c env k)
reconcile_by-Reports egress env k = EgressReports.reconcile-Reports env k
reconcile_by-Reports ingress env k = IngressReports.reconcile-Reports env k

verdict_lem :
    (l : List GoError) (reply : Reply)
    → Verdict FineReply FailedReply l reply
    → (reply.0 ≡ no_requeue) × (map root l ≡ map root (errors_of reply.1))
verdict_lem [] reply (result, fine) = (result, ap (λ o. map root (errors_of o)) (sym fine))
verdict_lem (e ∷ []) reply (result, fails) = (result, sym fails)
verdict_lem (e ∷ f ∷ l) reply p = absurd p

-- Whatever the server answers: a reconciliation by either controller returns after at most nine (egress) or six
-- (ingress) calls, without a panic, and asks for no requeue. It returns no error if no
-- call failed; otherwise exactly one call failed, and the error is that call's, if need be wrapped. A read that does not find its
-- object has not failed, and reading a secret never counts as failing.
pub reconcile_by_returns :
    (c : Controller) (env : Env) (C : Client) (k : Key) (s : C.State)
    → let m = reconcile_by c env k in
      (reply : Reply) × ((run C m s).0 ≡ returned reply)
      × (reply.0 ≡ no_requeue)
      × (map root (failures C m s) ≡ map root (errors_of reply.1))
      × (length (calls C m s) ≤ most_calls c)
reconcile_by_returns c env C k s =
    let m = reconcile_by c env k in
    let (reply, returns, verdict, bound) =
      run-Reports FineReply FailedReply C (most_calls c) m s (reconcile_by-Reports c env k) in
    let (result, errors) = verdict_lem (failures C m s) reply verdict in
    (reply, returns, result, errors, bound)

no_errors : (o : Option GoError) → [] ≡ map root (errors_of o) → o ≡ none
no_errors none e = refl
no_errors (some x) e = cc e

-- Where no call fails, no error is returned.
pub no_failures-returns :
    (c : Controller) (env : Env) (C : Client) (k : Key) (s : C.State)
    → failures C (reconcile_by c env k) s ≡ []
    → (run C (reconcile_by c env k) s).0 ≡ returned (no_requeue, none)
no_failures-returns c env C k s none_failed =
    let (reply, returns, result, errors, bound) = reconcile_by_returns c env C k s in
    let fine = no_errors reply.1 (ap (map root) (sym none_failed) ∙ errors) in
    cc (returns, result, fine)
