-- ===== src/Webhook/Routing.antt =====
-- On internal/webhook/mutating_webhook.go.
-- What `Handle` answers to a request, for every kind of object.
use netmaker_k8s_ops.Base.{
  String, ◌<>◌, ◌==◌, ◌≡◌, refl, Bool, true, false, ◌||◌, some, Env, Bool-cases, inl, inr,
  if◌then◌else◌,
}
use netmaker_k8s_ops.Kube.{Pod}
use netmaker_k8s_ops.Kube.Client.{Result, ok, err, Prog}
use netmaker_k8s_ops.Kube.Calls.{Always, Always-mono}
use netmaker_k8s_ops.Webhook.Injection.{Allowed}
use netmaker_k8s_ops.Webhook.Decisions.{
  AnswersPod, AnswersWorkload, handle_pod-Answers, handle_workload-Answers,
}
use netmaker_k8s_ops.Webhook.{
  Workload, Request, Decoder, Response, errored, allowed, Webhook, handle_pod, handle_workload,
  handle_deployment, handle_stateful_set, handle_daemon_set, handle_job, handle_replica_set, route,
  handle,
}

-- The answer to what decoding gave: an object that cannot be decoded is refused with 400.
abbrev pub ToPod : Result Pod → Response → Type 0
ToPod (ok pod) response = AnswersPod pod response
ToPod (err e) response = response ≡ errored 400 e

abbrev pub ToWorkload : Result Workload → Response → Type 0
ToWorkload (ok w) response = AnswersWorkload w response
ToWorkload (err e) response = response ≡ errored 400 e

abbrev pub is_workload : String → Bool
is_workload kind =
    kind == "Deployment"
    || kind == "StatefulSet"
    || kind == "DaemonSet"
    || kind == "Job"
    || kind == "ReplicaSet"

-- The answer to a request, by its kind.
abbrev pub ToRequest : Decoder → Request → Response → Type 0
ToRequest d req response =
    if req.kind == "Pod"
    then ToPod (d.pod req) response
    else if is_workload req.kind
    then ToWorkload (d.workload req) response
    else response ≡ allowed ("resource type " <> (req.kind <> " not supported"))

module _ (env : Env) (is_quantity : String → Bool) where
  pod-To :
      (client : Bool) (namespace : String) (decoded : Result Pod)
      → Always
          (Allowed namespace)
          (ToPod decoded)
          (handle_pod env is_quantity client namespace decoded)
  unfolding handle_pod
  pod-To client namespace (ok pod) = handle_pod-Answers env is_quantity client namespace pod
  pod-To client namespace (err e) = refl

  workload-To :
      (client : Bool) (message namespace : String) (decoded : Result Workload)
      → Always
          (Allowed namespace)
          (ToWorkload decoded)
          (handle_workload env is_quantity client message namespace decoded)
  unfolding handle_workload
  workload-To client message namespace (ok w) =
      handle_workload-Answers env is_quantity client namespace message w
  workload-To client message namespace (err e) = refl

  -- An answer to a workload, as an answer to a request of a kind of workload.
  of_workload :
      (d : Decoder) (req : Request) (m : Prog Response)
      → (req.kind == "Pod") ≡ false
      → is_workload req.kind ≡ true
      → Always (Allowed req.namespace) (ToWorkload (d.workload req)) m
      → Always (Allowed req.namespace) (ToRequest d req) m
  of_workload d req m p w =
      Always-mono _ (ToWorkload (d.workload req)) (ToRequest d req) m λ response h. rw (p, w) h

  route-To :
      (client : Bool) (d : Decoder) (req : Request)
      → Always (Allowed req.namespace) (ToRequest d req) (route env is_quantity client d req)
  unfolding route handle_deployment handle_stateful_set handle_daemon_set handle_job
      handle_replica_set
  route-To client d req = elim (Bool-cases (req.kind == "Pod")) [
    | inl pod ↦ rw pod (
        Always-mono _ (ToPod (d.pod req)) (ToRequest d req) _ (λ response h. rw pod h)
          (pod-To client req.namespace (d.pod req)))
    | inr p ↦ elim (Bool-cases (req.kind == "Deployment")) [
      | inl w ↦
          rw (p, w)
            (of_workload d req _ p (rw w) (workload-To client _ req.namespace (d.workload req)))
      | inr a ↦ elim (Bool-cases (req.kind == "StatefulSet")) [
        | inl w ↦
            rw (p, a, w)
              (of_workload d req _ p (rw (a, w))
                (workload-To client _ req.namespace (d.workload req)))
        | inr b ↦ elim (Bool-cases (req.kind == "DaemonSet")) [
          | inl w ↦
              rw (p, a, b, w)
                (of_workload d req _ p (rw (a, b, w))
                  (workload-To client _ req.namespace (d.workload req)))
          | inr c ↦ elim (Bool-cases (req.kind == "Job")) [
            | inl w ↦
                rw (p, a, b, c, w)
                  (of_workload d req _ p (rw (a, b, c, w))
                    (workload-To client _ req.namespace (d.workload req)))
            | inr f ↦ elim (Bool-cases (req.kind == "ReplicaSet")) [
              | inl w ↦
                  rw (p, a, b, c, f, w)
                    (of_workload d req _ p (rw (a, b, c, f, w))
                      (workload-To client _ req.namespace (d.workload req)))
              | inr g ↦ rw (p, a, b, c, f, g) (rw (p, a, b, c, f, g) refl)
            ]
          ]
        ]
      ]
    ]
  ]

  -- A webhook with a decoder answers a request by its kind: pods and the five kinds of workload
  -- as their handlers do, 400 where decoding fails, and any other kind is allowed; the calls are
  -- those of an injection in the request's namespace.
  pub handle-Answers :
      (w : Webhook) (req : Request) {d : Decoder}
      → w.decoder ≡ some d
      → Always (Allowed req.namespace) (ToRequest d req) (handle env is_quantity w req)
  unfolding handle
  handle-Answers w req {d} e = rw e (route-To w.client d req)
