-- ===== src/Webhook/Decisions.antt =====
-- On internal/webhook/mutating_webhook.go.
-- Which objects the webhook patches, and what it does with them when they come again.
use netmaker_k8s_ops.Base.{
  String, ◌≡◌, refl, Bool, true, false, ◌||◌, ◌&&◌, not, Env, arith, Bool-cases, inl, inr,
}
use netmaker_k8s_ops.Kube.{Pod, PodSpec}
use netmaker_k8s_ops.Kube.Client.{ok, ret, Client, returned, run}
use netmaker_k8s_ops.Kube.Calls.{Always, Always-bind, IsFaithful}
use netmaker_k8s_ops.Kube.Runs.{run-Always}
use netmaker_k8s_ops.Webhook.Config.{
  has_netclient_label, has_netclient_sidecar, merge_annotations, merge_labels,
}
use netmaker_k8s_ops.Webhook.Inject.{add_netclient_sidecar_to_pod_template}
use netmaker_k8s_ops.Webhook.Injection.{
  Allowed, Injected, Injected-has_sidecar, add_netclient_sidecar-Injected,
}
use netmaker_k8s_ops.Webhook.{
  PodTemplate, Workload, pod_spec, workload_spec, Response, errored, allowed, patched, handle_pod,
  handle_workload,
}

-- Which pods and workloads are to be patched.
abbrev pub wants_pod : Pod → Bool
wants_pod pod = has_netclient_label pod.labels && not (has_netclient_sidecar pod.spec.containers)

abbrev pub wants_workload : Workload → Bool
wants_workload w =
    (has_netclient_label w.labels || has_netclient_label w.template.labels)
    && not (has_netclient_sidecar w.template.spec.containers)

-- The response to a pod: it is allowed as it is, or its specification is replaced by an injected one.
abbrev pub AnswersPod : Pod → Response → Type 0
AnswersPod pod (errored _ _) = ⊥
AnswersPod pod (allowed _) = wants_pod pod ≡ false
AnswersPod pod (patched _ (pod_spec spec)) = (wants_pod pod ≡ true) × Injected pod.spec spec
AnswersPod pod (patched _ (workload_spec _ _)) = ⊥

-- The same for a workload, whose template keeps its labels and annotations.
abbrev pub AnswersWorkload : Workload → Response → Type 0
AnswersWorkload w (errored _ _) = ⊥
AnswersWorkload w (allowed _) = wants_workload w ≡ false
AnswersWorkload w (patched _ (pod_spec _)) = ⊥
AnswersWorkload w (patched _ (workload_spec template rest)) =
    (wants_workload w ≡ true)
    × Injected w.template.spec template.spec
    × (template.labels ≡ w.template.labels)
    × (template.annotations ≡ w.template.annotations)
    × (rest ≡ w.untouched)

module _ (env : Env) (is_quantity : String → Bool) (client : Bool) (namespace : String) where
  -- A decoded pod is patched exactly if it has the label and no netclient container yet; the
  -- patch is an injection, and the calls are those of an injection.
  pub handle_pod-Answers :
      (pod : Pod)
      → Always
          (Allowed namespace)
          (AnswersPod pod)
          (handle_pod env is_quantity client namespace (ok pod))
  unfolding handle_pod
  handle_pod-Answers pod = elim (Bool-cases (has_netclient_label pod.labels)) [
    | inr off ↦ rw off (ground arith)
    | inl on ↦ elim (Bool-cases (has_netclient_sidecar pod.spec.containers)) [
      | inl there ↦ rw (on, there) (ground arith)
      | inr absent ↦
          rw (on, absent)
            (Always-bind _ (Injected pod.spec) (AnswersPod pod)
              (add_netclient_sidecar_to_pod_template env is_quantity client pod.spec pod.labels
                pod.annotations namespace)
              _
              (add_netclient_sidecar-Injected env is_quantity client namespace pod.spec pod.labels
                pod.annotations)
              λ spec injected. (ground arith, injected))
    ]
  ]

  -- A decoded workload is patched exactly if it or its pod template has the label and the
  -- template has no netclient container yet; the rest of the workload is kept.
  pub handle_workload-Answers :
      (message : String) (w : Workload)
      → Always
          (Allowed namespace)
          (AnswersWorkload w)
          (handle_workload env is_quantity client message namespace (ok w))
  unfolding handle_workload
  handle_workload-Answers message w =
      elim (Bool-cases (has_netclient_label w.labels || has_netclient_label w.template.labels)) [
        | inr off ↦ rw off (ground arith)
        | inl on ↦ elim (Bool-cases (has_netclient_sidecar w.template.spec.containers)) [
          | inl there ↦ rw (on, there) (ground arith)
          | inr absent ↦
              rw (on, absent)
                (Always-bind _ (Injected w.template.spec) (AnswersWorkload w)
                  (add_netclient_sidecar_to_pod_template env is_quantity client w.template.spec
                    (merge_labels w.labels w.template.labels)
                    (merge_annotations w.annotations w.template.annotations) namespace)
                  _
                  (add_netclient_sidecar-Injected env is_quantity client namespace w.template.spec _
                    _)
                  λ spec injected. (ground arith, injected, refl, refl, refl))
        ]
      ]

  -- Where a faithful server led to a patch of a pod, handling the patched pod again allows it with
  -- no call: the container is added once.
  pub handle_pod_again :
      (C : Client) (pod : Pod) (s : C.State) {message : String} {spec : PodSpec}
      → IsFaithful C
      → (run C (handle_pod env is_quantity client namespace (ok pod)) s).0
        ≡ returned (patched message (pod_spec spec))
      → handle_pod env is_quantity client namespace (ok (record pod { spec = spec }))
        ≡ ret (allowed "netclient sidecar already exists")
  handle_pod_again C pod s {spec} faithful e =
      let (on, injected) =
        run-Always C (Allowed namespace) (AnswersPod pod) _ s _ faithful (handle_pod-Answers pod)
          e in
      let labelled : has_netclient_label pod.labels ≡ true = ground arith in
      unfold handle_pod in rw (labelled, Injected-has_sidecar injected)

  -- Where a faithful server led to a patch of a workload, handling the patched workload again
  -- allows it with no call.
  pub handle_workload_again :
      (C : Client) (message : String) (w : Workload) (s : C.State) {m rest : String}
      {template : PodTemplate}
      → IsFaithful C
      → (run C (handle_workload env is_quantity client message namespace (ok w)) s).0
        ≡ returned (patched m (workload_spec template rest))
      → handle_workload env is_quantity client message namespace
          (ok (record w { template = template; untouched = rest }))
        ≡ ret (allowed "netclient sidecar already exists")
  handle_workload_again C message w s {template} faithful e =
      let h =
        run-Always C (Allowed namespace) (AnswersWorkload w) _ s _ faithful
          (handle_workload-Answers message w) e in
      let labelled : (has_netclient_label w.labels || has_netclient_label template.labels) ≡ true =
        ground (arith, h.0, h.2) in
      unfold handle_workload in rw (labelled, Injected-has_sidecar h.1)
