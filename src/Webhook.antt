-- ===== src/Webhook.antt =====
-- internal/webhook/mutating_webhook.go: the admission handler that adds a netclient container.
pub mod Config
pub mod Inject
pub mod Merge
pub mod Injection
pub mod Claims
pub mod Decisions
pub mod Routing
pub mod Returns
mod Examples
use netmaker_k8s_ops.Base.{
  ℕ, String, ◌<>◌, ◌==◌, Bool, true, false, ◌||◌, Option, none, some, Env, Labels, if◌then◌else◌,
}
use netmaker_k8s_ops.Kube.{PodSpec, Pod}
use netmaker_k8s_ops.Kube.Client.{GoError, other, Result, ok, err, Prog, ret, ◌>>=◌}
use netmaker_k8s_ops.Webhook.Config.{
  has_netclient_label, has_netclient_sidecar, merge_annotations, merge_labels,
}
use netmaker_k8s_ops.Webhook.Inject.{add_netclient_sidecar_to_pod_template}

pub record PodTemplate : Type 0 where
  pub labels : Labels
  pub annotations : Labels
  pub spec : PodSpec

-- `Deployment`, `StatefulSet`, `DaemonSet`, `Job` or `ReplicaSet`. `untouched` is the rest of its
-- specification.
pub record Workload : Type 0 where
  pub labels : Labels
  pub annotations : Labels
  pub template : PodTemplate
  pub untouched : String

-- `admission.Request`: `object` is the raw object.
pub record Request : Type 0 where
  pub kind : String
  pub namespace : String
  pub object : String

-- `admission.Decoder`, which is not part of the program.
pub record Decoder : Type 0 where
  pub pod : Request → Result Pod
  pub workload : Request → Result Workload

-- The value of the one "replace" operation on "/spec" that a patch holds.
pub data Spec : Type 0 where
  pod_spec : PodSpec → Spec
  workload_spec : PodTemplate → String → Spec

-- `admission.Response`
pub data Response : Type 0 where
  errored : ℕ → GoError → Response
  allowed : String → Response
  patched : String → Spec → Response

-- The fields of `NetclientSidecarWebhook`; of the client it matters whether it is set.
pub record Webhook : Type 0 where
  pub decoder : Option Decoder
  pub client : Bool

abbrev pub new_netclient_sidecar_webhook : Webhook
new_netclient_sidecar_webhook = record { decoder = none; client = false }

abbrev pub inject_decoder : Decoder → Webhook → Webhook
inject_decoder d w = record w { decoder = some d }

abbrev pub inject_client : Webhook → Webhook
inject_client w = record w { client = true }

module _ (env : Env) (is_quantity : String → Bool) (client : Bool) where
  -- `handlePod`, on what decoding the request gave.
  unfoldable pub handle_pod : String → Result Pod → Prog Response
  handle_pod namespace (err e) = ret (errored 400 e)
  handle_pod namespace (ok pod) =
      if has_netclient_label pod.labels
      then if has_netclient_sidecar pod.spec.containers
        then ret (allowed "netclient sidecar already exists")
        else (do
          spec ←
              add_netclient_sidecar_to_pod_template env is_quantity client pod.spec pod.labels
                pod.annotations namespace
          ret (patched "netclient sidecar added" (pod_spec spec)))
      else ret (allowed "no netclient label")

  -- What the handlers of the five kinds of workload have in common: all but the message.
  unfoldable pub handle_workload : String → String → Result Workload → Prog Response
  handle_workload message namespace (err e) = ret (errored 400 e)
  handle_workload message namespace (ok w) =
      if has_netclient_label w.labels || has_netclient_label w.template.labels
      then if has_netclient_sidecar w.template.spec.containers
        then ret (allowed "netclient sidecar already exists")
        else (do
          spec ←
              add_netclient_sidecar_to_pod_template env is_quantity client w.template.spec
                (merge_labels w.labels w.template.labels)
                (merge_annotations w.annotations w.template.annotations) namespace
          ret (patched message (workload_spec (record w.template { spec = spec }) w.untouched)))
      else ret (allowed "no netclient label")

  unfoldable pub handle_deployment : String → Result Workload → Prog Response
  unfolding handle_workload
  handle_deployment = handle_workload "netclient sidecar added to deployment"

  unfoldable pub handle_stateful_set : String → Result Workload → Prog Response
  unfolding handle_workload
  handle_stateful_set = handle_workload "netclient sidecar added to statefulset"

  unfoldable pub handle_daemon_set : String → Result Workload → Prog Response
  unfolding handle_workload
  handle_daemon_set = handle_workload "netclient sidecar added to daemonset"

  unfoldable pub handle_job : String → Result Workload → Prog Response
  unfolding handle_workload
  handle_job = handle_workload "netclient sidecar added to job"

  unfoldable pub handle_replica_set : String → Result Workload → Prog Response
  unfolding handle_workload
  handle_replica_set = handle_workload "netclient sidecar added to replicaset"

module _ (env : Env) (is_quantity : String → Bool) where
  -- The switch of `Handle`, with a decoder.
  unfoldable pub route : Bool → Decoder → Request → Prog Response
  unfolding handle_pod handle_deployment handle_stateful_set handle_daemon_set handle_job
      handle_replica_set
  route client d req =
      if req.kind == "Pod"
      then handle_pod env is_quantity client req.namespace (d.pod req)
      else if req.kind == "Deployment"
      then handle_deployment env is_quantity client req.namespace (d.workload req)
      else if req.kind == "StatefulSet"
      then handle_stateful_set env is_quantity client req.namespace (d.workload req)
      else if req.kind == "DaemonSet"
      then handle_daemon_set env is_quantity client req.namespace (d.workload req)
      else if req.kind == "Job"
      then handle_job env is_quantity client req.namespace (d.workload req)
      else if req.kind == "ReplicaSet"
      then handle_replica_set env is_quantity client req.namespace (d.workload req)
      else ret (allowed ("resource type " <> (req.kind <> " not supported")))

  unfoldable pub handle : Webhook → Request → Prog Response
  unfolding route
  handle w req = elim w.decoder [
    | none ↦ ret (errored 500 (other "decoder not initialized"))
    | some d ↦ route w.client d req
  ]
