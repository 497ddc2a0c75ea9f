-- ===== src/Webhook/Returns.antt =====
-- On internal/webhook/mutating_webhook.go.
-- That the webhook answers, whatever the API server does.
use netmaker_k8s_ops.Base.{
  String, ◌==◌, ◌||◌, not, ◌≤◌, ◌≡◌, Bool, true, Option, none, some, Env, Labels, length, arith,
}
use netmaker_k8s_ops.Kube.{Pod, PodSpec, VolumeClaim}
use netmaker_k8s_ops.Kube.Client.{Result, ok, err, is_not_found, Client, run, calls, returned}
use netmaker_k8s_ops.Kube.Within.{Within, Within-if, Within-bind, run-Within}
use netmaker_k8s_ops.Webhook.Config.{
  get_env_or_default, has_netclient_label, has_netclient_sidecar, get_pvc_name_from_pod,
  merge_labels, merge_annotations,
}
use netmaker_k8s_ops.Webhook.Inject.{
  get_netclient_token_from_secret, or_create_claim, ensure_pvc_exists, usable_pvc_name,
  add_netclient_volumes, add_netclient_sidecar_to_pod_template,
}
use netmaker_k8s_ops.Webhook.{
  Request, Decoder, Workload, Response, Webhook, handle_pod, handle_workload, handle_deployment,
  handle_stateful_set, handle_daemon_set, handle_job, handle_replica_set, route, handle,
}

module _ (env : Env) (is_quantity : String → Bool)
    (good : is_quantity (get_env_or_default env "NETCLIENT_PVC_STORAGE_SIZE" "1Gi") ≡ true) where
  module _ (client : Bool) where
    token-Within :
        (labels : Labels) (namespace : String)
        → Within 1 (get_netclient_token_from_secret env is_quantity client labels namespace)
    unfolding get_netclient_token_from_secret
    token-Within labels namespace = Within-if 1 client _ _ (λ r. tt) tt

    create-Within :
        (pvc_name namespace : String) (found : Result VolumeClaim)
        → Within 1 (or_create_claim env is_quantity client pvc_name namespace found)
    unfolding or_create_claim
    create-Within pvc_name namespace (ok c) = tt
    create-Within pvc_name namespace (err e) =
        Within-if 1 (is_not_found e) _ _ (rw good (λ r. tt)) tt

    ensure-Within :
        (pvc_name namespace : String)
        → Within 2 (ensure_pvc_exists env is_quantity client pvc_name namespace)
    unfolding ensure_pvc_exists
    ensure-Within pvc_name namespace = Within-if 2 client _ _ (create-Within pvc_name namespace) tt

    claim-Within :
        (pvc_name namespace : String)
        → Within 2 (usable_pvc_name env is_quantity client pvc_name namespace)
    unfolding usable_pvc_name
    claim-Within pvc_name namespace = Within-if 2 (pvc_name == "" || not client) _ _ tt (
        Within-bind 2 0 2 (ensure_pvc_exists env is_quantity client pvc_name namespace) _
          (omega arith) (ensure-Within pvc_name namespace) (λ failed. tt))

    volumes-Within :
        (spec : PodSpec) (namespace : String) (annotations : Labels)
        → Within 2 (add_netclient_volumes env is_quantity client spec namespace annotations)
    unfolding add_netclient_volumes
    volumes-Within spec namespace annotations =
        Within-bind 2 0 2 (usable_pvc_name env is_quantity client _ namespace) _ (omega arith)
          (claim-Within (get_pvc_name_from_pod env annotations namespace) namespace) (λ name. tt)

    sidecar-Within :
        (spec : PodSpec) (labels annotations : Labels) (namespace : String)
        → Within 3 (
            add_netclient_sidecar_to_pod_template env is_quantity client spec labels annotations
              namespace)
    unfolding add_netclient_sidecar_to_pod_template
    sidecar-Within spec labels annotations namespace =
        Within-bind 1 2 3 (get_netclient_token_from_secret env is_quantity client labels namespace)
          _ (omega arith) (token-Within labels namespace)
          (λ found. volumes-Within _ namespace annotations)

    pod-Within :
        (namespace : String) (decoded : Result Pod)
        → Within 3 (handle_pod env is_quantity client namespace decoded)
    unfolding handle_pod
    pod-Within namespace (err e) = tt
    pod-Within namespace (ok pod) =
        Within-if 3 (has_netclient_label pod.labels) _ _
          (Within-if 3 (has_netclient_sidecar pod.spec.containers) _ _ tt (
            Within-bind 3 0 3
              (add_netclient_sidecar_to_pod_template env is_quantity client pod.spec pod.labels
                pod.annotations namespace)
              _ (omega arith) (sidecar-Within pod.spec pod.labels pod.annotations namespace)
              (λ spec. tt)))
          tt

    workload-Within :
        (message namespace : String) (decoded : Result Workload)
        → Within 3 (handle_workload env is_quantity client message namespace decoded)
    unfolding handle_workload
    workload-Within message namespace (err e) = tt
    workload-Within message namespace (ok w) =
        Within-if 3 (has_netclient_label w.labels || has_netclient_label w.template.labels) _ _
          (Within-if 3 (has_netclient_sidecar w.template.spec.containers) _ _ tt (
            Within-bind 3 0 3
              (add_netclient_sidecar_to_pod_template env is_quantity client w.template.spec
                (merge_labels w.labels w.template.labels)
                (merge_annotations w.annotations w.template.annotations) namespace)
              _ (omega arith) (sidecar-Within w.template.spec _ _ namespace) (λ spec. tt)))
          tt

    route-Within : (d : Decoder) (req : Request) → Within 3 (route env is_quantity client d req)
    unfolding route handle_deployment handle_stateful_set handle_daemon_set handle_job
        handle_replica_set
    route-Within d req =
        Within-if 3 (req.kind == "Pod") _ _ (pod-Within req.namespace (d.pod req)) (
          Within-if 3 (req.kind == "Deployment") _ _
            (workload-Within _ req.namespace (d.workload req))
            (Within-if 3 (req.kind == "StatefulSet") _ _
              (workload-Within _ req.namespace (d.workload req))
              (Within-if 3 (req.kind == "DaemonSet") _ _
                (workload-Within _ req.namespace (d.workload req))
                (Within-if 3 (req.kind == "Job") _ _
                  (workload-Within _ req.namespace (d.workload req))
                  (Within-if 3 (req.kind == "ReplicaSet") _ _
                    (workload-Within _ req.namespace (d.workload req)) tt)))))

  handle-Within : (w : Webhook) (req : Request) → Within 3 (handle env is_quantity w req)
  unfolding handle
  handle-Within w req = decoded w.decoder
    where
      decoded :
          (d : Option Decoder) → Within 3 (handle env is_quantity (record w { decoder = d }) req)
      decoded none = tt
      decoded (some d) = route-Within w.client d req

  -- Where the configured storage size, or "1Gi", is a quantity: the webhook answers every request after at most
  -- three calls, without a panic, whatever the API server answers.
  pub handle_returns :
      (C : Client) (w : Webhook) (req : Request) (s : C.State)
      → (response : Response) × ((run C (handle env is_quantity w req) s).0 ≡ returned response)
        × (length (calls C (handle env is_quantity w req) s) ≤ 3)
  handle_returns C w req s = run-Within C 3 (handle env is_quantity w req) s (handle-Within w req)
