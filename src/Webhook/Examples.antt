-- ===== src/Webhook/Examples.antt =====
-- The theorems on the webhook at a pod and a workload.
use netmaker_k8s_ops.Base.{
  String, ◌==◌, ◌≡◌, ◌≢◌, refl, Bool, true, none, some, [], ◌∷◌, Env, Labels, lookup, copy_into,
  length, ◌≤◌, insert,
}
use netmaker_k8s_ops.Kube.{Key, Pod, PodSpec}
use netmaker_k8s_ops.Kube.Client.{ok, returned, run, calls, ret}
use netmaker_k8s_ops.Kube.Calls.{Always}
use netmaker_k8s_ops.Kube.Memory.{Objects, memory, memory-IsFaithful}
use netmaker_k8s_ops.Webhook.Config.{
  has_netclient_label, has_netclient_sidecar, merge_annotations, get_pvc_name_from_pod,
  get_env_or_default,
}
use netmaker_k8s_ops.Webhook.Inject.{
  add_netclient_sidecar_to_pod_template, get_netclient_token_from_secret, ensure_pvc_exists,
  netclient_container, with_volumes,
}
use netmaker_k8s_ops.Webhook.Merge.{IsMap}
use netmaker_k8s_ops.Webhook.Injection.{Allowed, Injected, add_netclient_sidecar-Injected}
use netmaker_k8s_ops.Webhook.Decisions.{handle_pod_again, handle_workload_again}
use netmaker_k8s_ops.Webhook.Routing.{ToRequest, handle-Answers}
use netmaker_k8s_ops.Webhook.Returns.{handle_returns}
use netmaker_k8s_ops.Webhook.{
  PodTemplate, Workload, Request, Response, Decoder, pod_spec, workload_spec, allowed, patched,
  Webhook, new_netclient_sidecar_webhook, inject_decoder, inject_client, handle_pod,
  handle_workload, handle,
}

abbrev empty_env : Env
empty_env _ = ""

-- Only the default size is a quantity.
abbrev is_quantity : String → Bool
is_quantity s = s == "1Gi"

abbrev enabled : Labels
enabled = some (("netmaker.io/netclient", "enabled") ∷ [])

abbrev with_claim : Labels
with_claim = some (("netmaker.io/pvc-name", "data") ∷ [])

abbrev empty_spec : PodSpec
empty_spec = record { containers = []; volumes = []; untouched = "spec" }

abbrev pod : Pod
pod = record {
  name = "api";
  namespace = "shop";
  uid = "";
  labels = enabled;
  annotations = with_claim;
  owner_references = [];
  spec = empty_spec;
  phase = "";
  pod_ip = "";
}

abbrev template : PodTemplate
template = record { labels = none; annotations = with_claim; spec = empty_spec }

abbrev workload : Workload
workload = record {
  labels = enabled;
  annotations = none;
  template = template;
  untouched = "replicas";
}

abbrev cluster : Objects
cluster = record { services = []; pods = []; endpoints = []; secrets = λ _. none; claims = [] }

abbrev decoder : Decoder
decoder = record { pod = λ _. ok pod; workload = λ _. ok workload }

abbrev request : Request
request = record { kind = "Job"; namespace = "shop"; object = "{}" }

abbrev webhook : Webhook
webhook = inject_client (inject_decoder decoder new_netclient_sidecar_webhook)

add_netclient_sidecar-Injected_example : Always (Allowed "shop") (Injected empty_spec) (
    add_netclient_sidecar_to_pod_template empty_env is_quantity true empty_spec enabled with_claim
      "shop")
add_netclient_sidecar-Injected_example =
    add_netclient_sidecar-Injected empty_env is_quantity true "shop" empty_spec enabled with_claim

handle-Answers_example :
    Always
      (Allowed "shop")
      (ToRequest decoder request)
      (handle empty_env is_quantity webhook request)
handle-Answers_example = handle-Answers empty_env is_quantity webhook request refl

default_size : is_quantity (get_env_or_default empty_env "NETCLIENT_PVC_STORAGE_SIZE" "1Gi") ≡ true
unfolding get_env_or_default
default_size = refl

handle_returns_example :
    (response : Response) × ((run memory (handle empty_env is_quantity webhook request) cluster).0
      ≡ returned response)
    × (length (calls memory (handle empty_env is_quantity webhook request) cluster) ≤ 3)
handle_returns_example =
    handle_returns empty_env is_quantity default_size memory webhook request cluster

-- What the injection leads to, with a claim that is created.
abbrev patched_spec : PodSpec
patched_spec = record {
  containers = netclient_container empty_env "" ∷ [];
  volumes = with_volumes "data" [];
  untouched = "spec";
}

pod_is_patched :
    (run memory (handle_pod empty_env is_quantity true "shop" (ok pod)) cluster).0
    ≡ returned (patched "netclient sidecar added" (pod_spec patched_spec))
unfolding handle_pod has_netclient_label lookup has_netclient_sidecar
    add_netclient_sidecar_to_pod_template get_netclient_token_from_secret get_pvc_name_from_pod
    ensure_pvc_exists
pod_is_patched = refl

workload_is_patched :
    (run memory (handle_workload empty_env is_quantity true "added" "shop" (ok workload)) cluster).0
    ≡ returned
        (patched "added" (workload_spec (record template { spec = patched_spec }) "replicas"))
unfolding handle_workload merge_annotations copy_into insert has_netclient_label lookup
    has_netclient_sidecar add_netclient_sidecar_to_pod_template get_netclient_token_from_secret
    get_pvc_name_from_pod ensure_pvc_exists
workload_is_patched = refl

handle_pod_again_example :
    handle_pod empty_env is_quantity true "shop" (ok (record pod { spec = patched_spec }))
    ≡ ret (allowed "netclient sidecar already exists")
handle_pod_again_example =
    handle_pod_again empty_env is_quantity true "shop" memory pod cluster memory-IsFaithful
      pod_is_patched

handle_workload_again_example :
    handle_workload empty_env is_quantity true "added" "shop"
      (ok (record workload { template = record template { spec = patched_spec } }))
    ≡ ret (allowed "netclient sidecar already exists")
handle_workload_again_example =
    handle_workload_again empty_env is_quantity true "shop" memory "added" workload cluster
      memory-IsFaithful workload_is_patched

abbrev claim_key : Key
claim_key = record { name = "data"; namespace = "shop" }

abbrev claim_name : String
claim_name = "data"

named : claim_name ≢ ""
named e = absurd (cc e)

abbrev base : Labels
base = some (("team", "a") ∷ ("tier", "web") ∷ [])

abbrev override : Labels
override = some (("tier", "db") ∷ [])

are_maps : IsMap base × IsMap override
unfolding lookup
are_maps = ((refl, (refl, tt)), (refl, tt))
