-- ===== src/Webhook/Inject.antt =====
-- internal/webhook/mutating_webhook.go: adding the netclient container and its volumes to a pod
-- specification.
use netmaker_k8s_ops.Base.{
  String, ◌<>◌, ◌==◌, Bool, false, ◌||◌, not, Option, none, some, List, [], ◌∷◌, ◌++◌, lookup, Env,
  Labels, if◌then◌else◌,
}
use netmaker_k8s_ops.Kube.{Key}
use netmaker_k8s_ops.Kube.{
  Container, EnvVar, Probe, Volume, empty_dir, persistent_volume_claim, PodSpec, Secret,
  VolumeClaim,
}
use netmaker_k8s_ops.Kube.Client.{
  GoError, other, wrapped, is_not_found, wrap_error, Result, ok, err, Prog, ret, panic, call,
  get_secret, get_volume_claim, create_volume_claim, ◌>>=◌,
}
use netmaker_k8s_ops.Egress.Token.{literal}
use netmaker_k8s_ops.Egress.Build.{resources, netclient_mounts}
use netmaker_k8s_ops.Webhook.Config.{
  get_env_or_default, get_secret_name_from_pod, get_secret_key_from_pod,
  get_secret_namespace_from_pod, get_pvc_name_from_pod,
}

-- `string(tokenBytes)`, or the error of a read that failed or found no such key.
unfoldable pub token_of : String → Key → Result Secret → Result String
token_of key k (err e) = err e
token_of key k (ok secret) = elim (lookup key secret.entries) [
  | none ↦ err (
      other (
        "key "
        <> (key <> (" not found in secret " <> (k.name <> (" in namespace " <> k.namespace))))))
  | some token ↦ ok token
]

unfoldable pub has_volume : String → List Volume → Bool
has_volume name [] = false
has_volume name (v ∷ vs) = v.name == name || has_volume name vs

unfoldable pub etc_volume : String → Volume
etc_volume pvc_name = record {
  name = "etc-netclient";
  source = if pvc_name == "" then empty_dir "" else persistent_volume_claim pvc_name false;
}

abbrev pub log_volume : Volume
log_volume = record { name = "log-netclient"; source = empty_dir "Memory" }

-- Both tests are made on the volumes that were there before.
unfoldable pub with_volumes : String → List Volume → List Volume
unfolding has_volume etc_volume
with_volumes pvc_name volumes =
    volumes
    ++ ((if has_volume "etc-netclient" volumes then [] else etc_volume pvc_name ∷ [])
        ++ (if has_volume "log-netclient" volumes then [] else log_volume ∷ []))

abbrev pub interface_probe : Probe
interface_probe = record {
  command = "/bin/sh" ∷ "-c" ∷ "ip link show netmaker && ip addr show netmaker | grep inet" ∷ [];
  initial_delay_seconds = 10;
  period_seconds = 5;
  timeout_seconds = 3;
  failure_threshold = 12;
}

abbrev pub optional_variable : String → String → List EnvVar
optional_variable name value = if value == "" then [] else literal name value ∷ []

module _ (env : Env) where
  -- The claim that is created where there is none.
  unfoldable pub new_volume_claim : String → String → VolumeClaim
  new_volume_claim pvc_name namespace =
      let storage_class = get_env_or_default env "NETCLIENT_PVC_STORAGE_CLASS" "" in
      record {
        name = pvc_name;
        namespace = namespace;
        labels = some (
            ("app.kubernetes.io/component", "netclient")
            ∷ ("app.kubernetes.io/managed-by", "netmaker-k8s-ops-webhook")
            ∷ []);
        access_modes = "ReadWriteOnce" ∷ [];
        storage = get_env_or_default env "NETCLIENT_PVC_STORAGE_SIZE" "1Gi";
        storage_class_name = if storage_class == "" then none else some storage_class;
      }

  unfoldable pub netclient_container : String → Container
  netclient_container token = record {
    name = "netclient";
    image = get_env_or_default env "NETCLIENT_IMAGE" "gravitl/netclient:v1.4.0";
    command = [];
    ports = [];
    env =
        literal "TOKEN" token
        ∷ literal "DAEMON" "on"
        ∷ literal "LOG_LEVEL" "info"
        ∷ (optional_variable "SERVER" (get_env_or_default env "NETCLIENT_SERVER" "")
            ++ optional_variable "NETWORK" (get_env_or_default env "NETCLIENT_NETWORK" ""));
    volume_mounts = netclient_mounts;
    capabilities = "NET_ADMIN" ∷ "SYS_MODULE" ∷ [];
    resources = resources "200m" "128Mi" "50m" "64Mi";
    readiness_probe = some interface_probe;
  }

  -- The token to use, from what the secret gave.
  abbrev pub or_env_token : Result String → String
  or_env_token (ok token) = token
  or_env_token (err _) = get_env_or_default env "NETCLIENT_TOKEN" ""

-- The secret to read for a pod with these labels.
abbrev pub secret_of : Env → Labels → String → Key
secret_of env labels namespace = record {
  name = get_secret_name_from_pod env labels;
  namespace = get_secret_namespace_from_pod env labels namespace;
}

-- The name of the claim after ensuring it: none after a failure.
abbrev pub name_unless : String → Option GoError → String
name_unless pvc_name none = pvc_name
name_unless pvc_name (some _) = ""

-- `client` says whether `w.client` is set. `is_quantity` are the texts that `resource.MustParse`
-- accepts; at any other it panics.
module _ (env : Env) (is_quantity : String → Bool) (client : Bool) where
  unfoldable pub get_netclient_token_from_secret : Labels → String → Prog (Result String)
  unfolding token_of
  get_netclient_token_from_secret labels namespace =
      if client
      then (do
        found ← call (get_secret (secret_of env labels namespace))
        ret (token_of (get_secret_key_from_pod env labels) (secret_of env labels namespace) found))
      else ret (err (other "client not initialized"))

  -- The rest of `ensurePVCExists`, on what reading the claim returned.
  unfoldable pub or_create_claim : String → String → Result VolumeClaim → Prog (Option GoError)
  or_create_claim pvc_name namespace (ok _) = ret none
  or_create_claim pvc_name namespace (err e) =
      if is_not_found e
      then if is_quantity (get_env_or_default env "NETCLIENT_PVC_STORAGE_SIZE" "1Gi")
        then (do
          failed ← call (create_volume_claim (new_volume_claim env pvc_name namespace))
          ret (
              wrap_error ("failed to create PVC " <> (pvc_name <> (" in namespace " <> namespace)))
                failed))
        else panic "cannot parse quantity"
      else ret (some (wrapped "failed to check PVC existence" e))

  unfoldable pub ensure_pvc_exists : String → String → Prog (Option GoError)
  unfolding or_create_claim
  ensure_pvc_exists pvc_name namespace =
      if client
      then (do
        found ← call (get_volume_claim (record { name = pvc_name; namespace = namespace }))
        or_create_claim pvc_name namespace found)
      else ret (some (other "client not initialized"))

  -- The name of the claim to mount, "" after a failure to ensure it.
  unfoldable pub usable_pvc_name : String → String → Prog String
  usable_pvc_name pvc_name namespace =
      if pvc_name == "" || not client
      then ret pvc_name
      else (do failed ← ensure_pvc_exists pvc_name namespace; ret (name_unless pvc_name failed))

  unfoldable pub add_netclient_volumes : PodSpec → String → Labels → Prog PodSpec
  unfolding usable_pvc_name with_volumes
  add_netclient_volumes spec namespace annotations = do
    pvc_name ← usable_pvc_name (get_pvc_name_from_pod env annotations namespace) namespace
    ret (record spec { volumes = with_volumes pvc_name spec.volumes })

  unfoldable pub add_netclient_sidecar_to_pod_template :
      PodSpec → Labels → Labels → String → Prog PodSpec
  unfolding add_netclient_volumes netclient_container
  add_netclient_sidecar_to_pod_template spec labels annotations namespace = do
    found ← get_netclient_token_from_secret labels namespace
    let containers = spec.containers ++ (netclient_container env (or_env_token env found) ∷ [])
    add_netclient_volumes (record spec { containers = containers }) namespace annotations
