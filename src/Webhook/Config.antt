-- ===== src/Webhook/Config.antt =====
-- internal/webhook/mutating_webhook.go: labels, annotations and environment variables.
use netmaker_k8s_ops.Base.{
  String, ◌<>◌, ◌==◌, Bool, false, ◌||◌, none, some, List, [], ◌∷◌, Dict, copy_into, Env, Labels,
  find, value_or, if◌then◌else◌,
}
use netmaker_k8s_ops.Kube.{Container}

unfoldable pub has_netclient_label : Labels → Bool
has_netclient_label labels = elim (find "netmaker.io/netclient" labels) [
  | none ↦ false
  | some value ↦ value == "enabled"
]

unfoldable pub has_netclient_sidecar : List Container → Bool
has_netclient_sidecar [] = false
has_netclient_sidecar (c ∷ cs) = c.name == "netclient" || has_netclient_sidecar cs

-- The entries that a `range` goes through.
abbrev pub entries : Labels → Dict String
entries none = []
entries (some m) = m

unfoldable pub merge_annotations : Labels → Labels → Labels
merge_annotations base override = some (copy_into (copy_into [] (entries base)) (entries override))

unfoldable pub merge_labels : Labels → Labels → Labels
merge_labels base override = some (copy_into (copy_into [] (entries base)) (entries override))

module _ (env : Env) where
  unfoldable pub get_env_or_default : String → String → String
  get_env_or_default key default_value = if env key == "" then default_value else env key

  -- The labels are those of the pod that is built for the lookup.
  unfoldable pub get_secret_name_from_pod : Labels → String
  unfolding get_env_or_default
  get_secret_name_from_pod labels =
      value_or "netmaker.io/secret-name" labels
        (get_env_or_default "NETCLIENT_SECRET_NAME" "netclient-token")

  unfoldable pub get_secret_key_from_pod : Labels → String
  unfolding get_env_or_default
  get_secret_key_from_pod labels =
      value_or "netmaker.io/secret-key" labels (get_env_or_default "NETCLIENT_SECRET_KEY" "token")

  unfoldable pub get_secret_namespace_from_pod : Labels → String → String
  get_secret_namespace_from_pod labels namespace =
      value_or "netmaker.io/secret-namespace" labels namespace

  -- "" stands for no claim.
  unfoldable pub get_pvc_name_from_pod : Labels → String → String
  unfolding get_env_or_default
  get_pvc_name_from_pod annotations namespace = value_or "netmaker.io/pvc-name" annotations (
      value_or ("netmaker.io/pvc-name." <> namespace) annotations
        (get_env_or_default "NETCLIENT_PVC_NAME" ""))
