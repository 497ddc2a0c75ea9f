-- ===== src/Egress/Token.antt =====
-- internal/controller/egress_proxy_controller.go: the secret with the netclient token, and the
-- environment of the netclient container.
use mathlib.Core.Option.{get_or}
use netmaker_k8s_ops.Base.{
  String, ◌==◌, Option, none, some, List, [], ◌∷◌, ◌++◌, lookup, Env, value_or, if◌then◌else◌,
}
use netmaker_k8s_ops.Kube.{Key, EnvVar, Service, Secret}
use netmaker_k8s_ops.Kube.Client.{Result, ok, err, Prog, ret, call, get_secret, ◌>>=◌}

-- `secret.Data[secretKey]`, if the secret was read.
abbrev pub token_in : String → Result Secret → Option String
token_in key (ok secret) = lookup key secret.entries
token_in key (err _) = none

abbrev pub literal : String → String → EnvVar
literal name value = record { name = name; value = value; value_from = none }

abbrev pub secret_ref : String → String → String → EnvVar
secret_ref variable name key = record {
  name = variable;
  value = "";
  value_from = some (record { name = name; key = key });
}

module _ (env : Env) where
  unfoldable pub get_env_or_default : String → String → String
  get_env_or_default key default_value = if env key == "" then default_value else env key

  unfoldable pub get_secret_name_from_service : Service → String
  unfolding get_env_or_default
  get_secret_name_from_service service =
      value_or "netmaker.io/secret-name" service.annotations
        (get_env_or_default "NETCLIENT_SECRET_NAME" "netclient-token")

  unfoldable pub get_secret_key_from_service : Service → String
  unfolding get_env_or_default
  get_secret_key_from_service service =
      value_or "netmaker.io/secret-key" service.annotations
        (get_env_or_default "NETCLIENT_SECRET_KEY" "token")

  unfoldable pub operator_namespace : String
  unfolding get_env_or_default
  operator_namespace = get_env_or_default "OPERATOR_NAMESPACE" "netmaker-k8s-ops-system"

  unfoldable pub get_secret_namespace_from_service : Service → String
  unfolding operator_namespace
  get_secret_namespace_from_service service = operator_namespace

  -- The secret's name in the namespace of the service, and in that of the operator.
  abbrev pub own_secret : Service → Key
  own_secret service = record {
    name = get_secret_name_from_service service;
    namespace = service.namespace;
  }

  abbrev pub operator_secret : Service → Key
  operator_secret service = record {
    name = get_secret_name_from_service service;
    namespace = operator_namespace;
  }

  -- The second half of `getNetclientToken`, on what the first secret gave.
  unfoldable pub or_operator_token : Service → Option String → Prog String
  or_operator_token service (some token) = ret token
  or_operator_token service none = do
    fallback ← call (get_secret (operator_secret service))
    ret (get_or (token_in (get_secret_key_from_service service) fallback) "")

  unfoldable pub get_netclient_token : Service → Prog String
  unfolding or_operator_token
  get_netclient_token service = do
    own ← call (get_secret (own_secret service))
    or_operator_token service (token_in (get_secret_key_from_service service) own)

  -- The variable TOKEN that `buildNetclientEnvVars` appends: a reference to the secret of the
  -- service's namespace if that has the key, and the value itself if not.
  unfoldable pub token_variable : Service → String → Option String → EnvVar
  token_variable service token_value (some _) =
      secret_ref "TOKEN" (get_secret_name_from_service service)
        (get_secret_key_from_service service)
  token_variable service token_value none =
      if token_value == "" then literal "TOKEN" "" else literal "TOKEN" token_value

  unfoldable pub build_netclient_env_vars : Service → String → Prog (List EnvVar)
  unfolding token_variable
  build_netclient_env_vars service token_value = do
    own ← call (get_secret (own_secret service))
    let vars = literal "DAEMON" "on" ∷ literal "LOG_LEVEL" "info" ∷ []
    let found = token_in (get_secret_key_from_service service) own
    ret (vars ++ (token_variable service token_value found ∷ []))
