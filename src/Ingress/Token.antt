-- ===== src/Ingress/Token.antt =====
-- internal/controller/ingress_proxy_controller.go: its own copy of the functions that read the
-- secret with the netclient token, compared with the egress controller's.
use mathlib.Core.Option.{get_or}
use netmaker_k8s_ops.Base.{
  String, ◌==◌, ◌≡◌, refl, Option, none, some, List, [], ◌∷◌, ◌++◌, Env, value_or, if◌then◌else◌,
}
use netmaker_k8s_ops.Kube.{Key, EnvVar, Service}
use netmaker_k8s_ops.Kube.Client.{Prog, ret, call, get_secret, ask, ◌>>=◌}
use netmaker_k8s_ops.Egress.Token.{literal, secret_ref, token_in}
use netmaker_k8s_ops.Egress.Token

module _ (env : Env) where
  unfoldable pub get_env_or_default_ingress : String → String → String
  get_env_or_default_ingress key default_value = if env key == "" then default_value else env key

  unfoldable pub get_secret_name_from_service : Service → String
  unfolding get_env_or_default_ingress
  get_secret_name_from_service service =
      value_or "netmaker.io/secret-name" service.annotations
        (get_env_or_default_ingress "NETCLIENT_SECRET_NAME" "netclient-token")

  unfoldable pub get_secret_key_from_service : Service → String
  unfolding get_env_or_default_ingress
  get_secret_key_from_service service =
      value_or "netmaker.io/secret-key" service.annotations
        (get_env_or_default_ingress "NETCLIENT_SECRET_KEY" "token")

  unfoldable pub operator_namespace : String
  unfolding get_env_or_default_ingress
  operator_namespace = get_env_or_default_ingress "OPERATOR_NAMESPACE" "netmaker-k8s-ops-system"

  unfoldable pub get_secret_namespace_from_service : Service → String
  unfolding operator_namespace
  get_secret_namespace_from_service service = operator_namespace

  abbrev pub own_secret : Service → Key
  own_secret service = record {
    name = get_secret_name_from_service service;
    namespace = service.namespace;
  }

  abbrev pub operator_secret : Service → Key
  operator_secret service = record {
    name = get_secret_name_from_service service;
    namespace = operator_namespace;
  }

  -- The second half of `getNetclientToken`, on what the first secret gave.
  unfoldable pub or_operator_token : Service → Option String → Prog String
  or_operator_token service (some token) = ret token
  or_operator_token service none = do
    fallback ← call (get_secret (operator_secret service))
    ret (get_or (token_in (get_secret_key_from_service service) fallback) "")

  unfoldable pub get_netclient_token : Service → Prog String
  unfolding or_operator_token
  get_netclient_token service = do
    own ← call (get_secret (own_secret service))
    or_operator_token service (token_in (get_secret_key_from_service service) own)

  -- The variable TOKEN that `buildNetclientEnvVars` appends.
  unfoldable pub token_variable : Service → String → Option String → EnvVar
  token_variable service token_value (some _) =
      secret_ref "TOKEN" (get_secret_name_from_service service)
        (get_secret_key_from_service service)
  token_variable service token_value none =
      if token_value == "" then literal "TOKEN" "" else literal "TOKEN" token_value

  unfoldable pub build_netclient_env_vars : Service → String → Prog (List EnvVar)
  unfolding token_variable
  build_netclient_env_vars service token_value = do
    own ← call (get_secret (own_secret service))
    let vars = literal "DAEMON" "on" ∷ literal "LOG_LEVEL" "info" ∷ []
    let found = token_in (get_secret_key_from_service service) own
    ret (vars ++ (token_variable service token_value found ∷ []))

  or_operator_token_same :
      (service : Service) (found : Option String)
      → or_operator_token service found ≡ Token.or_operator_token env service found
  unfolding or_operator_token get_secret_name_from_service get_secret_key_from_service
      operator_namespace Token.or_operator_token Token.get_secret_name_from_service
      Token.get_secret_key_from_service Token.operator_namespace
  or_operator_token_same service (some token) = refl
  or_operator_token_same service none = refl

  token_variable_same :
      (service : Service) (token : String) (found : Option String)
      → token_variable service token found ≡ Token.token_variable env service token found
  unfolding token_variable get_secret_name_from_service get_secret_key_from_service
      Token.token_variable Token.get_secret_name_from_service Token.get_secret_key_from_service
  token_variable_same service token (some _) = refl
  token_variable_same service token none = refl

  -- The two controllers make the same calls for the token and for the variables of the netclient
  -- container, and return the same.
  pub token_copies_agree :
      (service : Service) (token : String)
      → (get_netclient_token service ≡ Token.get_netclient_token env service)
        × (build_netclient_env_vars service token
            ≡ Token.build_netclient_env_vars env service token)
  unfolding get_netclient_token build_netclient_env_vars get_secret_name_from_service
      get_secret_key_from_service Token.get_netclient_token Token.build_netclient_env_vars
      Token.get_secret_name_from_service Token.get_secret_key_from_service
  token_copies_agree service token = (
    λ i. ask (get_secret (own_secret service)) (λ own.
        or_operator_token_same service (token_in (get_secret_key_from_service service) own) i),
    λ i. ask (get_secret (own_secret service)) (λ own. ret (
        literal "DAEMON" "on"
        ∷ literal "LOG_LEVEL" "info"
        ∷ token_variable_same service token (token_in (get_secret_key_from_service service) own) i
        ∷ [])),
  )
