-- ===== src/Proxy/Config.antt =====
-- internal/proxy/proxy.go: the configuration of the proxy, read from environment variables.
use netmaker_k8s_ops.Base.{
  String, ◌==◌, Option, none, some, List, [], ◌∷◌, map, Env, lowers_to, split_comma, trim_space, ℤ,
  pos, atoi, is_positive, seconds, if◌then◌else◌,
}
use netmaker_k8s_ops.Proxy.Users.{ExternalApiConfig}

-- `ProxyMode` is a string; these are its two constants.
abbrev pub auth_mode : String
auth_mode = "auth"

abbrev pub no_auth_mode : String
no_auth_mode = "noauth"

pub record ProxyConfig : Type 0 where
  pub mode : String
  pub impersonate_user : String
  pub impersonate_groups : List String

abbrev pub interval_of : Option ℤ → ℤ → ℤ
interval_of none default_value = default_value
interval_of (some secs) default_value = if is_positive secs then seconds secs else default_value

module _ (env : Env) where
  unfoldable pub get_nm_api_config : ExternalApiConfig
  get_nm_api_config = record {
    server_domain = env "API_SERVER_DOMAIN";
    api_token = env "API_TOKEN";
    sync_interval =
        if env "API_SYNC_INTERVAL" == ""
        then seconds (pos 30)
        else interval_of (atoi (env "API_SYNC_INTERVAL")) (seconds (pos 30));
  }

  -- The switch on `strings.ToLower(mode)`.
  unfoldable pub proxy_mode : String
  proxy_mode =
      if lowers_to (env "PROXY_MODE") "noauth"
      then no_auth_mode
      else if lowers_to (env "PROXY_MODE") "auth"
      then auth_mode
      else auth_mode

  unfoldable pub get_proxy_config : ProxyConfig
  unfolding proxy_mode
  get_proxy_config =
      if proxy_mode == auth_mode
      then record {
        mode = proxy_mode;
        impersonate_user =
            if env "PROXY_IMPERSONATE_USER" == ""
            then "wireguard-peer"
            else env "PROXY_IMPERSONATE_USER";
        impersonate_groups =
            if env "PROXY_IMPERSONATE_GROUPS" == ""
            then "system:authenticated" ∷ "wireguard-peers" ∷ []
            else map trim_space (split_comma (env "PROXY_IMPERSONATE_GROUPS"));
      }
      else record { mode = proxy_mode; impersonate_user = ""; impersonate_groups = [] }

  unfoldable pub get_env_int : String → ℤ → ℤ
  get_env_int key default_value =
      if env key == ""
      then default_value
      else elim (atoi (env key)) [ none ↦ default_value | some n ↦ n ]
