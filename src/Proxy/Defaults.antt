-- ===== src/Proxy/Defaults.antt =====
-- On internal/proxy/proxy.go.
-- The middleware under the configuration that the environment gives.
use Prim.Native.Char.{code}
use netmaker_k8s_ops.Base.{
  String, ◌<>◌, ◌==◌, ◌≡◌, refl, ◌∙◌, sym, ◌⊎◌, inl, inr, true, false, none, some, [], ◌∷◌, map,
  lookup, join_comma, Env, Bool-cases, if◌then◌else◌, split_comma, split_from, trim_space, nat_eq,
  arith,
}
use netmaker_k8s_ops.Proxy.Users.{UserIpMap, get_user_mapping}
use netmaker_k8s_ops.Proxy.Config.{auth_mode, no_auth_mode, proxy_mode, get_proxy_config}
use netmaker_k8s_ops.Proxy.Auth.{
  Headers, RestConfig, Handled, next, aborted, identity, is_empty, authenticate, auth_middleware,
}
use netmaker_k8s_ops.Proxy.Identity.{auth_middleware-Impersonates, lookup-impersonate_other}
use netmaker_k8s_ops.Proxy.Credentials.{is_refused, expected_authorization, refused_or_IsSent}

split_from-nonempty : (s part : String) → is_empty (map trim_space (split_from part s)) ≡ false
unfolding split_from
split_from-nonempty String.[] part = refl
split_from-nonempty (String.◌∷◌ c s) part = elim (Bool-cases (nat_eq (code c) b',')) [
  | inl comma ↦ rw comma refl
  | inr other ↦ rw other (split_from-nonempty s (part <> String.◌∷◌ c ""))
]

module _ (env : Env) where
  pub mode-cases : (proxy_mode env ≡ auth_mode) ⊎ (proxy_mode env ≡ no_auth_mode)
  unfolding proxy_mode
  mode-cases = ground arith

  user-set :
      ((if env "PROXY_IMPERSONATE_USER" == ""
          then "wireguard-peer"
          else env "PROXY_IMPERSONATE_USER")
        == "")
      ≡ false
  user-set = elim (Bool-cases (env "PROXY_IMPERSONATE_USER" == "")) [
    | inl unset ↦ rw unset refl
    | inr set ↦ rw set set
  ]

  groups-set :
      is_empty (
        if env "PROXY_IMPERSONATE_GROUPS" == ""
        then "system:authenticated" ∷ "wireguard-peers" ∷ []
        else map trim_space (split_comma (env "PROXY_IMPERSONATE_GROUPS")))
      ≡ false
  unfolding split_comma
  groups-set = elim (Bool-cases (env "PROXY_IMPERSONATE_GROUPS" == "")) [
    | inl unset ↦ rw unset refl
    | inr set ↦ rw set (split_from-nonempty (env "PROXY_IMPERSONATE_GROUPS") "")
  ]

  pub mode_of : (get_proxy_config env).mode ≡ proxy_mode env
  unfolding get_proxy_config
  mode_of = elim (Bool-cases (proxy_mode env == auth_mode)) [
    | inl on ↦ rw on refl
    | inr off ↦ rw off refl
  ]

  -- In auth mode the default user is not empty and there are default groups.
  defaults-set :
      (get_proxy_config env).mode ≡ auth_mode
      → (((get_proxy_config env).impersonate_user == "") ≡ false)
        × (is_empty (get_proxy_config env).impersonate_groups ≡ false)
  unfolding get_proxy_config
  defaults-set mode =
      let on : (proxy_mode env == auth_mode) ≡ true = rw (sym mode_of ∙ mode) refl in
      rw on (user-set, groups-set)

  module _ (basic_auth : String → String → String) (rest : RestConfig) (users : UserIpMap)
      (client_ip : String) (h : Headers) where
    abbrev pub served : Handled
    served = auth_middleware basic_auth rest (get_proxy_config env) users client_ip h

    -- Under a configuration read from the environment in auth mode, a request from an address
    -- that is not mapped leaves the middleware, if it does, with the configured default user and groups in
    -- its headers, whatever the caller sent.
    pub get_proxy_config-Impersonates :
        {after : Headers}
        → (get_proxy_config env).mode ≡ auth_mode
        → lookup client_ip users ≡ none
        → served ≡ next after
        → (lookup "Impersonate-User" after ≡ some ((get_proxy_config env).impersonate_user ∷ []))
          × (lookup "Impersonate-Group" after
              ≡ some (join_comma (get_proxy_config env).impersonate_groups ∷ []))
    get_proxy_config-Impersonates {after} mode unmapped e =
        let same : identity (get_proxy_config env) users client_ip
            ≡ ((get_proxy_config env).impersonate_user, (get_proxy_config env).impersonate_groups) =
          unfold identity get_user_mapping in rw unmapped in
        let (user_set, groups_set) = defaults-set mode in
        let (user, groups, _, _) =
          auth_middleware-Impersonates basic_auth rest (get_proxy_config env) users client_ip h mode
            e in
        (rw (same, user_set) at user, rw (same, groups_set) at groups)

    abbrev pub Serves : Handled → Type 0
    Serves handled =
        ((is_refused basic_auth rest h ≡ true)
          × (handled ≡ aborted 401 "Proxy authentication required"))
        ⊎ ((is_refused basic_auth rest h ≡ false)
            × ((after : Headers) × (handled ≡ next after)
                × (lookup "Authorization" after ≡ expected_authorization basic_auth rest h)
                × (lookup "User-Agent" after ≡ some ("netmaker-k8s-proxy/1.0" ∷ []))))

    authenticate-Serves :
        (k : Headers)
        → lookup "Authorization" k ≡ lookup "Authorization" h
        → Serves (authenticate basic_auth rest k)
    authenticate-Serves k e = elim (refused_or_IsSent basic_auth rest k) [
      | inl (refused, answer) ↦ inl (rw e at refused, answer)
      | inr (taken, (after, answer, sent)) ↦
          inr (rw e at taken, (after, answer, rw e at sent.0, sent.1))
    ]

    -- Under a configuration read from the environment every request either is answered 401, if
    -- the proxy has no credentials and the caller sends none, or goes on with the authorization
    -- of the proxy, or the caller's where that is used, and the agent of the proxy.
    pub get_proxy_config-Serves : Serves served
    unfolding auth_middleware
    get_proxy_config-Serves = elim mode-cases [
      | inl auth ↦ rw (mode_of ∙ auth) (
          authenticate-Serves _ (
            lookup-impersonate_other (identity (get_proxy_config env) users client_ip).0
              (identity (get_proxy_config env) users client_ip).1 client_ip h "Authorization" refl
              refl refl refl))
      | inr noauth ↦ rw (mode_of ∙ noauth) (authenticate-Serves h refl)
    ]
