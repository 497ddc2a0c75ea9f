-- ===== src/Proxy/Auth.antt =====
-- internal/proxy/proxy.go: the middleware that sets the identity of a request. Headers are a map
-- from canonical names to their values.
use netmaker_k8s_ops.Base.{
  ℕ, String, ◌<>◌, ◌==◌, Bool, true, false, ◌&&◌, not, Option, some, List, [], ◌∷◌, Dict, lookup,
  insert, join_comma, if◌then◌else◌,
}
use netmaker_k8s_ops.Proxy.Users.{UserIpMap, get_user_mapping}
use netmaker_k8s_ops.Proxy.Config.{ProxyConfig, auth_mode, no_auth_mode}

abbrev pub Headers : Type 0
Headers = Dict (List String)

-- `Header.Set`: the one value replaces all that were there.
unfoldable pub set_header : String → String → Headers → Headers
set_header name value h = insert name (value ∷ []) h

abbrev pub first : Option (List String) → String
first (some (value ∷ _)) = value
first _ = ""

-- `Header.Get`
abbrev pub get_header : String → Headers → String
get_header name h = first (lookup name h)

-- The fields of `rest.Config` that the middleware reads.
pub record RestConfig : Type 0 where
  pub bearer_token : String
  pub cert_file : String
  pub key_file : String
  pub username : String
  pub password : String

-- Either the request goes on with these headers, or it is answered with a status and an error.
pub data Handled : Type 0 where
  next : Headers → Handled
  aborted : ℕ → String → Handled

-- The user and the groups to impersonate: the mapped ones, or the defaults.
unfoldable pub identity : ProxyConfig → UserIpMap → String → String × List String
identity config users client_ip =
    let (user, groups, found) = get_user_mapping client_ip users in
    if found then (user, groups) else (config.impersonate_user, config.impersonate_groups)

abbrev pub is_empty : List String → Bool
is_empty [] = true
is_empty (_ ∷ _) = false

-- The headers that auth mode sets.
unfoldable pub impersonate : String × List String → String → Headers → Headers
unfolding set_header
impersonate (user, groups) client_ip h =
    let with_user = if user == "" then h else set_header "Impersonate-User" user h in
    let with_group =
      if is_empty groups
      then with_user
      else set_header "Impersonate-Group" (join_comma groups) with_user in
    set_header "Impersonate-Extra-Original-Group" "wireguard-peers"
      (set_header "Impersonate-Extra-Original-User" client_ip with_group)

abbrev pub proceed : Headers → Handled
proceed h = next (set_header "User-Agent" "netmaker-k8s-proxy/1.0" h)

-- `basic_auth` is the value that `SetBasicAuth` writes: "Basic " and the encoded pair.
module _ (basic_auth : String → String → String) (config : RestConfig) where
  -- The second half: how the proxy itself is known to the API server.
  unfoldable pub authenticate : Headers → Handled
  unfolding set_header
  authenticate h =
      if not (config.bearer_token == "")
      then proceed (set_header "Authorization" ("Bearer " <> config.bearer_token) h)
      else if not (config.cert_file == "") && not (config.key_file == "")
      then proceed h
      else if not (config.username == "") && not (config.password == "")
      then proceed (set_header "Authorization" (basic_auth config.username config.password) h)
      else if get_header "Authorization" h == ""
      then aborted 401 "Proxy authentication required"
      else proceed h

  unfoldable pub auth_middleware : ProxyConfig → UserIpMap → String → Headers → Handled
  unfolding identity impersonate authenticate
  auth_middleware proxy_config users client_ip h =
      if proxy_config.mode == no_auth_mode
      then authenticate h
      else if proxy_config.mode == auth_mode
      then authenticate (impersonate (identity proxy_config users client_ip) client_ip h)
      else aborted 500 "Invalid proxy configuration"
