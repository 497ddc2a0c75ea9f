-- ===== src/Proxy/Identity.antt =====
-- On internal/proxy/proxy.go.
-- Who a proxied request is, for the Kubernetes API server.
use netmaker_k8s_ops.Base.{
  String, ◌<>◌, ◌==◌, ◌≡◌, ap, ◌∙◌, refl, Bool, true, false, some, List, [], ◌∷◌, lookup,
  join_comma, if◌then◌else◌,
}
use netmaker_k8s_ops.Proxy.Users.{UserIpMap}
use netmaker_k8s_ops.Proxy.Config.{ProxyConfig, auth_mode, no_auth_mode}
use netmaker_k8s_ops.Proxy.Credentials.{lookup-set_header, IsOwn, authenticate-lookup, bearer-next}
use netmaker_k8s_ops.Proxy.Auth.{
  Headers, set_header, RestConfig, Handled, next, identity, is_empty, impersonate, authenticate,
  auth_middleware,
}

-- Which user, groups and address a request is sent with in auth mode.
module _ (user : String) (groups : List String) (client_ip : String) (h : Headers) where
  set_unless :
      (b : Bool) (name j value : String) (before : Headers)
      → lookup j (if b then before else set_header name value before) ≡ (
          if b then lookup j before else (if name == j then some (value ∷ []) else lookup j before))
  set_unless true name j value before = refl
  set_unless false name j value before = lookup-set_header name j value before

  abbrev with_user : Headers
  with_user = if user == "" then h else set_header "Impersonate-User" user h

  abbrev pub Impersonates : Headers → Type 0
  Impersonates after =
      (lookup "Impersonate-User" after
        ≡ (if user == "" then lookup "Impersonate-User" h else some (user ∷ [])))
      × (lookup "Impersonate-Group" after ≡ (
          if is_empty groups then lookup "Impersonate-Group" h else some (join_comma groups ∷ [])))
      × (lookup "Impersonate-Extra-Original-User" after ≡ some (client_ip ∷ []))
      × (lookup "Impersonate-Extra-Original-Group" after ≡ some ("wireguard-peers" ∷ []))

  lookup-impersonate :
      (name : String)
      → ("Impersonate-Extra-Original-Group" == name) ≡ false
      → ("Impersonate-Extra-Original-User" == name) ≡ false
      → lookup name (impersonate (user, groups) client_ip h) ≡ (
          if is_empty groups
          then lookup name with_user
          else (if "Impersonate-Group" == name
              then some (join_comma groups ∷ [])
              else lookup name with_user))
  unfolding impersonate
  lookup-impersonate name g u =
      rw (lookup-set_header, g, lookup-set_header, u)
        (set_unless (is_empty groups) "Impersonate-Group" name (join_comma groups) with_user)

  if_same {ℓ} : {A : Type ℓ} (b : Bool) (x : A) → (if b then x else x) ≡ x
  if_same true x = refl
  if_same false x = refl

  -- A header that auth mode does not set stays.
  pub lookup-impersonate_other :
      (name : String)
      → ("Impersonate-Extra-Original-Group" == name) ≡ false
      → ("Impersonate-Extra-Original-User" == name) ≡ false
      → ("Impersonate-Group" == name) ≡ false
      → ("Impersonate-User" == name) ≡ false
      → lookup name (impersonate (user, groups) client_ip h) ≡ lookup name h
  lookup-impersonate_other name g u group by_user =
      lookup-impersonate name g u ∙ rw (group, if_same, set_unless, by_user, if_same)

  impersonate-Impersonates : Impersonates (impersonate (user, groups) client_ip h)
  impersonate-Impersonates = (
    lookup-impersonate "Impersonate-User" refl refl
        ∙ if_same (is_empty groups) _
        ∙ set_unless (user == "") "Impersonate-User" "Impersonate-User" user h,
    lookup-impersonate "Impersonate-Group" refl refl
        ∙ ap (λ x. if is_empty groups then x else some (join_comma groups ∷ []))
            (set_unless (user == "") "Impersonate-User" "Impersonate-Group" user h
              ∙ if_same (user == "") _),
    unfold impersonate in rw (lookup-set_header, lookup-set_header) refl,
    unfold impersonate in rw lookup-set_header refl,
  )

module _ (basic_auth : String → String → String) (rest : RestConfig) (config : ProxyConfig)
    (users : UserIpMap) (client_ip : String) (h : Headers) where
  abbrev handled : Handled
  handled = auth_middleware basic_auth rest config users client_ip h

  -- In auth mode a request that goes on carries the user and the groups of its address, mapped or
  -- by default, and the address; where the user is empty or there are no groups, that header
  -- stays what the caller sent.
  pub auth_middleware-Impersonates :
      {after : Headers}
      → config.mode ≡ auth_mode
      → handled ≡ next after
      → let (user, groups) = identity config users client_ip in
        Impersonates user groups client_ip h after
  unfolding auth_middleware
  auth_middleware-Impersonates {after} mode e =
      let (user, groups) = identity config users client_ip in
      let sent : authenticate basic_auth rest (impersonate (user, groups) client_ip h)
          ≡ next after =
        (rw mode at e) in
      let same : (name : String)
          → IsOwn name
          → lookup name after ≡ lookup name (impersonate (user, groups) client_ip h) =
        λ name own. authenticate-lookup basic_auth rest name _ after own sent in
      let (u, g, by_user, by_group) = impersonate-Impersonates user groups client_ip h in
      (
        same "Impersonate-User" (refl, refl) ∙ u,
        same "Impersonate-Group" (refl, refl) ∙ g,
        same "Impersonate-Extra-Original-User" (refl, refl) ∙ by_user,
        same "Impersonate-Extra-Original-Group" (refl, refl) ∙ by_group,
      )

  -- In noauth mode a request that goes on keeps every header of the caller but its authorization
  -- and its agent, so also those that ask to impersonate.
  pub auth_middleware-lookup :
      {after : Headers} (name : String)
      → config.mode ≡ no_auth_mode
      → handled ≡ next after
      → IsOwn name
      → lookup name after ≡ lookup name h
  unfolding auth_middleware
  auth_middleware-lookup {after} name mode e own =
      authenticate-lookup basic_auth rest name h after own (rw mode at e)

  -- In auth mode a request that goes on keeps every header of the caller that the middleware does
  -- not write.
  pub auth_middleware-lookup_other :
      {after : Headers} (name : String)
      → config.mode ≡ auth_mode
      → handled ≡ next after
      → IsOwn name
      → ("Impersonate-Extra-Original-Group" == name) ≡ false
      → ("Impersonate-Extra-Original-User" == name) ≡ false
      → ("Impersonate-Group" == name) ≡ false
      → ("Impersonate-User" == name) ≡ false
      → lookup name after ≡ lookup name h
  unfolding auth_middleware
  auth_middleware-lookup_other {after} name mode e own by_group by_user group user =
      let (who, groups) = identity config users client_ip in
      authenticate-lookup basic_auth rest name (impersonate (who, groups) client_ip h) after own
        (rw mode at e)
      ∙ lookup-impersonate_other who groups client_ip h name by_group by_user group user

  -- A token of the proxy's own is what a request in auth mode goes on with.
  pub auth_middleware-Bearer :
      config.mode ≡ auth_mode
      → (rest.bearer_token == "") ≡ false
      → (after : Headers) × (handled ≡ next after)
        × (lookup "Authorization" after ≡ some (("Bearer " <> rest.bearer_token) ∷ []))
  unfolding auth_middleware
  auth_middleware-Bearer mode bearer =
      let (who, groups) = identity config users client_ip in
      rw mode (bearer-next basic_auth rest (impersonate (who, groups) client_ip h) bearer)
