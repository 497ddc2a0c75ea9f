-- ===== src/Proxy/Spoofing.antt =====
-- On internal/proxy/proxy.go.
-- Whose identity the API server is sent, where the caller names an address of its own choice.
use netmaker_k8s_ops.Base.{
  String, ◌==◌, ◌≡◌, ◌≢◌, refl, ◌∙◌, Bool, true, false, some, [], ◌∷◌, lookup, NodupKeys,
  join_comma, if◌then◌else◌, subst,
}
use mathlib.Core.Option.{or_else}
use netmaker_k8s_ops.Proxy.Users.{
  UserMapping, UserIpMap, get_user_mapping, ExternalApiConfig, HttpAnswer, Decoded, is_configured,
  fetch_user_mappings_from_api,
}
use netmaker_k8s_ops.Proxy.Config.{ProxyConfig, auth_mode}
use netmaker_k8s_ops.Proxy.Auth.{Headers, get_header, RestConfig, identity, is_empty}
use netmaker_k8s_ops.Proxy.Sync.{lookup-fetch, carried}
use netmaker_k8s_ops.Proxy.Routes.{Request, no_route, Outside}
use netmaker_k8s_ops.Proxy.Onward.{IsReverseProxy, ForIdentity, is_listed}
use netmaker_k8s_ops.Proxy.Identified.{sent, sent-Impersonates, bearer_sent}

-- What gin documents of `ClientIP` where no trusted proxies are set, as here: every proxy is trusted,
-- and a single address in X-Forwarded-For is the client's, whoever is connected.
abbrev pub TrustsForwarded : (String → Bool) → (String → Headers → String) → Type 0
TrustsForwarded is_address client_ip =
    (ip remote : String) (h : Headers)
    → is_address ip ≡ true
    → get_header "X-Forwarded-For" h ≡ ip
    → client_ip remote h ≡ ip

-- The identity of an address that is mapped.
identity_mapped :
    (config : ProxyConfig) (users : UserIpMap) (ip : String) (mapping : UserMapping)
    → lookup ip users ≡ some mapping
    → identity config users ip ≡ (mapping.user, mapping.groups)
unfolding identity get_user_mapping
identity_mapped config users ip mapping e = rw e refl

module _ (outside : Outside) (proxied : IsReverseProxy outside) (rest : RestConfig)
    (config : ProxyConfig) (users : UserIpMap) (request : Request) (ip : String) where
  -- The API server is sent the request with this user and these groups, if there are any.
  abbrev pub IsSentAs : UserMapping → Type 0
  IsSentAs mapping =
      (onward : Request) × (sent outside proxied rest config users request ≡ some onward)
      × (lookup "Impersonate-User" onward.headers ≡ some (mapping.user ∷ []))
      × (lookup "Impersonate-Group" onward.headers ≡ (
          if is_empty mapping.groups
          then lookup "Impersonate-Group" request.headers
          else some (join_comma mapping.groups ∷ [])))

  mapped-IsSentAs :
      (mapping : UserMapping)
      → config.mode ≡ auth_mode
      → (rest.bearer_token == "") ≡ false
      → outside.match request.method request.path ≢ no_route
      → (request.method == "OPTIONS") ≡ false
      → ForIdentity (λ name. is_listed outside name request.headers ≡ false)
      → outside.client_ip request.remote request.headers ≡ ip
      → lookup ip users ≡ some mapping
      → (mapping.user == "") ≡ false
      → IsSentAs mapping
  mapped-IsSentAs mapping mode bearer routed other unlisted address mapped named =
      let (after, goes, authorization, goes_on) =
        bearer_sent outside proxied rest config users request mode bearer routed other in
      let (method, path, (user, group, by_user, by_group)) =
        sent-Impersonates outside proxied rest config users request mode unlisted goes_on in
      let who : identity config users (outside.client_ip request.remote request.headers)
          ≡ (mapping.user, mapping.groups) =
        rw address (identity_mapped config users ip mapping mapped) in
      (
        record request { headers = outside.sent_on after },
        goes_on,
        rw (who, named) at user,
        rw who at group,
      )

  -- With a reverse proxy as `IsReverseProxy` describes it, and with gin trusting every proxy
  -- (`TrustsForwarded`): in auth mode, and with a token of the proxy's own, a request on a route, not OPTIONS, whose
  -- header X-Forwarded-For is an address that is mapped to a user, and whose header Connection lists no identity header, is sent as that user,
  -- whatever address it comes from.
  pub sent-Forwarded :
      (is_address : String → Bool) (mapping : UserMapping)
      → TrustsForwarded is_address outside.client_ip
      → config.mode ≡ auth_mode
      → (rest.bearer_token == "") ≡ false
      → outside.match request.method request.path ≢ no_route
      → (request.method == "OPTIONS") ≡ false
      → ForIdentity (λ name. is_listed outside name request.headers ≡ false)
      → is_address ip ≡ true
      → get_header "X-Forwarded-For" request.headers ≡ ip
      → lookup ip users ≡ some mapping
      → (mapping.user == "") ≡ false
      → IsSentAs mapping
  sent-Forwarded is_address mapping trusts mode bearer routed other unlisted valid forwarded mapped
        named =
      mapped-IsSentAs mapping mode bearer routed other unlisted
        (trusts ip request.remote request.headers valid forwarded) mapped named

module _ (outside : Outside) (proxied : IsReverseProxy outside) (rest : RestConfig)
    (config : ProxyConfig) (decode : String → Decoded) (api : ExternalApiConfig)
    (reply : HttpAnswer) (users : UserIpMap) (request : Request) (ip : String) where
  abbrev pub fetched : UserIpMap
  fetched = (fetch_user_mappings_from_api decode api reply users).1

  fetched_lem :
      (new : UserIpMap) (mapping : UserMapping)
      → is_configured api ≡ true
      → carried decode api reply ≡ some new
      → NodupKeys new
      → lookup ip new ≡ some mapping
      → lookup ip fetched ≡ some mapping
  unfolding or_else
  fetched_lem new mapping configured answered once there =
      lookup-fetch decode api reply ip users configured
        (λ other e. subst NodupKeys (let same : new ≡ other = cc (answered, e) in same) once)
      ∙ rw (answered, there) refl

  -- With a reverse proxy as `IsReverseProxy` describes it, in auth mode, with a token of the proxy's own,
  -- and with the Netmaker API configured: once a fetch was answered a map that has each address once and has the
  -- client's address, with a user that is not empty, a request of that client on a route, not OPTIONS, whose
  -- header Connection lists no identity header, is sent as that user, and with those groups, joined in one
  -- header, if there are any; if there are none, with the caller's own header for groups.
  pub fetch-IsSentAs :
      (new : UserIpMap) (mapping : UserMapping)
      → is_configured api ≡ true
      → carried decode api reply ≡ some new
      → NodupKeys new
      → lookup ip new ≡ some mapping
      → (mapping.user == "") ≡ false
      → config.mode ≡ auth_mode
      → (rest.bearer_token == "") ≡ false
      → outside.match request.method request.path ≢ no_route
      → (request.method == "OPTIONS") ≡ false
      → ForIdentity (λ name. is_listed outside name request.headers ≡ false)
      → outside.client_ip request.remote request.headers ≡ ip
      → IsSentAs outside proxied rest config fetched request ip mapping
  fetch-IsSentAs new mapping configured answered once there named mode bearer routed other unlisted
        address =
      let mapped = fetched_lem new mapping configured answered once there in
      mapped-IsSentAs outside proxied rest config fetched request ip mapping mode bearer routed
        other unlisted address mapped named
