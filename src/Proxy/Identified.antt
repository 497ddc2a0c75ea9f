-- ===== src/Proxy/Identified.antt =====
-- On internal/proxy/proxy.go.
-- Under which identity the Kubernetes API server is sent a request.
use netmaker_k8s_ops.Base.{
  String, ◌==◌, ◌≡◌, ◌≢◌, ◌<>◌, refl, ap, ◌∙◌, true, false, Option, none, some, [], ◌∷◌, lookup,
  if◌then◌else◌,
}
use netmaker_k8s_ops.Proxy.Users.{UserIpMap}
use netmaker_k8s_ops.Proxy.Config.{ProxyConfig, auth_mode, no_auth_mode}
use netmaker_k8s_ops.Proxy.Auth.{Headers, RestConfig, Handled, next, identity, auth_middleware}
use netmaker_k8s_ops.Proxy.Identity.{
  Impersonates, auth_middleware-lookup, auth_middleware-Impersonates, auth_middleware-lookup_other,
  auth_middleware-Bearer,
}
use netmaker_k8s_ops.Proxy.Credentials.{IsOwn}
use netmaker_k8s_ops.Proxy.Routes.{
  Request, no_route, Outside, after_middleware, serve_request, is_redirected, redirected,
}
use netmaker_k8s_ops.Proxy.Onward.{
  routed_stays, sent_stays, IsReverseProxy, ForIdentity, is_listed, is_its_own, named_in,
  handled-IsOnward, route_sent,
}

module _ (outside : Outside) (proxied : IsReverseProxy outside) (rest : RestConfig)
    (config : ProxyConfig) (users : UserIpMap) (request : Request) where
  abbrev pub sent : Option Request
  sent = (serve_request outside rest config users request).0

  abbrev address : String
  address = outside.client_ip request.remote request.headers

  abbrev handled : Handled
  handled = auth_middleware outside.basic_auth rest config users address request.headers

  -- The caller's list of headers for this connection is not written by the middleware.
  listed_kept :
      {after : Headers} (name : String)
      → config.mode ≡ auth_mode
      → handled ≡ next after
      → is_listed outside name after ≡ is_listed outside name request.headers
  listed_kept name mode e = ap (named_in outside name) (
      auth_middleware-lookup_other outside.basic_auth rest config users address request.headers
        "Connection" mode e (refl, refl) refl refl refl refl)

  kept :
      {after : Headers} (name : String)
      → config.mode ≡ auth_mode
      → handled ≡ next after
      → is_its_own name ≡ false
      → is_listed outside name request.headers ≡ false
      → lookup name (outside.sent_on after) ≡ lookup name after
  kept {after} name mode e other unlisted =
      proxied.keeps name after other (listed_kept name mode e ∙ unlisted)

  gone :
      {after : Headers} (name : String)
      → config.mode ≡ auth_mode
      → handled ≡ next after
      → is_its_own name ≡ false
      → is_listed outside name request.headers ≡ true
      → lookup name (outside.sent_on after) ≡ none
  gone {after} name mode e other listed =
      proxied.removes name after other (listed_kept name mode e ∙ listed)

  -- With a reverse proxy as `IsReverseProxy` describes it: in auth mode, and where the caller's
  -- header Connection lists none of the identity headers, whatever the API server is sent is the
  -- request with the user, the groups and the address of its client in those headers, as the map and
  -- the defaults say; an empty user, or no groups, leave the caller's own header.
  pub sent-Impersonates :
      {onward : Request}
      → config.mode ≡ auth_mode
      → ForIdentity (λ name. is_listed outside name request.headers ≡ false)
      → sent ≡ some onward
      → let (user, groups) = identity config users address in
        (onward.method ≡ request.method)
        × (onward.path ≡ request.path)
        × Impersonates user groups address request.headers onward.headers
  unfolding serve_request
  sent-Impersonates {onward} mode (lu, lg, lou, log) e =
      let (after, goes, same) =
        handled-IsOnward outside request onward handled (
          sent_stays (is_redirected outside request) (after_middleware outside request handled)
            e) in
      let (u, g, ou, og) =
        auth_middleware-Impersonates outside.basic_auth rest config users address request.headers
          mode goes in
      rw same (
        refl,
        refl,
        (
          kept "Impersonate-User" mode goes refl lu ∙ u,
          kept "Impersonate-Group" mode goes refl lg ∙ g,
          kept "Impersonate-Extra-Original-User" mode goes refl lou ∙ ou,
          kept "Impersonate-Extra-Original-Group" mode goes refl log ∙ og,
        ),
      )

  -- What is sent of a request where the proxy has a token.
  pub bearer_sent :
      config.mode ≡ auth_mode
      → (rest.bearer_token == "") ≡ false
      → outside.match request.method request.path ≢ no_route
      → (request.method == "OPTIONS") ≡ false
      → (after : Headers) × (handled ≡ next after)
        × (lookup "Authorization" after ≡ some (("Bearer " <> rest.bearer_token) ∷ []))
        × (sent ≡ some (record request { headers = outside.sent_on after }))
  unfolding serve_request after_middleware
  bearer_sent mode bearer routed other =
      let (after, goes, authorization) =
        auth_middleware-Bearer outside.basic_auth rest config users address request.headers mode
          bearer in
      (
        after,
        goes,
        authorization,
        ap (λ b. (if b then (none, redirected) else after_middleware outside request handled).0)
              (routed_stays (outside.match request.method request.path)
                (outside.redirects request.method request.path) routed)
            ∙ ap (λ x. (after_middleware outside request x).0) goes
            ∙ route_sent outside (outside.match request.method request.path)
                (record request { headers = after }) routed other,
      )

  -- With a reverse proxy as `IsReverseProxy` describes it: in auth mode, and with a token of the proxy's
  -- own, a caller whose header Connection lists the identity headers and not Authorization has its request
  -- sent, on every route, with the proxy's token and with none of the identity headers, whoever it is.
  pub sent-Unidentified :
      config.mode ≡ auth_mode
      → (rest.bearer_token == "") ≡ false
      → outside.match request.method request.path ≢ no_route
      → (request.method == "OPTIONS") ≡ false
      → ForIdentity (λ name. is_listed outside name request.headers ≡ true)
      → is_listed outside "Authorization" request.headers ≡ false
      → (onward : Request) × (sent ≡ some onward)
        × (lookup "Authorization" onward.headers ≡ some (("Bearer " <> rest.bearer_token) ∷ []))
        × ForIdentity (λ name. lookup name onward.headers ≡ none)
  sent-Unidentified mode bearer routed other (lu, lg, lou, log) unlisted =
      let (after, goes, authorization, goes_on) = bearer_sent mode bearer routed other in
      (
        record request { headers = outside.sent_on after },
        goes_on,
        kept "Authorization" mode goes refl unlisted ∙ authorization,
        (
          gone "Impersonate-User" mode goes refl lu,
          gone "Impersonate-Group" mode goes refl lg,
          gone "Impersonate-Extra-Original-User" mode goes refl lou,
          gone "Impersonate-Extra-Original-Group" mode goes refl log,
        ),
      )

  -- With a reverse proxy as `IsReverseProxy` describes it: in noauth mode the API server is sent every
  -- header of the caller but authorization, agent, those that the caller's header Connection lists, and those
  -- that the reverse proxy sets.
  pub sent-lookup :
      {onward : Request} (name : String)
      → config.mode ≡ no_auth_mode
      → sent ≡ some onward
      → IsOwn name
      → is_its_own name ≡ false
      → is_listed outside name request.headers ≡ false
      → lookup name onward.headers ≡ lookup name request.headers
  unfolding serve_request
  sent-lookup {onward} name mode e own other unlisted =
      let (after, goes, same) =
        handled-IsOnward outside request onward handled (
          sent_stays (is_redirected outside request) (after_middleware outside request handled)
            e) in
      let connection =
        auth_middleware-lookup outside.basic_auth rest config users address request.headers
          "Connection" mode goes (refl, refl) in
      rw same (
        proxied.keeps name after other (ap (named_in outside name) connection ∙ unlisted)
        ∙ auth_middleware-lookup outside.basic_auth rest config users address request.headers name
            mode goes own)
