-- ===== src/Proxy/Onward.antt =====
-- On internal/proxy/proxy.go.
-- What the Kubernetes API server is sent of a request, and what the caller is answered.
use netmaker_k8s_ops.Base.{
  String, ◌==◌, ◌≡◌, ◌≢◌, refl, inl, inr, Bool, true, false, ◌||◌, Option, none, some, List, [],
  ◌∷◌, lookup, Bool-cases, ◌&&◌, if◌then◌else◌,
}
use netmaker_k8s_ops.Proxy.Auth.{Headers, Handled, next, aborted}
use netmaker_k8s_ops.Proxy.Routes.{
  Request, Route, api_path, apis_path, version, metrics, no_route, Outside, serve_http, serve_api,
  serve_route, after_middleware, is_unmatched, Exchange, redirected,
}

abbrev is_one_of : List String → String → Bool
is_one_of [] name = false
is_one_of (other ∷ others) name = other == name || is_one_of others name

abbrev pub named_in : Outside → String → Option (List String) → Bool
named_in outside name none = false
named_in outside name (some values) = outside.is_named name values

-- The caller's header Connection names the header, as one that is for this connection only.
abbrev pub is_listed : Outside → String → Headers → Bool
is_listed outside name h = named_in outside name (lookup "Connection" h)

-- The headers that `httputil.ReverseProxy` removes or sets in every request.
abbrev pub is_its_own : String → Bool
is_its_own = is_one_of (
    "Connection" ∷ "Proxy-Connection" ∷ "Keep-Alive" ∷ "Proxy-Authenticate" ∷ "Proxy-Authorization"
    ∷ "Te" ∷ "Trailer" ∷ "Transfer-Encoding" ∷ "Upgrade" ∷ "X-Forwarded-For" ∷ "User-Agent" ∷ [])

-- What `httputil.ReverseProxy` documents of all other headers: those that the header Connection lists
-- are removed, after everything that the program has set, and the others are sent on.
pub record IsReverseProxy (outside : Outside) : Type 0 where
  pub removes :
      (name : String) (h : Headers)
      → is_its_own name ≡ false
      → is_listed outside name h ≡ true
      → lookup name (outside.sent_on h) ≡ none
  pub keeps :
      (name : String) (h : Headers)
      → is_its_own name ≡ false
      → is_listed outside name h ≡ false
      → lookup name (outside.sent_on h) ≡ lookup name h

module _ (outside : Outside) where
  -- What is sent on is the request, with other headers.
  abbrev IsOnward : Request → Headers → Option Request → Type 0
  IsOnward request headers sent =
      (onward : Request)
      → sent ≡ some onward
      → onward ≡ record request { headers = outside.sent_on headers }

  http-IsOnward :
      (request : Request) → IsOnward request request.headers (serve_http outside request).0
  unfolding serve_http
  http-IsOnward request onward e = cc e

  api-IsOnward :
      (request : Request) → IsOnward request request.headers (serve_api outside request).0
  unfolding serve_api serve_http
  api-IsOnward request onward e = elim (Bool-cases (request.method == "OPTIONS")) [
    | inl options ↦ cc (options, e)
    | inr other ↦ http-IsOnward request onward (rw other at e)
  ]

  route-IsOnward :
      (route : Route) (request : Request)
      → IsOnward request request.headers (serve_route outside route request).0
  unfolding serve_route
  route-IsOnward api_path request = api-IsOnward request
  route-IsOnward apis_path request = api-IsOnward request
  route-IsOnward version request = http-IsOnward request
  route-IsOnward metrics request = http-IsOnward request
  route-IsOnward no_route request = λ onward e. cc e

  pub handled-IsOnward :
      (request onward : Request) (handled : Handled)
      → (after_middleware outside request handled).0 ≡ some onward
      → (after : Headers) × (handled ≡ next after)
        × (onward ≡ record request { headers = outside.sent_on after })
  unfolding after_middleware
  handled-IsOnward request onward (aborted status message) e = cc e
  handled-IsOnward request onward (next after) e = (
    after,
    refl,
    route-IsOnward (outside.match request.method request.path) (record request { headers = after })
        onward e,
  )

  http_sent :
      (request : Request)
      → (serve_http outside request).0
        ≡ some (record request { headers = outside.sent_on request.headers })
  unfolding serve_http
  http_sent request = refl

  api_sent :
      (request : Request)
      → (request.method == "OPTIONS") ≡ false
      → (serve_api outside request).0
        ≡ some (record request { headers = outside.sent_on request.headers })
  unfolding serve_api serve_http
  api_sent request other = rw other refl

  pub route_sent :
      (route : Route) (request : Request)
      → route ≢ no_route
      → (request.method == "OPTIONS") ≡ false
      → (serve_route outside route request).0
        ≡ some (record request { headers = outside.sent_on request.headers })
  unfolding serve_route
  route_sent api_path request routed other = api_sent request other
  route_sent apis_path request routed other = api_sent request other
  route_sent version request routed other = http_sent request
  route_sent metrics request routed other = http_sent request
  route_sent no_route request routed other = absurd (routed refl)

-- A request on a route is not redirected.
pub routed_stays :
    (route : Route) (redirects : Bool)
    → route ≢ no_route
    → (is_unmatched route && redirects) ≡ false
routed_stays api_path redirects routed = refl
routed_stays apis_path redirects routed = refl
routed_stays version redirects routed = refl
routed_stays metrics redirects routed = refl
routed_stays no_route redirects routed = absurd (routed refl)

-- What is sent of a redirected request is nothing.
pub sent_stays :
    (redirect : Bool) (exchange : Exchange) {onward : Request}
    → (if redirect then (none, redirected) else exchange).0 ≡ some onward
    → exchange.0 ≡ some onward
sent_stays true exchange e = cc e
sent_stays false exchange e = e

-- The headers that say who the request is.
abbrev pub ForIdentity : (String → Type 0) → Type 0
ForIdentity P =
    P "Impersonate-User"
    × P "Impersonate-Group"
    × P "Impersonate-Extra-Original-User"
    × P "Impersonate-Extra-Original-Group"
