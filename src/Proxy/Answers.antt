-- ===== src/Proxy/Answers.antt =====
-- On internal/proxy/proxy.go.
-- What a caller is answered, over all routes and all answers of the API server.
use netmaker_k8s_ops.Base.{
  String, ◌==◌, ◌≡◌, refl, ap, ◌∙◌, sym, ◌⊎◌, inl, inr, Bool, true, false, ◌||◌, Option, none, some,
  [], ◌∷◌, lookup, Env, Bool-cases, contains, if◌then◌else◌, arith, eq_iff, subst,
}
use netmaker_k8s_ops.Proxy.Users.{UserIpMap}
use netmaker_k8s_ops.Proxy.Config.{get_proxy_config}
use netmaker_k8s_ops.Proxy.Auth.{Headers, RestConfig, Handled, next, aborted, auth_middleware}
use netmaker_k8s_ops.Proxy.Identity.{auth_middleware-lookup, auth_middleware-lookup_other}
use netmaker_k8s_ops.Proxy.Credentials.{lookup-set_header, expected_authorization}
use netmaker_k8s_ops.Proxy.Defaults.{get_proxy_config-Serves, mode-cases, mode_of}
use netmaker_k8s_ops.Proxy.Routes.{
  Request, Response, Route, api_path, apis_path, version, metrics, no_route, Upstream, responded,
  failed, UpstreamError, replied, refused, unanswered, preflight, Outside, add_cors, answer_of,
  error_handler, Exchange, redirected, is_redirected, serve_http, serve_api, serve_route,
  after_middleware, serve_request,
}
use netmaker_k8s_ops.Proxy.Onward.{
  sent_stays, IsReverseProxy, is_listed, named_in, handled-IsOnward,
}

abbrev pub HasCors : Headers → Type 0
HasCors h =
    (lookup "Access-Control-Allow-Origin" h ≡ some ("*" ∷ []))
    × (lookup "Access-Control-Allow-Methods" h ≡ some ("GET, POST, PUT, DELETE, OPTIONS" ∷ []))
    × (lookup "Access-Control-Allow-Headers" h ≡ some ("Content-Type, Authorization" ∷ []))

add_cors-HasCors : (h : Headers) → HasCors (add_cors h)
unfolding add_cors
add_cors-HasCors h = (
  rw (lookup-set_header, lookup-set_header, lookup-set_header) refl,
  rw (lookup-set_header, lookup-set_header) refl,
  rw lookup-set_header refl,
)

-- An error is never answered with a response.
not_replied :
    (gone ignored : Bool) (response : Response)
    → (if gone then unanswered else if ignored then unanswered else refused 502 "upstream error")
      ≡ replied response
    → ⊥
not_replied true ignored response e = cc e
not_replied false true response e = cc e
not_replied false false response e = cc e

error_handler-replied :
    (e : UpstreamError) (response : Response) → error_handler e ≡ replied response → ⊥
unfolding error_handler
error_handler-replied e response h =
    not_replied (e.is_canceled || e.is_abort_handler)
      (contains e.message "client disconnected" || contains e.message "request canceled") response h

module _ (outside : Outside) where
  -- An answer to a preflight request, or what the API server answered to what it was sent.
  abbrev pub IsFrom : Request → Option Request → Response → Type 0
  IsFrom request sent response =
      ((request.method ≡ "OPTIONS")
        × (sent ≡ none)
        × (response.status ≡ 200)
        × (response.body ≡ ""))
      ⊎ ((onward : Request) × (answer : Response) × (sent ≡ some onward)
          × (outside.upstream onward ≡ responded answer)
          × (response.status ≡ answer.status)
          × (response.body ≡ answer.body))

  abbrev IsAnswer : Request → Exchange → Type 0
  IsAnswer request exchange =
      (response : Response)
      → exchange.1 ≡ replied response
      → HasCors response.headers × IsFrom request exchange.0 response

  upstream-IsAnswer :
      (request onward : Request) (found : Upstream)
      → outside.upstream onward ≡ found
      → IsAnswer request (some onward, answer_of found)
  upstream-IsAnswer request onward (failed e) there response h =
      absurd (error_handler-replied e response h)
  upstream-IsAnswer request onward (responded answer) there response h =
      let same : record answer { headers = add_cors answer.headers } ≡ response = cc h in
      rw (sym same) (add_cors-HasCors answer.headers, inr (onward, answer, refl, there, refl, refl))

  http-IsAnswer : (request : Request) → IsAnswer request (serve_http outside request)
  unfolding serve_http
  http-IsAnswer request =
      let onward : Request = record request { headers = outside.sent_on request.headers } in
      upstream-IsAnswer request onward (outside.upstream onward) refl

  api-IsAnswer : (request : Request) → IsAnswer request (serve_api outside request)
  unfolding serve_api
  api-IsAnswer request response h = elim (Bool-cases (request.method == "OPTIONS")) [
    | inr other ↦ rw other (http-IsAnswer request response (rw other at h))
    | inl options ↦
        let same : preflight ≡ response = cc (rw options at h) in
        rw (options, sym same)
          (
            add_cors-HasCors [],
            inl (ground (arith, options, eq_iff request.method "OPTIONS"), refl, refl, refl),
          )
  ]

  route-IsAnswer :
      (route : Route) (request : Request) → IsAnswer request (serve_route outside route request)
  unfolding serve_route
  route-IsAnswer api_path request = api-IsAnswer request
  route-IsAnswer apis_path request = api-IsAnswer request
  route-IsAnswer version request = http-IsAnswer request
  route-IsAnswer metrics request = http-IsAnswer request
  route-IsAnswer no_route request = λ response h. cc h

  handled-IsAnswer :
      (request : Request) (handled : Handled)
      → IsAnswer request (after_middleware outside request handled)
  unfolding after_middleware
  handled-IsAnswer request (aborted status message) = λ response h. cc h
  handled-IsAnswer request (next after) =
      route-IsAnswer (outside.match request.method request.path)
        (record request { headers = after })

  stays-IsAnswer :
      (request : Request) (redirect : Bool) (exchange : Exchange)
      → IsAnswer request exchange
      → IsAnswer request (if redirect then (none, redirected) else exchange)
  stays-IsAnswer request true exchange h response e = cc e
  stays-IsAnswer request false exchange h response e = h response e

module _ (outside : Outside) (rest : RestConfig) (env : Env) (users : UserIpMap)
    (request : Request) where
  abbrev pub exchange : Exchange
  exchange = serve_request outside rest (get_proxy_config env) users request

  -- Every response that the handler of a route replies (so no refusal of the middleware, no error that
  -- the proxy writes and no answer of the router itself) has the CORS headers, and is either the answer of the
  -- proxy to a method OPTIONS, of which the API server is sent nothing, or the status and the body
  -- that the API server answered to what it was sent.
  pub serve_request-HasCors :
      (response : Response)
      → exchange.1 ≡ replied response
      → HasCors response.headers × IsFrom outside request exchange.0 response
  unfolding serve_request
  serve_request-HasCors response h =
      stays-IsAnswer outside request (is_redirected outside request) _
        (handled-IsAnswer outside request _) response h

  abbrev address : String
  address = outside.client_ip request.remote request.headers

  abbrev handled : Handled
  handled =
      auth_middleware outside.basic_auth rest (get_proxy_config env) users address request.headers

  connection_kept :
      {after : Headers}
      → handled ≡ next after
      → lookup "Connection" after ≡ lookup "Connection" request.headers
  connection_kept e = elim (mode-cases env) [
    | inl auth ↦
        auth_middleware-lookup_other outside.basic_auth rest (get_proxy_config env) users address
          request.headers "Connection" (mode_of env ∙ auth) e (refl, refl) refl refl refl refl
    | inr noauth ↦
        auth_middleware-lookup outside.basic_auth rest (get_proxy_config env) users address
          request.headers "Connection" (mode_of env ∙ noauth) e (refl, refl)
  ]

  -- With a reverse proxy as `IsReverseProxy` describes it, and under a configuration read from the
  -- environment: where the caller's header Connection does not list Authorization, whatever the API
  -- server is sent has the proxy's token, else the caller's header if a certificate and its key are
  -- configured, else the proxy's password, else the caller's header.
  pub sent-Authorized :
      {onward : Request}
      → IsReverseProxy outside
      → is_listed outside "Authorization" request.headers ≡ false
      → exchange.0 ≡ some onward
      → lookup "Authorization" onward.headers
        ≡ expected_authorization outside.basic_auth rest request.headers
  unfolding serve_request
  sent-Authorized {onward} proxied unlisted e =
      let (after, goes, same) =
        handled-IsOnward outside request onward handled (
          sent_stays (is_redirected outside request) (after_middleware outside request handled)
            e) in
      elim (get_proxy_config-Serves env outside.basic_auth rest users address request.headers) [
        | inl (_, answer) ↦ cc (goes, answer)
        | inr (_, (next_headers, answer, authorization, _)) ↦
            let again : next_headers ≡ after = cc (goes, answer) in
            rw same (
              proxied.keeps "Authorization" after refl (
                ap (λ values. named_in outside "Authorization" values) (connection_kept goes)
                ∙ unlisted)
              ∙ subst
                  (λ h.
                    lookup "Authorization" h
                    ≡ expected_authorization outside.basic_auth rest request.headers)
                  again authorization)
      ]
