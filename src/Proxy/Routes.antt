-- ===== src/Proxy/Routes.antt =====
-- internal/proxy/proxy.go: what a request to the proxy goes through, from the router to the answer.
-- The router, the reverse proxy and the API server behind it are parameters (`Outside`).
use netmaker_k8s_ops.Base.{
  ℕ, String, ◌==◌, Bool, true, false, ◌||◌, ◌&&◌, Option, none, some, [], List, contains,
  if◌then◌else◌,
}
use netmaker_k8s_ops.Proxy.Users.{UserIpMap}
use netmaker_k8s_ops.Proxy.Config.{ProxyConfig}
use netmaker_k8s_ops.Proxy.Auth.{
  Headers, set_header, RestConfig, Handled, next, aborted, auth_middleware,
}

-- `remote` is the address of the connection.
pub record Request : Type 0 where
  pub method : String
  pub path : String
  pub remote : String
  pub headers : Headers

pub record Response : Type 0 where
  pub status : ℕ
  pub headers : Headers
  pub body : String

-- The four patterns that have a handler, or none of them.
pub data Route : Type 0 where
  api_path : Route
  apis_path : Route
  version : Route
  metrics : Route
  no_route : Route

abbrev pub is_unmatched : Route → Bool
is_unmatched no_route = true
is_unmatched _ = false

-- An error of the transport: whether `errors.Is` finds `context.Canceled` or `http.ErrAbortHandler`
-- in it, and its text.
pub record UpstreamError : Type 0 where
  pub is_canceled : Bool
  pub is_abort_handler : Bool
  pub message : String

-- What the API server answers to a request.
pub data Upstream : Type 0 where
  responded : Response → Upstream
  failed : UpstreamError → Upstream

-- What the caller is answered: a response, an error with its text, nothing that a handler wrote, or
-- what the router itself answers where no pattern fits: not found, or a redirection.
pub data Served : Type 0 where
  replied : Response → Served
  refused : ℕ → String → Served
  unanswered : Served
  left_to_router : Served
  redirected : Served

-- The libraries and the API server: how the router finds the pattern of a method and a path, whether
-- it redirects a path without a pattern, which it does where one fits with a slash at the end added or
-- taken off, and the address of a client, how `SetBasicAuth` encodes, whether the values of the header Connection name
-- a header, which headers the reverse proxy sends on, and what is answered to what it sends.
pub record Outside : Type 0 where
  pub match : String → String → Route
  pub redirects : String → String → Bool
  pub client_ip : String → Headers → String
  pub basic_auth : String → String → String
  pub is_named : String → List String → Bool
  pub sent_on : Headers → Headers
  pub upstream : Request → Upstream

unfoldable pub add_cors : Headers → Headers
add_cors h = set_header "Access-Control-Allow-Headers" "Content-Type, Authorization" (
    set_header "Access-Control-Allow-Methods" "GET, POST, PUT, DELETE, OPTIONS"
      (set_header "Access-Control-Allow-Origin" "*" h))

-- `proxy.ModifyResponse`
abbrev pub modify_response : Response → Response
modify_response response = record response { headers = add_cors response.headers }

-- `proxy.ErrorHandler`
unfoldable pub error_handler : UpstreamError → Served
error_handler e =
    if e.is_canceled || e.is_abort_handler
    then unanswered
    else if contains e.message "client disconnected" || contains e.message "request canceled"
    then unanswered
    else refused 502 "upstream error"

abbrev pub answer_of : Upstream → Served
answer_of (responded response) = replied (modify_response response)
answer_of (failed e) = error_handler e

abbrev pub preflight : Response
preflight = record { status = 200; headers = add_cors []; body = "" }

-- What the API server was sent, if anything, and what the caller is answered.
abbrev pub Exchange : Type 0
Exchange = Option Request × Served

module _ (outside : Outside) where
  -- `proxy.ServeHTTP`
  unfoldable pub serve_http : Request → Exchange
  serve_http request =
      let onward : Request = record request { headers = outside.sent_on request.headers } in
      (some onward, answer_of (outside.upstream onward))

  -- The handler of "/api/*path" and "/apis/*path".
  unfoldable pub serve_api : Request → Exchange
  unfolding serve_http
  serve_api request =
      if request.method == "OPTIONS" then (none, replied preflight) else serve_http request

  unfoldable pub serve_route : Route → Request → Exchange
  unfolding serve_api serve_http
  serve_route api_path request = serve_api request
  serve_route apis_path request = serve_api request
  serve_route version request = serve_http request
  serve_route metrics request = serve_http request
  serve_route no_route request = (none, left_to_router)

  -- The rest of the handlers, on what the middleware did.
  unfoldable pub after_middleware : Request → Handled → Exchange
  unfolding serve_route
  after_middleware request (aborted status message) = (none, refused status message)
  after_middleware request (next headers) =
      serve_route (outside.match request.method request.path) (record request { headers = headers })

  -- gin's RedirectTrailingSlash, which is on.
  abbrev pub is_redirected : Request → Bool
  is_redirected request =
      is_unmatched (outside.match request.method request.path)
      && outside.redirects request.method request.path

  -- The chain of handlers of the router: the middleware stands before every route, and before the
  -- answer that there is none. A redirection is answered without them.
  unfoldable pub serve_request : RestConfig → ProxyConfig → UserIpMap → Request → Exchange
  unfolding after_middleware
  serve_request rest config users request =
      if is_redirected request
      then (none, redirected)
      else after_middleware request (
          auth_middleware outside.basic_auth rest config users
            (outside.client_ip request.remote request.headers) request.headers)
