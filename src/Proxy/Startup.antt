-- ===== src/Proxy/Startup.antt =====
-- cmd/main.go and internal/proxy/proxy.go: whether the proxy is started, and in which mode.
use netmaker_k8s_ops.Base.{decimal}
use netmaker_k8s_ops.Base.{
  String, ◌<>◌, ◌==◌, ◌≡◌, ◌≢◌, refl, Bool, true, false, ◌&&◌, not, Option, none, some, Env, setenv,
  nat_eq, lowers_to, if◌then◌else◌, arith, eq_iff,
}
use netmaker_k8s_ops.Proxy.Users.{HttpAnswer, no_request, no_answer, answer}
use netmaker_k8s_ops.Proxy.Config.{auth_mode, no_auth_mode, proxy_mode}

-- `none` if the proxy is not started, and its mode if it is.
unfoldable pub start : Env → Option String
unfolding proxy_mode
start env = if env "PROXY_MODE" == "" then none else some (proxy_mode env)

auth_lowers : lowers_to "auth" "noauth" ≡ false
unfolding lowers_to
auth_lowers = refl

auth_lowers_auth : lowers_to "auth" "auth" ≡ true
unfolding lowers_to
auth_lowers_auth = refl

noauth_lowers : lowers_to "noauth" "noauth" ≡ true
unfolding lowers_to
noauth_lowers = refl

start_auth : (env : Env) → env "PROXY_MODE" ≡ "auth" → start env ≡ some auth_mode
unfolding start proxy_mode
start_auth env e = rw e (rw (auth_lowers, auth_lowers_auth) refl)

start_noauth : (env : Env) → env "PROXY_MODE" ≡ "noauth" → start env ≡ some no_auth_mode
unfolding start proxy_mode
start_noauth env e = rw e (rw noauth_lowers refl)

start_unset : (env : Env) → env "PROXY_MODE" ≡ "" → start env ≡ none
unfolding start
start_unset env e = rw e refl

start_set :
    (env : Env)
    → env "PROXY_MODE" ≢ ""
    → start env ≡ some (if lowers_to (env "PROXY_MODE") "noauth" then no_auth_mode else auth_mode)
unfolding start proxy_mode
start_set env set = ground (arith, eq_iff (env "PROXY_MODE") "")

-- What the check of the server gives: whether it is a pro server, or an error.
pub data ProStatus : Type 0 where
  is_pro : Bool → ProStatus
  failed : String → ProStatus

-- The field `is_pro` of a body, or why it cannot be read.
pub data StatusBody : Type 0 where
  undecodable : String → StatusBody
  body_is_pro : Bool → StatusBody

-- `decode` reads a body, which the JSON library does. The request goes to
-- https://<host>/api/server/status, and `ask` is what comes of it.
module _ (decode : String → StatusBody) (ask : String → HttpAnswer) where
  abbrev status_of : StatusBody → ProStatus
  status_of (undecodable message) = failed ("failed to decode server status response: " <> message)
  status_of (body_is_pro pro) = is_pro pro

  abbrev checked_answer : HttpAnswer → ProStatus
  checked_answer (no_request message) = failed ("failed to create request: " <> message)
  checked_answer (no_answer message) = failed ("failed to check server pro status: " <> message)
  checked_answer (answer status body) =
      if nat_eq status 200
      then status_of (decode body)
      else failed ("server status check failed with status " <> (decimal status <> (": " <> body)))

  abbrev server_host : Env → String
  server_host env = if env "SERVER_HOST" == "" then env "API_SERVER_DOMAIN" else env "SERVER_HOST"

  unfoldable pub check_server_pro_status : Env → ProStatus
  check_server_pro_status env =
      if server_host env == ""
      then failed "SERVER_HOST or API_SERVER_DOMAIN environment variable must be set"
      else checked_answer (ask ("https://" <> server_host env <> "/api/server/status"))

  -- The environment after the check has been acted on.
  unfoldable pub on_status : ProStatus → Env → Env
  on_status (failed _) env = if env "PROXY_MODE" == "auth" then setenv "PROXY_MODE" "" env else env
  on_status (is_pro pro) env =
      if pro && env "PROXY_MODE" == "auth"
      then env
      else if not pro && env "PROXY_MODE" == "auth"
      then setenv "PROXY_MODE" "noauth" env
      else env

  unfoldable pub check_proxy_mode : Env → Env
  unfolding on_status check_server_pro_status
  check_proxy_mode env =
      if env "PROXY_MODE" == "" then env else on_status (check_server_pro_status env) env

  unfoldable pub started_mode : Env → Option String
  unfolding check_proxy_mode start
  started_mode env = start (check_proxy_mode env)

  abbrev pub expected_mode : ProStatus → Option String
  expected_mode (is_pro true) = some auth_mode
  expected_mode (is_pro false) = some no_auth_mode
  expected_mode (failed _) = none

  on_status_lem :
      (status : ProStatus) (env : Env)
      → env "PROXY_MODE" ≡ "auth"
      → start (on_status status env) ≡ expected_mode status
  unfolding on_status
  on_status_lem (failed _) env e = rw e (start_unset (setenv "PROXY_MODE" "" env) refl)
  on_status_lem (is_pro true) env e = rw e (start_auth env e)
  on_status_lem (is_pro false) env e = rw e (start_noauth (setenv "PROXY_MODE" "noauth" env) refl)

  on_status_other :
      (status : ProStatus) (env : Env)
      → (env "PROXY_MODE" == "auth") ≡ false
      → on_status status env ≡ env
  unfolding on_status
  on_status_other (failed _) env e = rw e
  on_status_other (is_pro true) env e = rw e
  on_status_other (is_pro false) env e = rw e

  -- Where the mode is set to "auth" exactly, the proxy is started in auth mode if the server is
  -- a pro server, in noauth mode if it is not one, and not at all if the check failed.
  pub started_mode_auth :
      (env : Env)
      → env "PROXY_MODE" ≡ "auth"
      → started_mode env ≡ expected_mode (check_server_pro_status env)
  unfolding started_mode check_proxy_mode
  started_mode_auth env e = rw e (on_status_lem (check_server_pro_status env) env e)

  -- With any other mode that is set, the proxy is started whatever the server answers: in noauth
  -- mode if the mode is "noauth" but for case, and else in auth mode, also if it is "AUTH" or
  -- no known mode.
  pub started_mode_unchecked :
      (env : Env)
      → env "PROXY_MODE" ≢ ""
      → env "PROXY_MODE" ≢ "auth"
      → started_mode env
        ≡ some (if lowers_to (env "PROXY_MODE") "noauth" then no_auth_mode else auth_mode)
  unfolding started_mode check_proxy_mode
  started_mode_unchecked env set other =
      let is_set : (env "PROXY_MODE" == "") ≡ false =
        ground (arith, eq_iff (env "PROXY_MODE") "") in
      let is_other : (env "PROXY_MODE" == "auth") ≡ false =
        ground (arith, eq_iff (env "PROXY_MODE") "auth") in
      rw (is_set, on_status_other (check_server_pro_status env) env is_other) (start_set env set)
