-- ===== src/Setup/Examples.antt =====
-- Runs of the set-up.
use netmaker_k8s_ops.Base.{
  ℕ, List, lookup, String, ◌==◌, ◌≡◌, refl, Bool, true, false, Option, none, some, [], ◌∷◌, Env,
  if◌then◌else◌, lowers_to,
}
use netmaker_k8s_ops.Proxy.Users.{HttpAnswer, answer}
use netmaker_k8s_ops.Proxy.Config.{get_proxy_config}
use netmaker_k8s_ops.Proxy.Startup.{
  check_server_pro_status, StatusBody, body_is_pro, check_proxy_mode, check_server_pro_status,
  is_pro,
}
use netmaker_k8s_ops.Proxy.Auth.{auth_middleware}
use netmaker_k8s_ops.Proxy.Routes.{Request, serve_request}
use netmaker_k8s_ops.Proxy.Onward.{is_listed}
use netmaker_k8s_ops.Proxy.Interfaces.{Interface}
use netmaker_k8s_ops.Proxy.Server.{ClusterConfig, ProxyServer, proxy_server, start_k8s_proxy}
use netmaker_k8s_ops.Proxy.Exchanges.{outside, sent_on-IsReverseProxy, rest, users, request_with}
use netmaker_k8s_ops.Setup.Requests.{IsServed, sent_by_server, served-lookup}
use netmaker_k8s_ops.Setup.{
  Flags, SetupStep, get_config, new_manager, netmaker_ops_controller, egress_controller,
  ingress_controller, healthz_check, readyz_check, exited, first_failure, main,
}
use netmaker_k8s_ops.Setup.Starts.{proxy_mode_of, mode_by, main-started_mode}

abbrev auth_env : Env
auth_env name =
    if name == "PROXY_MODE" then "auth" else if name == "SERVER_HOST" then "nm.example.com" else ""

abbrev no_flags : Flags
no_flags = record {
  metrics_bind_address = none;
  health_probe_bind_address = none;
  leader_elect = none;
  metrics_secure = none;
  enable_http2 = none;
}

abbrev not_pro : String → StatusBody
not_pro body = body_is_pro false

abbrev ask : String → HttpAnswer
ask url = answer 200 "{}"

abbrev nothing_fails : SetupStep → Bool
nothing_fails step = false

abbrev healthz_fails : SetupStep → Bool
healthz_fails healthz_check = true
healthz_fails get_config = false
healthz_fails new_manager = false
healthz_fails netmaker_ops_controller = false
healthz_fails egress_controller = false
healthz_fails ingress_controller = false
healthz_fails readyz_check = false

main-started_mode_example :
    proxy_mode_of (main not_pro ask nothing_fails auth_env no_flags)
    ≡ mode_by (auth_env "PROXY_MODE") (check_server_pro_status not_pro ask auth_env)
main-started_mode_example = main-started_mode not_pro ask nothing_fails auth_env no_flags

main_exits : main not_pro ask healthz_fails auth_env no_flags ≡ exited healthz_check
unfolding main first_failure
main_exits = refl

-- On a server that is not a pro server the proxy reads the mode "noauth".
main_runs : proxy_mode_of (main not_pro ask nothing_fails auth_env no_flags) ≡ some "noauth"
unfolding main first_failure check_proxy_mode get_proxy_config lowers_to
main_runs = refl

-- A proxy outside the cluster, that listens on a given address.
abbrev proxy_env : Env
proxy_env name = if name == "PROXY_BIND_IP" then "100.64.0.1" else auth_env name

abbrev cluster : ClusterConfig
cluster = record { host = "https://10.0.0.1"; credentials = rest }

abbrev from_file : String → Option ClusterConfig
from_file path = some cluster

abbrev nothing_seen : ℕ → Option (List Interface)
nothing_seen attempt = none

abbrev server_in : (String → StatusBody) → ProxyServer
server_in decode =
    proxy_server none from_file some (check_proxy_mode decode ask proxy_env) nothing_seen cluster
      "https://10.0.0.1"

-- What the API server is sent, in the environment that the check leaves.
abbrev onward_of : (String → StatusBody) → Request → Option Request
onward_of decode request =
    sent_by_server decode ask none from_file some proxy_env nothing_seen (server_in decode) outside
      sent_on-IsReverseProxy users request

-- A caller that asks to be another user, on a server that is not a pro server.
abbrev asking : Request
asking = request_with "100.64.0.9" (("Impersonate-User", "admin" ∷ []) ∷ [])

not_pro_served :
    IsServed not_pro ask none from_file some proxy_env nothing_seen
      (server_in not_pro)
      outside
      sent_on-IsReverseProxy
      users
      asking
unfolding start_k8s_proxy check_proxy_mode
not_pro_served = refl

not_pro_mode : check_server_pro_status not_pro ask proxy_env ≡ is_pro false
unfolding check_server_pro_status
not_pro_mode = refl

asking_sent : (onward : Request) × (onward_of not_pro asking ≡ some onward)
unfolding serve_request auth_middleware proxy_server get_proxy_config lowers_to check_proxy_mode
asking_sent = (_, refl)

asking_unlisted : is_listed outside "Impersonate-User" asking.headers ≡ false
unfolding lookup
asking_unlisted = refl

served-lookup_example :
    lookup "Impersonate-User" asking_sent.0.headers ≡ lookup "Impersonate-User" asking.headers
served-lookup_example =
    served-lookup not_pro ask none from_file some proxy_env nothing_seen (server_in not_pro) outside
      sent_on-IsReverseProxy users asking "Impersonate-User" refl not_pro_mode not_pro_served
      asking_sent.1 (refl, refl) refl asking_unlisted
