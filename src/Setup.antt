-- ===== src/Setup.antt =====
-- cmd/main.go: the set-up of the operator. The manager library is a parameter: whether each of its
-- calls returns an error.
pub mod Starts
pub mod Requests
mod Examples
use netmaker_k8s_ops.Base.{
  String, ◌<>◌, ◌==◌, Bool, true, false, ◌||◌, not, Option, none, some, List, [], ◌∷◌, Env,
  if◌then◌else◌,
}
use mathlib.Core.Option.{get_or}
use netmaker_k8s_ops.Proxy.Users.{HttpAnswer}
use netmaker_k8s_ops.Proxy.Startup.{StatusBody, check_proxy_mode}

-- The flags of the command line, `none` where one is not given.
pub record Flags : Type 0 where
  pub metrics_bind_address : Option String
  pub health_probe_bind_address : Option String
  pub leader_elect : Option Bool
  pub metrics_secure : Option Bool
  pub enable_http2 : Option Bool

-- The fields of `ctrl.Options` that are set. `next_protos` is what the option on TLS sets, in the
-- servers of the metrics and of the webhook.
pub record ManagerOptions : Type 0 where
  pub metrics_address : String
  pub metrics_secure : Bool
  pub metrics_filter : Bool
  pub next_protos : Option (List String)
  pub health_probe_address : String
  pub leader_election : Bool
  pub leader_election_id : String

-- The calls of the manager library at whose error `main` exits, in their order. The first reads the
-- configuration of the cluster, and exits itself.
pub data SetupStep : Type 0 where
  get_config : SetupStep
  new_manager : SetupStep
  netmaker_ops_controller : SetupStep
  egress_controller : SetupStep
  ingress_controller : SetupStep
  healthz_check : SetupStep
  readyz_check : SetupStep

abbrev pub setup_steps : List SetupStep
setup_steps =
    get_config ∷ new_manager ∷ netmaker_ops_controller ∷ egress_controller ∷ ingress_controller
    ∷ healthz_check ∷ readyz_check ∷ []

pub data Goroutine : Type 0 where
  api_server : Goroutine
  k8s_proxy : Goroutine
  manager : Goroutine

-- Either the program exits with status 1 at a step, or these goroutines are started, in this
-- environment.
pub data Main : Type 0 where
  exited : SetupStep → Main
  running : ManagerOptions → List Goroutine → Env → Main

unfoldable pub leader_elect_default : Env → Bool
leader_elect_default env = env "ENABLE_LEADER_ELECTION" == "true" || not (env "POD_NAME" == "")

unfoldable pub probe_address : Env → Flags → String
probe_address env flags =
    if env "HEALTH_PROBE_PORT" == ""
    then get_or flags.health_probe_bind_address ":8081"
    else ":" <> env "HEALTH_PROBE_PORT"

unfoldable pub next_protos : Bool → Option (List String)
next_protos enable_http2 = if enable_http2 then none else some ("http/1.1" ∷ [])

unfoldable pub manager_options : Env → Flags → ManagerOptions
unfolding leader_elect_default probe_address next_protos
manager_options env flags = record {
  metrics_address = get_or flags.metrics_bind_address "0";
  metrics_secure = get_or flags.metrics_secure true;
  metrics_filter = get_or flags.metrics_secure true;
  next_protos = next_protos (get_or flags.enable_http2 false);
  health_probe_address = probe_address env flags;
  leader_election = get_or flags.leader_elect (leader_elect_default env);
  leader_election_id = "3820d23d.netmaker.io";
}

-- The first of the steps that returns an error.
unfoldable pub first_failure : (SetupStep → Bool) → List SetupStep → Option SetupStep
first_failure fails [] = none
first_failure fails (step ∷ steps) =
    let later = first_failure fails steps in if fails step then some step else later

unfoldable pub goroutines : Env → List Goroutine
goroutines env =
    if env "PROXY_MODE" == "" then manager ∷ [] else api_server ∷ k8s_proxy ∷ manager ∷ []

abbrev pub finish_setup : Option SetupStep → ManagerOptions → Env → Main
finish_setup (some step) options env = exited step
finish_setup none options env = running options (goroutines env) env

-- The environment is changed by the check for a pro server, which comes before the steps.
unfoldable pub main :
    (String → StatusBody) → (String → HttpAnswer) → (SetupStep → Bool) → Env → Flags → Main
unfolding first_failure manager_options goroutines
main decode ask fails env flags =
    finish_setup (first_failure fails setup_steps) (manager_options env flags)
      (check_proxy_mode decode ask env)
