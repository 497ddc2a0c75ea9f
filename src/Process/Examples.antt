-- ===== src/Process/Examples.antt =====
-- Runs of the operator.
use netmaker_k8s_ops.Base.{
  ℕ, ◌≡◌, refl, String, ◌==◌, Bool, true, false, Option, none, some, List, [], ◌∷◌, ◌++◌, Env, atoi,
  subst, pos, seconds, if◌then◌else◌, ◌≤◌, inl, map, arith,
}
use netmaker_k8s_ops.Setup.{api_server, k8s_proxy, manager}
use netmaker_k8s_ops.Proxy.Config.{get_env_int, get_nm_api_config}
use netmaker_k8s_ops.Process.Operator.{program}
use netmaker_k8s_ops.Proxy.Interfaces.{Interface, get_wire_guard_interface_ip}
use netmaker_k8s_ops.Proxy.Server.{ClusterConfig, serving, start_k8s_proxy, proxy_server}
use netmaker_k8s_ops.Proxy.Exchanges.{rest}
use netmaker_k8s_ops.Process.State.{
  Process, returned, Outcome, goes_on, ends, Event, main_moves, moves, returns, listener_returns,
  sync_moves, signals, Program, start,
}
use netmaker_k8s_ops.Process.{step, Run, stop, last, go}
use netmaker_k8s_ops.Process.Endings.{Explains, Run-Explains}
use netmaker_k8s_ops.Process.Bound.{endings, events_left}
use netmaker_k8s_ops.Process.Shutdown.{IsSignalled, NotStuck, shutdown_ends}
use netmaker_k8s_ops.Process.Sleeps.{slept, operator, search_waits, returned-slept_search}
use netmaker_k8s_ops.Process.Signals.{is_past, with_quit, without_signals, Run-without_signals}

abbrev is_empty : List Event → Bool
is_empty [] = true
is_empty (e ∷ es) = false

-- What a list of events makes of a process, if they can happen.
run : Program → List Event → Process → Option Outcome
run p [] s = some (goes_on s)
run p (e ∷ es) s = elim (step p e s) [
  | none ↦ none
  | some (goes_on t) ↦ run p es t
  | some (ends x) ↦ if is_empty es then some (ends x) else none
]

after-Run :
    (p : Program) (e : Event) (es : List Event) (s : Process) (r : Option Outcome) {o : Outcome}
    → step p e s ≡ r
    → ((t : Process) → run p es t ≡ some o → Run p t es o)
    → elim r [
      | none ↦ none
      | some (goes_on t) ↦ run p es t
      | some (ends x) ↦ if is_empty es then some (ends x) else none
    ]
      ≡ some o
    → Run p s (e ∷ es) o
after-Run p e es s none now later h = cc
after-Run p e es s (some (goes_on t)) now later h = go now (later t h)
after-Run p e [] s (some (ends x)) {o} now later h =
    let same : ends x ≡ o = cc in subst (Run p s (e ∷ [])) same (last now)
after-Run p e (d ∷ es) s (some (ends x)) now later h = cc

run-Run :
    (p : Program) (es : List Event) (s : Process) {o : Outcome} → run p es s ≡ some o → Run p s es o
unfolding run
run-Run p [] s {o} h = let same : goes_on s ≡ o = cc in subst (Run p s []) same stop
run-Run p (e ∷ es) s h = after-Run p e es s (step p e s) refl (λ t k. run-Run p es t k) h

abbrev process_of : Option Outcome → Process
process_of (some (goes_on t)) = t
process_of (some (ends x)) = start
process_of none = start

-- An operator in a network that is not up at the first of two attempts.
abbrev operator_env : Env
operator_env name =
    if name == "PROXY_MODE"
    then "noauth"
    else if name == "WIREGUARD_RETRY_MAX_ATTEMPTS"
    then "2"
    else ""

abbrev nothing_seen : ℕ → Option (List Interface)
nothing_seen attempt = some []

abbrev cluster : ClusterConfig
cluster = record { host = "https://10.0.0.1"; credentials = rest }

abbrev from_file : String → Option ClusterConfig
from_file path = some cluster

abbrev parse : String → Option String
parse host = some host

abbrev here : Program
here = operator operator_env (λ _. nothing_seen) none from_file parse

-- A signal comes while both servers still wait.
abbrev starting_up : List Event
starting_up =
    main_moves
    ∷ main_moves
    ∷ main_moves
    ∷ main_moves
    ∷ moves manager
    ∷ moves k8s_proxy
    ∷ sync_moves
    ∷ signals
    ∷ []

-- Both servers wait, serve, and are closed.
abbrev serving_down : List Event
serving_down =
    signals
    ∷ main_moves
    ∷ returns manager true
    ∷ moves api_server
    ∷ moves api_server
    ∷ moves api_server
    ∷ listener_returns api_server true
    ∷ returns api_server true
    ∷ moves k8s_proxy
    ∷ moves k8s_proxy
    ∷ signals
    ∷ moves k8s_proxy
    ∷ moves k8s_proxy
    ∷ returns k8s_proxy true
    ∷ []

abbrev all_events : List Event
all_events = starting_up ++ main_moves ∷ (serving_down ++ main_moves ∷ [])

abbrev up : Process
unfolding run
up = process_of (run here starting_up start)

abbrev signalled_up : Process
unfolding run
signalled_up = process_of (run here (main_moves ∷ []) up)

abbrev down : Process
unfolding run
down = process_of (run here serving_down signalled_up)

starts_up : Run here start starting_up (goes_on up)
unfolding run step program get_nm_api_config get_wire_guard_interface_ip get_env_int atoi
    start_k8s_proxy
starts_up = run-Run here starting_up start refl

goes_down : Run here signalled_up serving_down (goes_on down)
unfolding run step program get_nm_api_config get_wire_guard_interface_ip get_env_int atoi
    start_k8s_proxy
goes_down = run-Run here serving_down signalled_up refl

comes_down : Run here start (starting_up ++ main_moves ∷ serving_down) (goes_on down)
unfolding run step program get_nm_api_config get_wire_guard_interface_ip get_env_int atoi
    start_k8s_proxy
comes_down = run-Run here (starting_up ++ main_moves ∷ serving_down) start refl

is_down : step here main_moves down ≡ some (ends returned)
unfolding run step program get_nm_api_config get_wire_guard_interface_ip get_env_int atoi
    start_k8s_proxy
is_down = refl

stops_here : Run here start all_events (ends returned)
unfolding run step program get_nm_api_config get_wire_guard_interface_ip get_env_int atoi
    start_k8s_proxy
stops_here = run-Run here all_events start refl

has_signal : IsSignalled up
unfolding run step program get_nm_api_config get_wire_guard_interface_ip get_env_int atoi
    start_k8s_proxy
has_signal = inl (omega arith)

is_past_here : is_past signalled_up.main ≡ true
unfolding run step program get_nm_api_config get_wire_guard_interface_ip get_env_int atoi
    start_k8s_proxy
is_past_here = refl

takes_signal : Run here up (main_moves ∷ serving_down) (goes_on down)
unfolding run step program get_nm_api_config get_wire_guard_interface_ip get_env_int atoi
    start_k8s_proxy
takes_signal = run-Run here (main_moves ∷ serving_down) up refl

serves_here :
    start_k8s_proxy none from_file parse operator_env nothing_seen
    ≡ serving
        (proxy_server none from_file parse operator_env nothing_seen cluster "https://10.0.0.1")
unfolding start_k8s_proxy
serves_here = refl

returned-slept_search_example :
    (slept here api_server all_events start ≡ search_waits operator_env nothing_seen)
    × (slept here k8s_proxy all_events start
        ≡ seconds (pos 5) ∷ search_waits operator_env nothing_seen)
returned-slept_search_example =
    returned-slept_search operator_env (λ _. nothing_seen) none from_file parse refl refl refl
      serves_here stops_here

Run-Explains_example : Explains here down main_moves returned
Run-Explains_example = Run-Explains here main_moves comes_down is_down

shutdown_ends_example :
    (endings (main_moves ∷ serving_down) ≤ events_left here up) × NotStuck here (goes_on down)
shutdown_ends_example = shutdown_ends here (goes_on down) starts_up has_signal takes_signal

Run-without_signals_example :
    Run here (with_quit 0 signalled_up) (without_signals serving_down) (goes_on (with_quit 0 down))
Run-without_signals_example = Run-without_signals here 0 is_past_here goes_down

-- With nothing configured and no interface that fits, the 19 waits of a search are 435 seconds.
default_waits :
    search_waits (λ name. "") nothing_seen
    ≡ map seconds (
        map pos (
          3 ∷ 6 ∷ 9 ∷ 12 ∷ 15 ∷ 18 ∷ 21 ∷ 24 ∷ 27 ∷ 30 ∷ 30 ∷ 30 ∷ 30 ∷ 30 ∷ 30 ∷ 30 ∷ 30 ∷ 30 ∷ 30
          ∷ []))
unfolding get_wire_guard_interface_ip get_env_int seconds
default_waits = refl
