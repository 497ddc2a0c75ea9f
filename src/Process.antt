-- ===== src/Process.antt =====
-- cmd/main.go, internal/proxy/proxy.go and internal/proxy/api.go: the running operator, from the first
-- goroutine that `main` starts to the end of the process. When a call of a library returns, and with
-- what, is an event.
pub mod State
mod Turns
pub mod Operator
mod Counting
pub mod Endings
mod Bound
pub mod Shutdown
pub mod Sleeps
pub mod Signals
mod Examples
use netmaker_k8s_ops.Base.{
  ℕ, zero, suc, ◌+◌, ◌-◌, String, ◌==◌, ◌≡◌, Bool, true, false, not, Option, none, some, List, [],
  ◌∷◌, map, Env, ℤ, seconds, pos, ltb, is_positive, if◌then◌else◌,
}
use netmaker_k8s_ops.Proxy.Users.{ExternalApiConfig, is_configured}
use netmaker_k8s_ops.Proxy.Config.{get_nm_api_config}
use netmaker_k8s_ops.Proxy.Interfaces.{Interface, get_wire_guard_interface_ip}
use netmaker_k8s_ops.Proxy.Server.{ClusterConfig, Start, exited, serving, start_k8s_proxy}
use netmaker_k8s_ops.Setup.{Goroutine, api_server, k8s_proxy, manager}
use netmaker_k8s_ops.Process.State.{
  Stage, MainPc, Pc, SyncPc, Process, Ending, Outcome, Event, Program, same, set, is_server, start,
  sleep, go_sync, exit, begins, starts_proxy, starts_manager, notifies, waits, cancels, joins,
  unstarted, preparing, running, closing, done, off, starting, fetching, selecting, stopped,
  returned, exited_1, panicked, killed, goes_on, ends, main_moves, moves, returns, listener_returns,
  sync_moves, ticks, signals,
}

-- `wg.Add(1)` and `go`.
abbrev pub spawn : Program → Goroutine → Process → Process
spawn p g s = record s { counter = s.counter + 1; pc = set s.pc g (preparing (p.stages g)) }

unfoldable pub main_move : Program → MainPc → Process → Option Outcome
main_move p begins s =
    if p.proxy_enabled
    then some (goes_on (spawn p api_server (record s { main = starts_proxy })))
    else some (goes_on (record s { main = starts_manager }))
main_move p starts_proxy s = some (goes_on (spawn p k8s_proxy (record s { main = starts_manager })))
main_move p starts_manager s = some (goes_on (spawn p manager (record s { main = notifies })))
main_move p notifies s = some (goes_on (record s { main = waits }))
main_move p waits s =
    if ltb 0 s.quit then some (goes_on (record s { main = cancels; quit = s.quit - 1 })) else none
main_move p cancels s = some (goes_on (record s { main = joins; cancelled = true }))
main_move p joins s = if ltb 0 s.counter then none else some (ends returned)

-- `wg.Done()`, which panics where it makes the counter negative.
unfoldable pub finish : Goroutine → Process → Option Outcome
finish g s =
    if ltb 0 s.counter
    then some (goes_on (record s { counter = s.counter - 1; pc = set s.pc g done }))
    else some (ends panicked)

unfoldable pub move : Goroutine → Pc → Process → Option Outcome
move g unstarted s = none
move g (preparing (sleep d ∷ rest)) s =
    some (goes_on (record s { pc = set s.pc g (preparing rest) }))
move g (preparing (go_sync ∷ rest)) s =
    some (goes_on (record s { pc = set s.pc g (preparing rest); sync = starting }))
move g (preparing (exit ∷ rest)) s = some (ends exited_1)
move g (preparing []) s =
    some (goes_on (record s { pc = set s.pc g running; listens = set s.listens g (is_server g) }))
move g running s =
    if is_server g
    then if s.cancelled then some (goes_on (record s { pc = set s.pc g closing })) else none
    else none
move g closing s = none
move g done s = none

-- Both ends of `srv.Shutdown` are only logged; an error of `mgr.Start` exits.
unfoldable pub return_from : Goroutine → Bool → Pc → Process → Option Outcome
unfolding finish
return_from g ok unstarted s = none
return_from g ok (preparing _) s = none
return_from g ok running s =
    if is_server g then none else if ok then finish g s else some (ends exited_1)
return_from g ok closing s = finish g s
return_from g ok done s = none

unfoldable pub listener_return : Goroutine → Bool → Process → Option Outcome
listener_return g closed s =
    if s.listens g
    then if closed
      then some (goes_on (record s { listens = set s.listens g false }))
      else some (ends exited_1)
    else none

-- `time.NewTicker` panics at an interval that is not positive.
unfoldable pub start_sync : ExternalApiConfig → Process → Option Outcome
start_sync config s =
    if is_configured config
    then if is_positive config.sync_interval
      then some (goes_on (record s { sync = fetching }))
      else some (ends panicked)
    else some (goes_on (record s { sync = stopped }))

unfoldable pub sync_move : ExternalApiConfig → SyncPc → Process → Option Outcome
unfolding start_sync
sync_move config off s = none
sync_move config starting s = start_sync config s
sync_move config fetching s = some (goes_on (record s { sync = selecting }))
sync_move config selecting s =
    if s.cancelled then some (goes_on (record s { sync = stopped })) else none
sync_move config stopped s = none

unfoldable pub tick : SyncPc → Process → Option Outcome
tick off s = none
tick starting s = none
tick fetching s = none
tick selecting s = some (goes_on (record s { sync = fetching }))
tick stopped s = none

abbrev pub is_notified : MainPc → Bool
is_notified begins = false
is_notified starts_proxy = false
is_notified starts_manager = false
is_notified notifies = false
is_notified waits = true
is_notified cancels = true
is_notified joins = true

-- The channel holds two signals; one that finds it full is lost.
unfoldable pub signal : Process → Option Outcome
signal s =
    if is_notified s.main
    then some (goes_on (record s { quit = if ltb s.quit 2 then s.quit + 1 else s.quit }))
    else some (ends killed)

-- `none` where the event cannot happen.
unfoldable pub step : Program → Event → Process → Option Outcome
unfolding main_move move return_from listener_return sync_move tick signal
step p main_moves s = main_move p s.main s
step p (moves g) s = move g (s.pc g) s
step p (returns g ok) s = return_from g ok (s.pc g) s
step p (listener_returns g closed) s = listener_return g closed s
step p sync_moves s = sync_move p.api_config s.sync s
step p ticks s = tick s.sync s
step p signals s = signal s

-- Events in their order, and what they make of a process.
pub data Run (p : Program) : Process → List Event → Outcome → Type 0 where
  stop : {s : Process} → Run p s [] (goes_on s)
  last :
      {s : Process} {e : Event} {x : Ending}
      → step p e s ≡ some (ends x)
      → Run p s (e ∷ []) (ends x)
  go :
      {s t : Process} {e : Event} {es : List Event} {o : Outcome}
      → step p e s ≡ some (goes_on t)
      → Run p t es o
      → Run p s (e ∷ es) o
