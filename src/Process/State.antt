-- ===== src/Process/State.antt =====
-- cmd/main.go, internal/proxy/proxy.go and internal/proxy/api.go: the state of the running operator, and
-- the events that change it.
use netmaker_k8s_ops.Base.{ℕ, Bool, true, false, List, ℤ, if◌then◌else◌}
use netmaker_k8s_ops.Proxy.Users.{ExternalApiConfig}
use netmaker_k8s_ops.Setup.{Goroutine, api_server, k8s_proxy, manager}

-- What a goroutine does before it serves: wait, start the synchronisation, or exit with status 1.
pub data Stage : Type 0 where
  sleep : ℤ → Stage
  go_sync : Stage
  exit : Stage

-- Where `main` stands, once the manager is set up.
pub data MainPc : Type 0 where
  begins : MainPc
  starts_proxy : MainPc
  starts_manager : MainPc
  notifies : MainPc
  waits : MainPc
  cancels : MainPc
  joins : MainPc

-- Where a goroutine of `main` stands. `running` is `<-ctx.Done()` of a server and `mgr.Start` of the
-- manager; `closing` is `srv.Shutdown`.
pub data Pc : Type 0 where
  unstarted : Pc
  preparing : List Stage → Pc
  running : Pc
  closing : Pc
  done : Pc

-- Where `startExternalAPISync` stands.
pub data SyncPc : Type 0 where
  off : SyncPc
  starting : SyncPc
  fetching : SyncPc
  selecting : SyncPc
  stopped : SyncPc

-- `counter` is that of the WaitGroup, and `quit` the number of signals in the channel. `listens` says
-- for each server that the goroutine with its `ListenAndServe` is there.
pub record Process : Type 0 where
  pub main : MainPc
  pub counter : ℕ
  pub cancelled : Bool
  pub quit : ℕ
  pub pc : Goroutine → Pc
  pub listens : Goroutine → Bool
  pub sync : SyncPc

pub data Ending : Type 0 where
  returned : Ending
  exited_1 : Ending
  panicked : Ending
  killed : Ending

pub data Outcome : Type 0 where
  goes_on : Process → Outcome
  ends : Ending → Outcome

-- A step of `main`, of a goroutine or of the synchronisation; the return of `srv.Shutdown` or of
-- `mgr.Start`, with or without an error; the return of `ListenAndServe`, with `http.ErrServerClosed`
-- or with another error; a tick; SIGINT or SIGTERM.
pub data Event : Type 0 where
  main_moves : Event
  moves : Goroutine → Event
  returns : Goroutine → Bool → Event
  listener_returns : Goroutine → Bool → Event
  sync_moves : Event
  ticks : Event
  signals : Event

pub record Program : Type 0 where
  pub proxy_enabled : Bool
  pub stages : Goroutine → List Stage
  pub api_config : ExternalApiConfig

abbrev pub same : Goroutine → Goroutine → Bool
same api_server api_server = true
same k8s_proxy k8s_proxy = true
same manager manager = true
same api_server k8s_proxy = false
same api_server manager = false
same k8s_proxy api_server = false
same k8s_proxy manager = false
same manager api_server = false
same manager k8s_proxy = false

abbrev pub set {ℓ} : {A : Type ℓ} → (Goroutine → A) → Goroutine → A → Goroutine → A
set f g v h = if same g h then v else f h

abbrev pub is_server : Goroutine → Bool
is_server api_server = true
is_server k8s_proxy = true
is_server manager = false

abbrev pub start : Process
start = record {
  main = begins;
  counter = 0;
  cancelled = false;
  quit = 0;
  pc = λ _. unstarted;
  listens = λ _. false;
  sync = off;
}
