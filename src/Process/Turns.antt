-- ===== src/Process/Turns.antt =====
-- On cmd/main.go, internal/proxy/proxy.go and internal/proxy/api.go.
-- What an event does to a process that goes on, with what it needs.
use netmaker_k8s_ops.Base.{
  ℕ, ◌-◌, ◌<◌, ◌≤◌, ◌≡◌, refl, ◌⊎◌, inl, inr, Bool, true, false, Option, none, some, List, [], ◌∷◌,
  ltb, if◌then◌else◌, arith, subst, is_positive,
}
use netmaker_k8s_ops.Proxy.Users.{ExternalApiConfig, is_configured}
use netmaker_k8s_ops.Setup.{Goroutine, api_server, k8s_proxy, manager}
use netmaker_k8s_ops.Process.State.{
  Stage, sleep, go_sync, exit, MainPc, begins, starts_proxy, starts_manager, notifies, waits,
  cancels, joins, Pc, unstarted, preparing, running, closing, done, SyncPc, off, starting, fetching,
  selecting, stopped, Process, Outcome, goes_on, ends, Event, main_moves, moves, returns,
  listener_returns, sync_moves, ticks, signals, Program, set, is_server,
}
use netmaker_k8s_ops.Process.{
  step, spawn, is_notified, main_move, move, finish, return_from, listener_return, start_sync,
  sync_move, tick, signal,
}

-- An event of the synchronisation.
pub data IsSync : Event → Type 0 where
  by_sync : IsSync sync_moves
  by_tick : IsSync ticks

module _ (p : Program) (s : Process) where
  -- Where a goroutine of `main` ends: a server after `srv.Shutdown`, the manager after `mgr.Start`.
  abbrev pub AtEnd : Goroutine → Type 0
  AtEnd g = (s.pc g ≡ closing) ⊎ ((s.pc g ≡ running) × (is_server g ≡ false))

  pub data Turn : Event → Process → Type 0 where
    branch :
        s.main ≡ begins
        → p.proxy_enabled ≡ true
        → Turn main_moves (spawn p api_server (record s { main = starts_proxy }))
    skip :
        s.main ≡ begins
        → p.proxy_enabled ≡ false
        → Turn main_moves (record s { main = starts_manager })
    spawn_proxy :
        s.main ≡ starts_proxy
        → Turn main_moves (spawn p k8s_proxy (record s { main = starts_manager }))
    spawn_manager :
        s.main ≡ starts_manager → Turn main_moves (spawn p manager (record s { main = notifies }))
    notify : s.main ≡ notifies → Turn main_moves (record s { main = waits })
    take :
        s.main ≡ waits
        → 0 < s.quit
        → Turn main_moves (record s { main = cancels; quit = s.quit - 1 })
    cancel : s.main ≡ cancels → Turn main_moves (record s { main = joins; cancelled = true })
    prepare :
        (g : Goroutine) (stage : Stage) (rest : List Stage) (y : SyncPc)
        → s.pc g ≡ preparing (stage ∷ rest)
        → Turn (moves g) (record s { pc = set s.pc g (preparing rest); sync = y })
    serve :
        (g : Goroutine)
        → s.pc g ≡ preparing []
        → Turn
            (moves g)
            (record s { pc = set s.pc g running; listens = set s.listens g (is_server g) })
    close :
        (g : Goroutine)
        → s.pc g ≡ running
        → is_server g ≡ true
        → s.cancelled ≡ true
        → Turn (moves g) (record s { pc = set s.pc g closing })
    wg_done :
        (g : Goroutine) (ok : Bool)
        → AtEnd g
        → 0 < s.counter
        → Turn (returns g ok) (record s { counter = s.counter - 1; pc = set s.pc g done })
    unlisten :
        (g : Goroutine) (closed : Bool)
        → s.listens g ≡ true
        → Turn (listener_returns g closed) (record s { listens = set s.listens g false })
    sync_turn : {e : Event} (y : SyncPc) → IsSync e → Turn e (record s { sync = y })
    signalled :
        (n : ℕ) → s.quit ≤ n → is_notified s.main ≡ true → Turn signals (record s { quit = n })

  -- What a call for the next process gives.
  abbrev Gives : Event → Option Outcome → Type 0
  Gives e none = Unit
  Gives e (some (goes_on t)) = Turn e t
  Gives e (some (ends x)) = Unit

  Gives-if :
      (e : Event) (x y : Option Outcome) (b : Bool)
      → (b ≡ true → Gives e x)
      → (b ≡ false → Gives e y)
      → Gives e (if b then x else y)
  Gives-if e x y true h k = h refl
  Gives-if e x y false h k = k refl

  main_move-Gives : (m : MainPc) → s.main ≡ m → Gives main_moves (main_move p m s)
  unfolding main_move
  main_move-Gives begins at = Gives-if _ _ _ p.proxy_enabled (branch at) (skip at)
  main_move-Gives starts_proxy at = spawn_proxy at
  main_move-Gives starts_manager at = spawn_manager at
  main_move-Gives notifies at = notify at
  main_move-Gives waits at =
      Gives-if _ _ _ (ltb 0 s.quit) (λ more. take at (ground arith)) (λ none_left. tt)
  main_move-Gives cancels at = cancel at
  main_move-Gives joins at = Gives-if _ _ _ (ltb 0 s.counter) (λ more. tt) (λ none_left. tt)

  move-Gives : (g : Goroutine) (x : Pc) → s.pc g ≡ x → Gives (moves g) (move g x s)
  unfolding move
  move-Gives g unstarted at = tt
  move-Gives g (preparing (sleep d ∷ rest)) at = prepare g (sleep d) rest s.sync at
  move-Gives g (preparing (go_sync ∷ rest)) at = prepare g go_sync rest starting at
  move-Gives g (preparing (exit ∷ rest)) at = tt
  move-Gives g (preparing []) at = serve g at
  move-Gives g running at =
      Gives-if _ _ _ (is_server g)
        (λ server. Gives-if _ _ _ s.cancelled (close g at server) (λ still. tt)) (λ other. tt)
  move-Gives g closing at = tt
  move-Gives g done at = tt

  finish-Gives : (g : Goroutine) (ok : Bool) → AtEnd g → Gives (returns g ok) (finish g s)
  unfolding finish
  finish-Gives g ok at =
      Gives-if _ _ _ (ltb 0 s.counter) (λ more. wg_done g ok at (ground arith)) (λ none_left. tt)

  return_from-Gives :
      (g : Goroutine) (ok : Bool) (x : Pc)
      → s.pc g ≡ x
      → Gives (returns g ok) (return_from g ok x s)
  unfolding return_from
  return_from-Gives g ok unstarted at = tt
  return_from-Gives g ok (preparing l) at = tt
  return_from-Gives g ok running at =
      Gives-if _ _ _ (is_server g) (λ server. tt)
        (λ other. Gives-if _ _ _ ok (λ fine. finish-Gives g ok (inr (at, other))) (λ error. tt))
  return_from-Gives g ok closing at = finish-Gives g ok (inl at)
  return_from-Gives g ok done at = tt

  listener_return-Gives :
      (g : Goroutine) (closed : Bool)
      → Gives (listener_returns g closed) (listener_return g closed s)
  unfolding listener_return
  listener_return-Gives g closed =
      Gives-if _ _ _ (s.listens g)
        (λ there. Gives-if _ _ _ closed (λ by_shutdown. unlisten g closed there) (λ error. tt))
        (λ absent. tt)

  start_sync-Gives : (config : ExternalApiConfig) → Gives sync_moves (start_sync config s)
  unfolding start_sync
  start_sync-Gives config =
      Gives-if _ _ _ (is_configured config)
        (λ on.
          Gives-if _ _ _ (is_positive config.sync_interval) (λ _. sync_turn fetching by_sync)
            (λ negative. tt))
        (λ unset. sync_turn stopped by_sync)

  sync_move-Gives : (x : SyncPc) → Gives sync_moves (sync_move p.api_config x s)
  unfolding sync_move
  sync_move-Gives off = tt
  sync_move-Gives starting = start_sync-Gives p.api_config
  sync_move-Gives fetching = sync_turn selecting by_sync
  sync_move-Gives selecting =
      Gives-if _ _ _ s.cancelled (λ on. sync_turn stopped by_sync) (λ still. tt)
  sync_move-Gives stopped = tt

  tick-Gives : (x : SyncPc) → Gives ticks (tick x s)
  unfolding tick
  tick-Gives off = tt
  tick-Gives starting = tt
  tick-Gives fetching = tt
  tick-Gives selecting = sync_turn fetching by_tick
  tick-Gives stopped = tt

  signal-Gives : Gives signals (signal s)
  unfolding signal
  signal-Gives = Gives-if _ _ _ (is_notified s.main) (signalled _ (ground arith)) (λ early. tt)

  step-Gives : (e : Event) → Gives e (step p e s)
  unfolding step
  step-Gives main_moves = main_move-Gives s.main refl
  step-Gives (moves g) = move-Gives g (s.pc g) refl
  step-Gives (returns g ok) = return_from-Gives g ok (s.pc g) refl
  step-Gives (listener_returns g closed) = listener_return-Gives g closed
  step-Gives sync_moves = sync_move-Gives s.sync
  step-Gives ticks = tick-Gives s.sync
  step-Gives signals = signal-Gives

  pub step-Turn : {e : Event} {t : Process} → step p e s ≡ some (goes_on t) → Turn e t
  step-Turn {e} q = subst (Gives e) q (step-Gives e)
