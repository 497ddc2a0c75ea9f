-- ===== src/Process/Endings.antt =====
-- On cmd/main.go.
-- How the process ends.
use netmaker_k8s_ops.Base.{
  ◌<◌, ◌≡◌, refl, ap, sym, subst, Bool, true, false, Option, none, some, List, [], ◌∷◌, ltb, arith,
  if◌then◌else◌, is_positive,
}
use netmaker_k8s_ops.Proxy.Users.{is_configured}
use netmaker_k8s_ops.Setup.{Goroutine, api_server, k8s_proxy, manager}
use netmaker_k8s_ops.Process.State.{
  Stage, sleep, go_sync, exit, MainPc, begins, starts_proxy, starts_manager, notifies, waits,
  cancels, joins, Pc, unstarted, preparing, running, closing, done, SyncPc, off, starting, fetching,
  selecting, stopped, Process, Ending, returned, exited_1, panicked, killed, Outcome, goes_on, ends,
  Event, main_moves, moves, returns, listener_returns, sync_moves, ticks, signals, Program, start,
  is_server,
}
use netmaker_k8s_ops.Process.{
  step, is_notified, main_move, move, finish, return_from, listener_return, start_sync, sync_move,
  tick, signal, Run,
}
use netmaker_k8s_ops.Process.Counting.{
  live, total, is_started, IsCounted, start-IsCounted, Run-IsCounted,
}

module _ (p : Program) where
  -- `main` has taken a signal and cancelled the context, and every goroutine that it starts has
  -- called `wg.Done()`.
  pub record IsFinished (s : Process) : Type 0 where
    pub joining : s.main ≡ joins
    pub cancelled : s.cancelled ≡ true
    pub manager_done : s.pc manager ≡ done
    pub server_done :
        (g : Goroutine)
        → is_server g ≡ true
        → s.pc g ≡ (if p.proxy_enabled then done else unstarted)

  -- Why the process exits with status 1.
  pub data Exits (s : Process) : Event → Type 0 where
    bad_config :
        (g : Goroutine) {rest : List Stage} → s.pc g ≡ preparing (exit ∷ rest) → Exits s (moves g)
    listener_error : (g : Goroutine) → s.listens g ≡ true → Exits s (listener_returns g false)
    manager_error :
        (g : Goroutine) → is_server g ≡ false → s.pc g ≡ running → Exits s (returns g false)

  abbrev pub Explains : Process → Event → Ending → Type 0
  Explains s e returned = (e ≡ main_moves) × IsFinished s
  Explains s e exited_1 = Exits s e
  Explains s e panicked =
      (e ≡ sync_moves)
      × (s.sync ≡ starting)
      × (is_configured p.api_config ≡ true)
      × (is_positive p.api_config.sync_interval ≡ false)
  Explains s e killed = (e ≡ signals) × (is_notified s.main ≡ false)

  abbrev Ended : Process → Event → Option Outcome → Type 0
  Ended s e none = Unit
  Ended s e (some (goes_on t)) = Unit
  Ended s e (some (ends x)) = Explains s e x

  Ended-if :
      (s : Process) (e : Event) (x y : Option Outcome) (b : Bool)
      → (b ≡ true → Ended s e x)
      → (b ≡ false → Ended s e y)
      → Ended s e (if b then x else y)
  Ended-if s e x y true h k = h refl
  Ended-if s e x y false h k = k refl

  done_of : (x : Pc) → is_started x ≡ true → live x ≡ 0 → x ≡ done
  done_of x h k = ground arith

  unstarted_of : (x : Pc) → is_started x ≡ false → x ≡ unstarted
  unstarted_of x h = ground arith

  server-done :
      (s : Process) (g : Goroutine)
      → is_started (s.pc g) ≡ p.proxy_enabled
      → live (s.pc g) ≡ 0
      → s.pc g ≡ (if p.proxy_enabled then done else unstarted)
  server-done s g h k = ground (arith, done_of (s.pc g), unstarted_of (s.pc g))

  IsCounted-IsFinished :
      (s : Process) → IsCounted p s → s.main ≡ joins → ltb 0 s.counter ≡ false → IsFinished s
  IsCounted-IsFinished s h at none_left =
      let empty : total live s.pc ≡ 0 = ground (arith, h.counted) in
      record {
        joining = at;
        cancelled = ground (arith, h.cancelling);
        manager_done = done_of (s.pc manager) (ground (arith, h.started manager)) (omega arith);
        server_done = λ g server. server-done s g (ground (arith, h.started g)) (ground arith);
      }

  main_move-Ended :
      (s : Process) (m : MainPc) → IsCounted p s → s.main ≡ m → Ended s main_moves (main_move p m s)
  unfolding main_move
  main_move-Ended s begins h at = Ended-if _ _ _ _ p.proxy_enabled (λ _. tt) (λ _. tt)
  main_move-Ended s starts_proxy h at = tt
  main_move-Ended s starts_manager h at = tt
  main_move-Ended s notifies h at = tt
  main_move-Ended s waits h at = Ended-if _ _ _ _ (ltb 0 s.quit) (λ _. tt) (λ _. tt)
  main_move-Ended s cancels h at = tt
  main_move-Ended s joins h at =
      Ended-if _ _ _ _ (ltb 0 s.counter) (λ _. tt)
        (λ none_left. (refl, IsCounted-IsFinished s h at none_left))

  move-Ended : (s : Process) (g : Goroutine) (x : Pc) → s.pc g ≡ x → Ended s (moves g) (move g x s)
  unfolding move
  move-Ended s g unstarted at = tt
  move-Ended s g (preparing (sleep d ∷ rest)) at = tt
  move-Ended s g (preparing (go_sync ∷ rest)) at = tt
  move-Ended s g (preparing (exit ∷ rest)) at = bad_config g at
  move-Ended s g (preparing []) at = tt
  move-Ended s g running at =
      Ended-if _ _ _ _ (is_server g) (λ _. Ended-if _ _ _ _ s.cancelled (λ _. tt) (λ _. tt))
        (λ _. tt)
  move-Ended s g closing at = tt
  move-Ended s g done at = tt

  live_le : (f : Goroutine → Pc) (g : Goroutine) → live (f g) ≡ 1 → 0 < total live f
  live_le f api_server h = omega arith
  live_le f k8s_proxy h = omega arith
  live_le f manager h = omega arith

  -- The counter is never made negative.
  finish-Ended :
      (s : Process) (g : Goroutine) (ok : Bool)
      → IsCounted p s
      → live (s.pc g) ≡ 1
      → Ended s (returns g ok) (finish g s)
  unfolding finish
  finish-Ended s g ok h alive =
      Ended-if _ _ _ _ (ltb 0 s.counter) (λ _. tt)
        (λ none_left. absurd (ground (arith, h.counted, live_le s.pc g alive)))

  return_from-Ended :
      (s : Process) (g : Goroutine) (ok : Bool) (x : Pc)
      → IsCounted p s
      → s.pc g ≡ x
      → Ended s (returns g ok) (return_from g ok x s)
  unfolding return_from
  return_from-Ended s g ok unstarted h at = tt
  return_from-Ended s g ok (preparing l) h at = tt
  return_from-Ended s g ok running h at =
      Ended-if _ _ _ _ (is_server g) (λ _. tt)
        (λ other.
          Ended-if _ _ _ _ ok (λ _. finish-Ended s g ok h (ap live at))
            (λ error. subst (λ b. Exits s (returns g b)) (sym error) (manager_error g other at)))
  return_from-Ended s g ok closing h at = finish-Ended s g ok h (ap live at)
  return_from-Ended s g ok done h at = tt

  listener_return-Ended :
      (s : Process) (g : Goroutine) (closed : Bool)
      → Ended s (listener_returns g closed) (listener_return g closed s)
  unfolding listener_return
  listener_return-Ended s g closed =
      Ended-if _ _ _ _ (s.listens g)
        (λ there.
          Ended-if _ _ _ _ closed (λ _. tt)
            (λ error.
              subst (λ b. Exits s (listener_returns g b)) (sym error) (listener_error g there)))
        (λ _. tt)

  sync_move-Ended :
      (s : Process) (x : SyncPc) → s.sync ≡ x → Ended s sync_moves (sync_move p.api_config x s)
  unfolding sync_move start_sync
  sync_move-Ended s off at = tt
  sync_move-Ended s starting at =
      Ended-if _ _ _ _ (is_configured p.api_config)
        (λ on.
          Ended-if _ _ _ _ (is_positive p.api_config.sync_interval) (λ _. tt)
            (λ negative. (refl, at, on, negative)))
        (λ _. tt)
  sync_move-Ended s fetching at = tt
  sync_move-Ended s selecting at = Ended-if _ _ _ _ s.cancelled (λ _. tt) (λ _. tt)
  sync_move-Ended s stopped at = tt

  tick-Ended : (s : Process) (x : SyncPc) → Ended s ticks (tick x s)
  unfolding tick
  tick-Ended s off = tt
  tick-Ended s starting = tt
  tick-Ended s fetching = tt
  tick-Ended s selecting = tt
  tick-Ended s stopped = tt

  signal-Ended : (s : Process) → Ended s signals (signal s)
  unfolding signal
  signal-Ended s = Ended-if _ _ _ _ (is_notified s.main) (λ _. tt) (λ early. (refl, early))

  step-Ended : (s : Process) (e : Event) → IsCounted p s → Ended s e (step p e s)
  unfolding step
  step-Ended s main_moves h = main_move-Ended s s.main h refl
  step-Ended s (moves g) h = move-Ended s g (s.pc g) refl
  step-Ended s (returns g ok) h = return_from-Ended s g ok (s.pc g) h refl
  step-Ended s (listener_returns g closed) h = listener_return-Ended s g closed
  step-Ended s sync_moves h = sync_move-Ended s s.sync refl
  step-Ended s ticks h = tick-Ended s s.sync
  step-Ended s signals h = signal-Ended s

  pub step-Explains :
      (s : Process) (e : Event) {x : Ending}
      → IsCounted p s
      → step p e s ≡ some (ends x)
      → Explains s e x
  step-Explains s e h now = subst (Ended s e) now (step-Ended s e h)

  -- However the events fall, the process ends for one of four reasons.
  pub Run-Explains :
      {es : List Event} {s : Process} (e : Event) {x : Ending}
      → Run p start es (goes_on s)
      → step p e s ≡ some (ends x)
      → Explains s e x
  Run-Explains {es} {s} e r now = step-Explains s e (Run-IsCounted p r (start-IsCounted p)) now
