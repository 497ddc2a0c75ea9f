-- ===== src/Process/Signals.antt =====
-- On cmd/main.go.
-- Signals after the first.
use netmaker_k8s_ops.Base.{
  ℕ, ◌+◌, ◌≡◌, refl, ap, subst, ◌∙◌, Bool, true, false, Option, none, some, List, [], ◌∷◌, arith,
  ltb, is_positive, if◌then◌else◌, inl, inr, Bool-cases,
}
use netmaker_k8s_ops.Proxy.Users.{ExternalApiConfig, is_configured}
use netmaker_k8s_ops.Setup.{Goroutine}
use netmaker_k8s_ops.Process.State.{
  sleep, go_sync, exit, MainPc, begins, starts_proxy, starts_manager, notifies, waits, cancels,
  joins, Pc, unstarted, preparing, running, closing, done, SyncPc, off, starting, fetching,
  selecting, stopped, Process, Outcome, goes_on, ends, Event, main_moves, moves, returns,
  listener_returns, sync_moves, ticks, signals, Program, is_server,
}
use netmaker_k8s_ops.Process.{
  step, is_notified, main_move, move, finish, return_from, listener_return, start_sync, sync_move,
  tick, signal, Run, stop, last, go,
}
use netmaker_k8s_ops.Process.Turns.{
  Turn, branch, skip, spawn_proxy, spawn_manager, notify, take, cancel, prepare, serve, close,
  wg_done, unlisten, sync_turn, signalled, step-Turn,
}

-- `main` has taken a signal.
abbrev pub is_past : MainPc → Bool
is_past begins = false
is_past starts_proxy = false
is_past starts_manager = false
is_past notifies = false
is_past waits = false
is_past cancels = true
is_past joins = true

-- The same process with another number of signals in the channel.
abbrev pub with_quit : ℕ → Process → Process
with_quit n s = record s { quit = n }

abbrev pub with_quit_outcome : ℕ → Outcome → Outcome
with_quit_outcome n (goes_on t) = goes_on (with_quit n t)
with_quit_outcome n (ends x) = ends x

abbrev pub is_signal : Event → Bool
is_signal main_moves = false
is_signal (moves g) = false
is_signal (returns g ok) = false
is_signal (listener_returns g closed) = false
is_signal sync_moves = false
is_signal ticks = false
is_signal signals = true

abbrev pub without_signals : List Event → List Event
without_signals [] = []
without_signals (e ∷ es) = if is_signal e then without_signals es else e ∷ without_signals es

abbrev requit : ℕ → Option Outcome → Option Outcome
requit n none = none
requit n (some o) = some (with_quit_outcome n o)

requit_if :
    (n : ℕ) (b : Bool) (x y x' y' : Option Outcome)
    → x' ≡ requit n x
    → y' ≡ requit n y
    → (if b then x' else y') ≡ requit n (if b then x else y)
requit_if n true x y x' y' h k = h
requit_if n false x y x' y' h k = k

module _ (p : Program) (n : ℕ) (s : Process) where
  main_move-requit :
      (m : MainPc) → is_past m ≡ true → main_move p m (with_quit n s) ≡ requit n (main_move p m s)
  unfolding main_move
  main_move-requit begins past = cc
  main_move-requit starts_proxy past = cc
  main_move-requit starts_manager past = cc
  main_move-requit notifies past = cc
  main_move-requit waits past = cc
  main_move-requit cancels past = refl
  main_move-requit joins past = requit_if n (ltb 0 s.counter) _ _ _ _ refl refl

  move-requit : (g : Goroutine) (x : Pc) → move g x (with_quit n s) ≡ requit n (move g x s)
  unfolding move
  move-requit g unstarted = refl
  move-requit g (preparing (sleep d ∷ rest)) = refl
  move-requit g (preparing (go_sync ∷ rest)) = refl
  move-requit g (preparing (exit ∷ rest)) = refl
  move-requit g (preparing []) = refl
  move-requit g running =
      requit_if n (is_server g) _ _ _ _ (requit_if n s.cancelled _ _ _ _ refl refl) refl
  move-requit g closing = refl
  move-requit g done = refl

  finish-requit : (g : Goroutine) → finish g (with_quit n s) ≡ requit n (finish g s)
  unfolding finish
  finish-requit g = requit_if n (ltb 0 s.counter) _ _ _ _ refl refl

  return_from-requit :
      (g : Goroutine) (ok : Bool) (x : Pc)
      → return_from g ok x (with_quit n s) ≡ requit n (return_from g ok x s)
  unfolding return_from
  return_from-requit g ok unstarted = refl
  return_from-requit g ok (preparing l) = refl
  return_from-requit g ok running =
      requit_if n (is_server g) _ _ _ _ refl (requit_if n ok _ _ _ _ (finish-requit g) refl)
  return_from-requit g ok closing = finish-requit g
  return_from-requit g ok done = refl

  listener_return-requit :
      (g : Goroutine) (closed : Bool)
      → listener_return g closed (with_quit n s) ≡ requit n (listener_return g closed s)
  unfolding listener_return
  listener_return-requit g closed =
      requit_if n (s.listens g) _ _ _ _ (requit_if n closed _ _ _ _ refl refl) refl

  sync_move-requit :
      (config : ExternalApiConfig) (x : SyncPc)
      → sync_move config x (with_quit n s) ≡ requit n (sync_move config x s)
  unfolding sync_move start_sync
  sync_move-requit config off = refl
  sync_move-requit config starting =
      requit_if n (is_configured config) _ _ _ _
        (requit_if n (is_positive config.sync_interval) _ _ _ _ refl refl) refl
  sync_move-requit config fetching = refl
  sync_move-requit config selecting = requit_if n s.cancelled _ _ _ _ refl refl
  sync_move-requit config stopped = refl

  tick-requit : (x : SyncPc) → tick x (with_quit n s) ≡ requit n (tick x s)
  unfolding tick
  tick-requit off = refl
  tick-requit starting = refl
  tick-requit fetching = refl
  tick-requit selecting = refl
  tick-requit stopped = refl

  step-requit :
      (e : Event)
      → is_past s.main ≡ true
      → is_signal e ≡ false
      → step p e (with_quit n s) ≡ requit n (step p e s)
  unfolding step
  step-requit main_moves past other = main_move-requit s.main past
  step-requit (moves g) past other = move-requit g (s.pc g)
  step-requit (returns g ok) past other = return_from-requit g ok (s.pc g)
  step-requit (listener_returns g closed) past other = listener_return-requit g closed
  step-requit sync_moves past other = sync_move-requit p.api_config s.sync
  step-requit ticks past other = tick-requit s.sync
  step-requit signals past other = cc

is_signal-eq : (e : Event) → is_signal e ≡ true → e ≡ signals
is_signal-eq e h = ground arith

past-notified : (m : MainPc) → is_past m ≡ true → is_notified m ≡ true
past-notified m h = ground arith

module _ (p : Program) where
  Turn-past :
      {s t : Process} {e : Event} → Turn p s e t → is_past s.main ≡ true → is_past t.main ≡ true
  Turn-past (branch at on) h = ground arith
  Turn-past (skip at off_) h = ground arith
  Turn-past (spawn_proxy at) h = ground arith
  Turn-past (spawn_manager at) h = ground arith
  Turn-past (notify at) h = ground arith
  Turn-past (take at more) h = refl
  Turn-past (cancel at) h = refl
  Turn-past (prepare g stage rest y at) h = h
  Turn-past (serve g at) h = h
  Turn-past (close g at server on) h = h
  Turn-past (wg_done g ok at more) h = h
  Turn-past (unlisten g closed there) h = h
  Turn-past (sync_turn y who) h = h
  Turn-past (signalled m more on) h = h

  signal-past :
      (s : Process) (e : Event)
      → is_past s.main ≡ true
      → is_signal e ≡ true
      → (m : ℕ) × (step p e s ≡ some (goes_on (with_quit m s)))
  unfolding step signal
  signal-past s e past it = (
    (if ltb s.quit 2 then s.quit + 1 else s.quit),
    rw (is_signal-eq e it, past-notified s.main past) refl,
  )

  same_but_quit :
      (n : ℕ) (s : Process) {t : Process} (e : Event)
      → is_past s.main ≡ true
      → is_signal e ≡ true
      → step p e s ≡ some (goes_on t)
      → with_quit n t ≡ with_quit n s
  same_but_quit n s {t} e past it now =
      let (m, gives) = signal-past s e past it in
      let same : t ≡ with_quit m s = cc in ap (with_quit n) same

  -- Once `main` has taken a signal, further signals have no effect: without them, and whatever number
  -- of signals is in the channel, the same events lead to the same end or the same process.
  pub Run-without_signals :
      {s : Process} {es : List Event} {o : Outcome} (n : ℕ)
      → is_past s.main ≡ true
      → Run p s es o
      → Run p (with_quit n s) (without_signals es) (with_quit_outcome n o)
  Run-without_signals n past stop = stop
  Run-without_signals {s} n past (last {e = e} now) = elim (Bool-cases (is_signal e)) [
    | inl it ↦ cc (now, (signal-past s e past it).1)
    | inr other ↦ rw other (last (step-requit p n s e past other ∙ ap (requit n) now))
  ]
  Run-without_signals {s} {o = o} n past (go {t = t} {e = e} {es = es} now rest) =
      let later = Run-without_signals n (Turn-past (step-Turn p s now) past) rest in
      elim (Bool-cases (is_signal e)) [
        | inl it ↦ rw it (
            subst (λ u. Run p u (without_signals es) (with_quit_outcome n o))
              (same_but_quit n s e past it now) later)
        | inr other ↦ rw other (go (step-requit p n s e past other ∙ ap (requit n) now) later)
      ]
