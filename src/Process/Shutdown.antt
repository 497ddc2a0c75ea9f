-- ===== src/Process/Shutdown.antt =====
-- On cmd/main.go, internal/proxy/proxy.go and internal/proxy/api.go.
-- From a signal to the end of the process.
use netmaker_k8s_ops.Base.{
  ◌<◌, ◌≤◌, ◌≡◌, refl, ap, ◌∙◌, ◌⊎◌, inl, inr, Bool, true, false, Option, some, List, [], ◌∷◌, ltb,
  Bool-cases, arith, if◌then◌else◌,
}
use netmaker_k8s_ops.Setup.{Goroutine, api_server, k8s_proxy, manager}
use netmaker_k8s_ops.Process.State.{
  sleep, go_sync, exit, MainPc, begins, starts_proxy, starts_manager, notifies, waits, cancels,
  joins, Pc, unstarted, preparing, running, closing, done, Process, Outcome, goes_on, ends, Event,
  main_moves, moves, returns, Program, start, set, is_server,
}
use netmaker_k8s_ops.Process.{step, main_move, move, finish, return_from, Run, stop, go}
use netmaker_k8s_ops.Process.Turns.{
  Turn, branch, skip, spawn_proxy, spawn_manager, notify, take, cancel, prepare, serve, close,
  wg_done, unlisten, sync_turn, signalled, step-Turn,
}
use netmaker_k8s_ops.Process.Bound.{is_ending, endings, events_left, Run-bounded}
use netmaker_k8s_ops.Process.Counting.{
  live, total, is_joining, IsCounted, start-IsCounted, Run-IsCounted,
}

-- `main` has a signal to take, or has taken one.
abbrev pub IsSignalled : Process → Type 0
IsSignalled s = (0 < s.quit) ⊎ ((s.main ≡ cancels) ⊎ (s.main ≡ joins))

module _ (p : Program) where
  Turn-IsSignalled : {s t : Process} {e : Event} → Turn p s e t → IsSignalled s → IsSignalled t
  Turn-IsSignalled (branch at on) h = ground arith
  Turn-IsSignalled (skip at off) h = ground arith
  Turn-IsSignalled (spawn_proxy at) h = ground arith
  Turn-IsSignalled (spawn_manager at) h = ground arith
  Turn-IsSignalled (notify at) h = ground arith
  Turn-IsSignalled (take at more) h = inr (inl refl)
  Turn-IsSignalled (cancel at) h = inr (inr refl)
  Turn-IsSignalled (prepare g stage rest y at) h = h
  Turn-IsSignalled (serve g at) h = h
  Turn-IsSignalled (close g at server on) h = h
  Turn-IsSignalled (wg_done g ok at more) h = h
  Turn-IsSignalled (unlisten g closed there) h = h
  Turn-IsSignalled (sync_turn y who) h = h
  Turn-IsSignalled (signalled n more on) (inl pending) = inl (omega arith)
  Turn-IsSignalled (signalled n more on) (inr past) = inr past

  Run-IsSignalled :
      {s t : Process} {es : List Event} → Run p s es (goes_on t) → IsSignalled s → IsSignalled t
  Run-IsSignalled stop h = h
  Run-IsSignalled (go now rest) h = Run-IsSignalled rest (Turn-IsSignalled (step-Turn p _ now) h)

  -- Some event on the way to the end can happen.
  abbrev pub CanMove : Process → Type 0
  CanMove s = (e : Event) × (is_ending e ≡ 1) × ((o : Outcome) × (step p e s ≡ some o))

  live_cases : (x : Pc) → (live x ≡ 0) ⊎ (live x ≡ 1)
  live_cases x = ground arith

  some_live : (f : Goroutine → Pc) → 0 < total live f → (g : Goroutine) × (live (f g) ≡ 1)
  some_live f h = elim (live_cases (f api_server)) [
    | inr api ↦ (api_server, api)
    | inl no_api ↦ elim (live_cases (f k8s_proxy)) [
      | inr proxy ↦ (k8s_proxy, proxy)
      | inl no_proxy ↦ (
        manager,
        elim (live_cases (f manager)) [
          | inr managing ↦ managing
          | inl no_manager ↦ absurd (omega arith)
        ],
      )
    ]
  ]

  abbrev Happens : Option Outcome → Type 0
  Happens r = (o : Outcome) × (r ≡ some o)

  Happens-if : (b : Bool) (x y : Outcome) → Happens (if b then some x else some y)
  Happens-if true x y = (x, refl)
  Happens-if false x y = (y, refl)

  by_main : (s : Process) {m : MainPc} → s.main ≡ m → Happens (main_move p m s) → CanMove s
  unfolding step
  by_main s at (o, e) = (main_moves, refl, (o, ap (λ m. main_move p m s) at ∙ e))

  by_move : (s : Process) (g : Goroutine) {x : Pc} → s.pc g ≡ x → Happens (move g x s) → CanMove s
  unfolding step
  by_move s g at (o, e) = (moves g, refl, (o, ap (λ x. move g x s) at ∙ e))

  by_return :
      (s : Process) (g : Goroutine) {x : Pc}
      → s.pc g ≡ x
      → Happens (return_from g true x s)
      → CanMove s
  unfolding step
  by_return s g at (o, e) = (returns g true, refl, (o, ap (λ x. return_from g true x s) at ∙ e))

  finish-Happens : (s : Process) (g : Goroutine) → Happens (finish g s)
  unfolding finish
  finish-Happens s g = Happens-if (ltb 0 s.counter) _ _

  closes :
      (s : Process) (g : Goroutine)
      → is_server g ≡ true
      → s.cancelled ≡ true
      → Happens (move g running s)
  unfolding move
  closes s g server on = (goes_on (record s { pc = set s.pc g closing }), ground arith)

  stops :
      (s : Process) (g : Goroutine) → is_server g ≡ false → Happens (return_from g true running s)
  unfolding return_from
  stops s g other = rw other (finish-Happens s g)

  goroutine-CanMove :
      (s : Process) (g : Goroutine) (x : Pc)
      → s.pc g ≡ x
      → live x ≡ 1
      → s.cancelled ≡ true
      → CanMove s
  unfolding move return_from
  goroutine-CanMove s g unstarted at alive on = cc
  goroutine-CanMove s g (preparing (sleep d ∷ rest)) at alive on = by_move s g at (_, refl)
  goroutine-CanMove s g (preparing (go_sync ∷ rest)) at alive on = by_move s g at (_, refl)
  goroutine-CanMove s g (preparing (exit ∷ rest)) at alive on = by_move s g at (_, refl)
  goroutine-CanMove s g (preparing []) at alive on = by_move s g at (_, refl)
  goroutine-CanMove s g running at alive on = elim (Bool-cases (is_server g)) [
    | inl server ↦ by_move s g at (closes s g server on)
    | inr other ↦ by_return s g at (stops s g other)
  ]
  goroutine-CanMove s g closing at alive on = by_return s g at (finish-Happens s g)
  goroutine-CanMove s g done at alive on = cc

  joins-CanMove : (s : Process) → IsCounted p s → s.main ≡ joins → CanMove s
  unfolding main_move
  joins-CanMove s h at = elim (Bool-cases (ltb 0 s.counter)) [
    | inl more ↦
        let (g, alive) = some_live s.pc (ground (arith, h.counted)) in
        goroutine-CanMove s g (s.pc g) refl alive (h.cancelling ∙ ap is_joining at)
    | inr none_left ↦ by_main s at (rw none_left (_, refl))
  ]

  main-CanMove : (s : Process) (m : MainPc) → IsCounted p s → s.main ≡ m → IsSignalled s → CanMove s
  unfolding main_move
  main-CanMove s begins h at signal = by_main s at (Happens-if p.proxy_enabled _ _)
  main-CanMove s starts_proxy h at signal = by_main s at (_, refl)
  main-CanMove s starts_manager h at signal = by_main s at (_, refl)
  main-CanMove s notifies h at signal = by_main s at (_, refl)
  main-CanMove s waits h at signal =
      let pending : ltb 0 s.quit ≡ true = ground arith in by_main s at (rw pending (_, refl))
  main-CanMove s cancels h at signal = by_main s at (_, refl)
  main-CanMove s joins h at signal = joins-CanMove s h at

  -- Either the process has ended, or an event on the way to the end can happen.
  abbrev pub NotStuck : Outcome → Type 0
  NotStuck (goes_on t) = CanMove t
  NotStuck (ends x) = Unit

  Run-NotStuck :
      {s : Process} {es : List Event} (o : Outcome)
      → IsCounted p s
      → IsSignalled s
      → Run p s es o
      → NotStuck o
  Run-NotStuck (goes_on t) h signal r =
      main-CanMove t t.main (Run-IsCounted p r h) refl (Run-IsSignalled r signal)
  Run-NotStuck (ends x) h signal r = tt

  -- From a signal on, the process comes to an end: the events of `main`, of its goroutines and of the
  -- calls that they wait for are no more than `events_left`, and until the end one of them can happen,
  -- whatever the synchronisation and further signals do in between.
  pub shutdown_ends :
      {before es : List Event} {s : Process} (o : Outcome)
      → Run p start before (goes_on s)
      → IsSignalled s
      → Run p s es o
      → (endings es ≤ events_left p s) × NotStuck o
  shutdown_ends o past signal r =
      let h = Run-IsCounted p past (start-IsCounted p) in
      (Run-bounded p r h, Run-NotStuck o h signal r)
