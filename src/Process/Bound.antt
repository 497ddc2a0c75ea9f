-- ===== src/Process/Bound.antt =====
-- On cmd/main.go, internal/proxy/proxy.go and internal/proxy/api.go.
-- How many events are left until the process ends.
use netmaker_k8s_ops.Base.{
  ℕ, ◌+◌, ◌<◌, ◌≤◌, ◌≡◌, ap, ◌∙◌, inl, inr, Bool, true, false, List, [], ◌∷◌, length, arith,
}
use netmaker_k8s_ops.Setup.{Goroutine, api_server, k8s_proxy, manager}
use netmaker_k8s_ops.Process.State.{
  MainPc, begins, starts_proxy, starts_manager, notifies, waits, cancels, joins, Pc, unstarted,
  preparing, running, closing, done, Process, Outcome, Event, main_moves, moves, returns,
  listener_returns, sync_moves, ticks, signals, Program, set, is_server,
}
use netmaker_k8s_ops.Process.{Run, stop, last, go}
use netmaker_k8s_ops.Process.Turns.{
  by_sync, by_tick, Turn, branch, skip, spawn_proxy, spawn_manager, notify, take, cancel, prepare,
  serve, close, wg_done, unlisten, sync_turn, signalled, step-Turn,
}
use netmaker_k8s_ops.Process.Counting.{
  total, total-set, is_started, started_at, IsCounted, Turn-IsCounted,
}

-- The events on the way to the end: all but those of the synchronisation and further signals, for
-- which `main` does not wait.
abbrev pub is_ending : Event → ℕ
is_ending main_moves = 1
is_ending (moves g) = 1
is_ending (returns g ok) = 1
is_ending (listener_returns g closed) = 1
is_ending sync_moves = 0
is_ending ticks = 0
is_ending signals = 0

abbrev pub endings : List Event → ℕ
endings [] = 0
endings (e ∷ es) = is_ending e + endings es

-- How many events are left to a goroutine, at most.
abbrev pub left : Pc → ℕ
left unstarted = 0
left (preparing l) = length l + 4
left running = 2
left closing = 1
left done = 0

abbrev pub listener_left : Bool → ℕ
listener_left true = 1
listener_left false = 0

abbrev pub listeners_left : (Goroutine → Bool) → ℕ
listeners_left f =
    listener_left (f api_server) + listener_left (f k8s_proxy) + listener_left (f manager)

module _ (p : Program) where
  -- What a goroutine adds when it is started.
  abbrev pub added : Goroutine → ℕ
  added g = length (p.stages g) + 5

  abbrev pub main_left : MainPc → ℕ
  main_left begins = added api_server + added k8s_proxy + added manager + 7
  main_left starts_proxy = added k8s_proxy + added manager + 6
  main_left starts_manager = added manager + 5
  main_left notifies = 4
  main_left waits = 3
  main_left cancels = 2
  main_left joins = 1

  -- How many events on the way to the end are left, at most.
  abbrev pub events_left : Process → ℕ
  events_left s = main_left s.main + total left s.pc + listeners_left s.listens

  listeners-set :
      (f : Goroutine → Bool) (g : Goroutine) (b : Bool)
      → listeners_left (set f g b) + listener_left (f g) ≡ listeners_left f + listener_left b
  listeners-set f api_server b = omega arith
  listeners-set f k8s_proxy b = omega arith
  listeners-set f manager b = omega arith

  listener_left_le : (b : Bool) → listener_left b ≤ 1
  listener_left_le b = ground arith

  spawned-less :
      (s : Process) (g : Goroutine) (m : MainPc)
      → left (s.pc g) ≡ 0
      → main_left m + added g + 1 ≤ main_left s.main
      → events_left (record s {
        main = m;
        counter = s.counter + 1;
        pc = set s.pc g (preparing (p.stages g));
      })
          + 1
        ≤ events_left s
  spawned-less s g m before less = omega (arith, total-set left s.pc g (preparing (p.stages g)))

  left_of_unstarted : (x : Pc) → is_started x ≡ false → left x ≡ 0
  left_of_unstarted x h = ground arith

  -- Every event on the way to the end leaves fewer.
  Turn-less :
      {s t : Process} {e : Event}
      → Turn p s e t
      → IsCounted p s
      → events_left t + is_ending e ≤ events_left s
  Turn-less {s} (branch at on) h =
      spawned-less s api_server starts_proxy
        (left_of_unstarted (s.pc api_server)
          (h.started api_server ∙ ap (λ m. started_at p.proxy_enabled m api_server) at))
        (rw at (omega arith))
  Turn-less {s} (skip at off) h = rw at (omega arith)
  Turn-less {s} (spawn_proxy at) h =
      spawned-less s k8s_proxy starts_manager
        (left_of_unstarted (s.pc k8s_proxy)
          (h.started k8s_proxy ∙ ap (λ m. started_at p.proxy_enabled m k8s_proxy) at))
        (rw at (omega arith))
  Turn-less {s} (spawn_manager at) h =
      spawned-less s manager notifies
        (left_of_unstarted (s.pc manager)
          (h.started manager ∙ ap (λ m. started_at p.proxy_enabled m manager) at))
        (rw at (omega arith))
  Turn-less {s} (notify at) h = rw at (omega arith)
  Turn-less {s} (take at more) h = rw at (omega arith)
  Turn-less {s} (cancel at) h = rw at (omega arith)
  Turn-less {s} (prepare g stage rest y at) h =
      omega (arith, total-set left s.pc g (preparing rest), ap left at)
  Turn-less {s} (serve g at) h = omega (
    arith,
    total-set left s.pc g running,
    ap left at,
    listeners-set s.listens g (is_server g),
    listener_left_le (is_server g),
  )
  Turn-less {s} (close g at server on) h = omega (arith, total-set left s.pc g closing, ap left at)
  Turn-less {s} (wg_done g ok (inl at) more) h =
      omega (arith, total-set left s.pc g done, ap left at)
  Turn-less {s} (wg_done g ok (inr (at, other)) more) h =
      omega (arith, total-set left s.pc g done, ap left at)
  Turn-less {s} (unlisten g closed there) h =
      omega (arith, listeners-set s.listens g false, ap listener_left there)
  Turn-less {s} (sync_turn y by_sync) h = omega arith
  Turn-less {s} (sync_turn y by_tick) h = omega arith
  Turn-less {s} (signalled n more on) h = omega arith

  main_left_pos : (m : MainPc) → 0 < main_left m
  main_left_pos m = ground arith

  is_ending_le : (e : Event) → is_ending e ≤ 1
  is_ending_le e = ground arith

  pub Run-bounded :
      {s : Process} {es : List Event} {o : Outcome}
      → Run p s es o
      → IsCounted p s
      → endings es ≤ events_left s
  Run-bounded stop h = omega arith
  Run-bounded {s} (last {e = e} now) h = omega (arith, main_left_pos s.main, is_ending_le e)
  Run-bounded (go now rest) h =
      let turn = step-Turn p _ now in
      omega (arith, Turn-less turn h, Run-bounded rest (Turn-IsCounted p turn h))
