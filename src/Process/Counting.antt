-- ===== src/Process/Counting.antt =====
-- On cmd/main.go.
-- The goroutines that the WaitGroup counts.
use netmaker_k8s_ops.Base.{
  ℕ, ◌+◌, ◌-◌, ◌≡◌, refl, ap, sym, ◌∙◌, Bool, true, false, List, inl, inr, arith, if◌then◌else◌,
}
use netmaker_k8s_ops.Setup.{Goroutine, api_server, k8s_proxy, manager}
use netmaker_k8s_ops.Process.State.{
  MainPc, begins, starts_proxy, starts_manager, notifies, waits, cancels, joins, Pc, unstarted,
  preparing, running, closing, done, SyncPc, Process, goes_on, Event, Program, start, set, same,
  is_server,
}
use netmaker_k8s_ops.Process.{Run, stop, go, spawn}
use netmaker_k8s_ops.Process.Turns.{
  AtEnd, Turn, branch, skip, spawn_proxy, spawn_manager, notify, take, cancel, prepare, serve,
  close, wg_done, unlisten, sync_turn, signalled, step-Turn,
}

-- A goroutine that was started and has not called `wg.Done()`.
abbrev pub live : Pc → ℕ
live unstarted = 0
live (preparing _) = 1
live running = 1
live closing = 1
live done = 0

abbrev pub is_started : Pc → Bool
is_started unstarted = false
is_started (preparing _) = true
is_started running = true
is_started closing = true
is_started done = true

abbrev pub total : (Pc → ℕ) → (Goroutine → Pc) → ℕ
total w pc = w (pc api_server) + w (pc k8s_proxy) + w (pc manager)

pub total-set :
    (w : Pc → ℕ) (pc : Goroutine → Pc) (g : Goroutine) (x : Pc)
    → total w (set pc g x) + w (pc g) ≡ total w pc + w x
total-set w pc api_server x = omega arith
total-set w pc k8s_proxy x = omega arith
total-set w pc manager x = omega arith

-- The goroutines that `main` has started where it stands.
abbrev pub started_at : Bool → MainPc → Goroutine → Bool
started_at enabled begins g = false
started_at enabled starts_proxy g = if same api_server g then enabled else false
started_at enabled starts_manager g = if is_server g then enabled else false
started_at enabled notifies g = if is_server g then enabled else true
started_at enabled waits g = if is_server g then enabled else true
started_at enabled cancels g = if is_server g then enabled else true
started_at enabled joins g = if is_server g then enabled else true

abbrev pub is_joining : MainPc → Bool
is_joining begins = false
is_joining starts_proxy = false
is_joining starts_manager = false
is_joining notifies = false
is_joining waits = false
is_joining cancels = false
is_joining joins = true

pub same_eq : (g j : Goroutine) → same g j ≡ true → g ≡ j
same_eq g j h = ground arith

live_of_unstarted : (x : Pc) → is_started x ≡ false → live x ≡ 0
live_of_unstarted x h = ground arith

module _ (p : Program) where
  pub record IsCounted (s : Process) : Type 0 where
    pub counted : s.counter ≡ total live s.pc
    pub started : (g : Goroutine) → is_started (s.pc g) ≡ started_at p.proxy_enabled s.main g
    pub cancelling : s.cancelled ≡ is_joining s.main
    pub branched : s.main ≡ starts_proxy → p.proxy_enabled ≡ true

  pub start-IsCounted : IsCounted start
  start-IsCounted = record {
    counted = refl;
    started = λ g. refl;
    cancelling = refl;
    branched = λ at. cc;
  }

  -- A goroutine that was started stands elsewhere, and is still counted or no more.
  moved :
      (s : Process) (g : Goroutine) (x : Pc) (counter : ℕ) (listens : Goroutine → Bool) (y : SyncPc)
      → IsCounted s
      → is_started (s.pc g) ≡ true
      → is_started x ≡ true
      → counter + live (s.pc g) ≡ s.counter + live x
      → IsCounted (record s { counter = counter; pc = set s.pc g x; listens = listens; sync = y })
  moved s g x counter listens y h before now balance = record {
    counted = omega (arith, h.counted, total-set live s.pc g x);
    started = λ j. ground (arith, h.started j, h.started g, same_eq g j);
    cancelling = h.cancelling;
    branched = h.branched;
  }

  spawned :
      (s : Process) (g : Goroutine) (m : MainPc)
      → IsCounted s
      → is_started (s.pc g) ≡ false
      → ((j : Goroutine)
          → started_at p.proxy_enabled m j
            ≡ (if same g j then true else started_at p.proxy_enabled s.main j))
      → is_joining m ≡ is_joining s.main
      → (m ≡ starts_proxy → p.proxy_enabled ≡ true)
      → IsCounted (spawn p g (record s { main = m }))
  spawned s g m h before now joining on = record {
    counted = omega (
      arith,
      h.counted,
      total-set live s.pc g (preparing (p.stages g)),
      live_of_unstarted (s.pc g) before,
    );
    started = λ j. ground (arith, h.started j, now j);
    cancelling = h.cancelling ∙ sym joining;
    branched = on;
  }

  AtEnd-live :
      (s : Process) (g : Goroutine)
      → AtEnd p s g
      → (is_started (s.pc g) ≡ true) × (live (s.pc g) ≡ 1)
  AtEnd-live s g (inl at) = (ap is_started at, ap live at)
  AtEnd-live s g (inr (at, other)) = (ap is_started at, ap live at)

  -- What the invariant does not speak of.
  same_counts :
      (s : Process) (quit : ℕ) (listens : Goroutine → Bool) (y : SyncPc)
      → IsCounted s
      → IsCounted (record s { quit = quit; listens = listens; sync = y })
  same_counts s quit listens y h = record {
    counted = h.counted;
    started = h.started;
    cancelling = h.cancelling;
    branched = h.branched;
  }

  pub Turn-IsCounted : {s t : Process} {e : Event} → Turn p s e t → IsCounted s → IsCounted t
  Turn-IsCounted {s} (branch at on) h =
      spawned s api_server starts_proxy h (ground (arith, h.started api_server)) (λ j. ground arith)
        (ground arith) (λ _. on)
  Turn-IsCounted {s} (skip at off) h = record {
    counted = h.counted;
    started = λ j. ground (arith, h.started j);
    cancelling = ground (arith, h.cancelling);
    branched = λ q. cc;
  }
  Turn-IsCounted {s} (spawn_proxy at) h =
      spawned s k8s_proxy starts_manager h (ground (arith, h.started k8s_proxy))
        (λ j. ground (arith, h.branched at)) (ground arith) (λ q. cc)
  Turn-IsCounted {s} (spawn_manager at) h =
      spawned s manager notifies h (ground (arith, h.started manager)) (λ j. ground arith)
        (ground arith) (λ q. cc)
  Turn-IsCounted {s} (notify at) h = record {
    counted = h.counted;
    started = λ j. ground (arith, h.started j);
    cancelling = ground (arith, h.cancelling);
    branched = λ q. cc;
  }
  Turn-IsCounted {s} (take at more) h = record {
    counted = h.counted;
    started = λ j. ground (arith, h.started j);
    cancelling = ground (arith, h.cancelling);
    branched = λ q. cc;
  }
  Turn-IsCounted {s} (cancel at) h = record {
    counted = h.counted;
    started = λ j. ground (arith, h.started j);
    cancelling = refl;
    branched = λ q. cc;
  }
  Turn-IsCounted {s} (prepare g stage rest y at) h =
      moved s g (preparing rest) s.counter s.listens y h (ap is_started at) refl
        (ap (λ x. s.counter + live x) at)
  Turn-IsCounted {s} (serve g at) h =
      moved s g running s.counter _ s.sync h (ap is_started at) refl
        (ap (λ x. s.counter + live x) at)
  Turn-IsCounted {s} (close g at server on) h =
      moved s g closing s.counter s.listens s.sync h (ap is_started at) refl
        (ap (λ x. s.counter + live x) at)
  Turn-IsCounted {s} (wg_done g ok at more) h =
      moved s g done (s.counter - 1) s.listens s.sync h (AtEnd-live s g at).0 refl
        (omega (arith, (AtEnd-live s g at).1))
  Turn-IsCounted {s} (unlisten g closed there) h = same_counts s s.quit _ s.sync h
  Turn-IsCounted {s} (sync_turn y who) h = same_counts s s.quit s.listens y h
  Turn-IsCounted {s} (signalled n more on) h = same_counts s n s.listens s.sync h

  pub Run-IsCounted :
      {s t : Process} {es : List Event} → Run p s es (goes_on t) → IsCounted s → IsCounted t
  Run-IsCounted stop h = h
  Run-IsCounted (go now rest) h = Run-IsCounted rest (Turn-IsCounted (step-Turn p _ now) h)
