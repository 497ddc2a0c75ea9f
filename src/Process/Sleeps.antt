-- ===== src/Process/Sleeps.antt =====
-- On internal/proxy/proxy.go and internal/proxy/api.go.
-- What the servers wait for before they serve, and before the process can return.
use netmaker_k8s_ops.Base.{
  ℕ, ◌≡◌, refl, ap, sym, subst, ◌∙◌, String, ◌==◌, true, false, Option, none, some, List, [], ◌∷◌,
  ◌++◌, map, Env, ℤ, seconds, pos, arith, if◌then◌else◌, inl, inr, Bool-cases,
}
use netmaker_k8s_ops.Setup.{Goroutine, api_server, k8s_proxy, manager}
use netmaker_k8s_ops.Proxy.Interfaces.{Interface, get_wire_guard_interface_ip}
use netmaker_k8s_ops.Proxy.Server.{ClusterConfig, ProxyServer, Start, serving, start_k8s_proxy}
use netmaker_k8s_ops.Process.State.{
  Stage, sleep, go_sync, exit, Pc, unstarted, preparing, running, closing, done, Process, returned,
  goes_on, ends, Event, main_moves, moves, returns, listener_returns, sync_moves, ticks, signals,
  Program, start, set, same, is_server,
}
use netmaker_k8s_ops.Process.{step, Run, last, go}
use netmaker_k8s_ops.Process.Operator.{program, bind_stages, stages_of}
use netmaker_k8s_ops.Process.Turns.{
  by_sync, by_tick, Turn, branch, skip, spawn_proxy, spawn_manager, notify, take, cancel, prepare,
  serve, close, wg_done, unlisten, sync_turn, signalled, step-Turn,
}
use netmaker_k8s_ops.Process.Counting.{
  is_started, started_at, same_eq, IsCounted, start-IsCounted, Turn-IsCounted,
}
use netmaker_k8s_ops.Process.Endings.{step-Explains}

abbrev pub sleep_of : Stage → List ℤ
sleep_of (sleep d) = d ∷ []
sleep_of go_sync = []
sleep_of exit = []

abbrev pub sleeps_of : List Stage → List ℤ
sleeps_of [] = []
sleeps_of (stage ∷ rest) = sleep_of stage ++ sleeps_of rest

abbrev first_sleep : Pc → List ℤ
first_sleep unstarted = []
first_sleep (preparing []) = []
first_sleep (preparing (stage ∷ rest)) = sleep_of stage
first_sleep running = []
first_sleep closing = []
first_sleep done = []

-- What the goroutine `g` sleeps in an event.
abbrev pub slept_at : Goroutine → Event → Process → List ℤ
slept_at g (moves h) s = if same h g then first_sleep (s.pc h) else []
slept_at g main_moves s = []
slept_at g (returns h ok) s = []
slept_at g (listener_returns h closed) s = []
slept_at g sync_moves s = []
slept_at g ticks s = []
slept_at g signals s = []

same_self : (g : Goroutine) → same g g ≡ true
same_self api_server = refl
same_self k8s_proxy = refl
same_self manager = refl

module _ (p : Program) where
  -- What the goroutine `g` sleeps in the course of these events.
  unfoldable pub slept : Goroutine → List Event → Process → List ℤ
  slept g [] s = []
  slept g (e ∷ es) s =
      slept_at g e s
      ++ elim (step p e s) [ none ↦ [] | some (ends x) ↦ [] | some (goes_on t) ↦ slept g es t ]

  -- What it still has to sleep before it serves.
  abbrev to_sleep : Goroutine → Pc → List ℤ
  to_sleep g unstarted = sleeps_of (p.stages g)
  to_sleep g (preparing l) = sleeps_of l
  to_sleep g running = []
  to_sleep g closing = []
  to_sleep g done = []

  to_sleep_of_unstarted :
      (g : Goroutine) (x : Pc) → is_started x ≡ false → to_sleep g x ≡ sleeps_of (p.stages g)
  to_sleep_of_unstarted g x h = ground arith

  spawned :
      (s : Process) (j g : Goroutine)
      → is_started (s.pc j) ≡ false
      → to_sleep g (set s.pc j (preparing (p.stages j)) g) ≡ to_sleep g (s.pc g)
  spawned s j g before = elim (Bool-cases (same j g)) [
    | inl it ↦
        subst (λ k. to_sleep k (set s.pc j (preparing (p.stages j)) k) ≡ to_sleep k (s.pc k))
          (same_eq j g it) (rw same_self (sym (to_sleep_of_unstarted j (s.pc j) before)))
    | inr other ↦ rw other refl
  ]

  -- The goroutine `j` sleeps `l` and stands at `x`.
  moved :
      (s : Process) (j g : Goroutine) (x : Pc) (l : List ℤ)
      → l ++ to_sleep j x ≡ to_sleep j (s.pc j)
      → (if same j g then l else []) ++ to_sleep g (set s.pc j x g) ≡ to_sleep g (s.pc g)
  moved s j g x l e = elim (Bool-cases (same j g)) [
    | inl it ↦ rw it (subst (λ k. l ++ to_sleep k x ≡ to_sleep k (s.pc k)) (same_eq j g it) e)
    | inr other ↦ rw other refl
  ]

  ended :
      (s : Process) (j g : Goroutine)
      → [] ≡ to_sleep j (s.pc j)
      → to_sleep g (set s.pc j done g) ≡ to_sleep g (s.pc g)
  ended s j g e = elim (Bool-cases (same j g)) [
    | inl it ↦ rw it (subst (λ k. [] ≡ to_sleep k (s.pc k)) (same_eq j g it) e)
    | inr other ↦ rw other refl
  ]

  Turn-slept :
      {s t : Process} (e : Event) (g : Goroutine)
      → Turn p s e t
      → IsCounted p s
      → slept_at g e s ++ to_sleep g (t.pc g) ≡ to_sleep g (s.pc g)
  Turn-slept {s} e g (branch at on) h =
      spawned s api_server g
        (h.started api_server ∙ ap (λ m. started_at p.proxy_enabled m api_server) at)
  Turn-slept {s} e g (skip at off) h = refl
  Turn-slept {s} e g (spawn_proxy at) h =
      spawned s k8s_proxy g
        (h.started k8s_proxy ∙ ap (λ m. started_at p.proxy_enabled m k8s_proxy) at)
  Turn-slept {s} e g (spawn_manager at) h =
      spawned s manager g (h.started manager ∙ ap (λ m. started_at p.proxy_enabled m manager) at)
  Turn-slept {s} e g (notify at) h = refl
  Turn-slept {s} e g (take at more) h = refl
  Turn-slept {s} e g (cancel at) h = refl
  Turn-slept {s} e g (prepare j stage rest y at) h =
      moved s j g (preparing rest) (first_sleep (s.pc j)) (rw at refl)
  Turn-slept {s} e g (serve j at) h = moved s j g running (first_sleep (s.pc j)) (rw at refl)
  Turn-slept {s} e g (close j at server on) h =
      moved s j g closing (first_sleep (s.pc j)) (rw at refl)
  Turn-slept {s} e g (wg_done j ok (inl at) more) h = ended s j g (rw at refl)
  Turn-slept {s} e g (wg_done j ok (inr (at, other)) more) h = ended s j g (rw at refl)
  Turn-slept {s} e g (unlisten j closed there) h = refl
  Turn-slept {s} e g (sync_turn y by_sync) h = refl
  Turn-slept {s} e g (sync_turn y by_tick) h = refl
  Turn-slept {s} e g (signalled n more on) h = refl

  -- Until the process returns, a server sleeps all that stands before it.
  Run-slept :
      {s : Process} {es : List Event} (g : Goroutine)
      → is_server g ≡ true
      → p.proxy_enabled ≡ true
      → IsCounted p s
      → Run p s es (ends returned)
      → slept g es s ≡ to_sleep g (s.pc g)
  unfolding slept
  Run-slept {s} g server on h (last {e = e} now) =
      let (at_main, finished) = step-Explains p s e h now in
      let at : s.pc g ≡ done = rw on at (finished.server_done g server) in
      rw now (ap (λ e. slept_at g e s ++ []) at_main ∙ sym (ap (to_sleep g) at))
  Run-slept {s} g server on h (go {e = e} now rest) =
      let turn = step-Turn p _ now in
      rw (now, Run-slept g server on (Turn-IsCounted p turn h) rest) (Turn-slept e g turn h)

  pub returned-slept :
      {es : List Event} (g : Goroutine)
      → is_server g ≡ true
      → p.proxy_enabled ≡ true
      → Run p start es (ends returned)
      → slept g es start ≡ sleeps_of (p.stages g)
  returned-slept g server on r = Run-slept g server on (start-IsCounted p) r

sleeps_of-map : (l : List ℤ) → sleeps_of (map sleep l) ≡ l
sleeps_of-map [] = refl
sleeps_of-map (d ∷ l) = ap (λ r. d ∷ r) (sleeps_of-map l)

-- The waits of the search for an address.
abbrev pub search_waits : Env → (ℕ → Option (List Interface)) → List ℤ
search_waits env scans = (get_wire_guard_interface_ip env scans).1

module _ (env : Env) (scans : Goroutine → ℕ → Option (List Interface))
    (in_cluster : Option ClusterConfig) (from_file : String → Option ClusterConfig)
    (parse : String → Option String) where
  abbrev pub operator : Program
  operator = program env scans in_cluster from_file parse

  bind_stages-sleeps :
      (g : Goroutine) (ip_variable : String)
      → (env ip_variable == "") ≡ true
      → sleeps_of (bind_stages env scans g ip_variable) ≡ search_waits env (scans g)
  unfolding bind_stages
  bind_stages-sleeps g ip_variable unset = rw unset (sleeps_of-map (search_waits env (scans g)))

  stages-sleeps :
      (configured : Start) {server : ProxyServer}
      → configured ≡ serving server
      → (env "PROXY_BIND_IP" == "") ≡ true
      → sleeps_of (stages_of env scans configured k8s_proxy)
        ≡ seconds (pos 5) ∷ search_waits env (scans k8s_proxy)
  stages-sleeps configured serves unset =
      rw serves (ap (λ l. seconds (pos 5) ∷ l) (bind_stages-sleeps k8s_proxy "PROXY_BIND_IP" unset))

  -- With a proxy mode, no addresses to bind to and a configuration of the cluster: whenever the process
  -- returns, and whenever the signals came, each server has first slept all waits of its own search for
  -- an address, and the proxy its five seconds. No signal cuts these waits short.
  pub returned-slept_search :
      {es : List Event} {server : ProxyServer}
      → (env "PROXY_MODE" == "") ≡ false
      → (env "API_BIND_IP" == "") ≡ true
      → (env "PROXY_BIND_IP" == "") ≡ true
      → start_k8s_proxy in_cluster from_file parse env (scans k8s_proxy) ≡ serving server
      → Run operator start es (ends returned)
      → (slept operator api_server es start ≡ search_waits env (scans api_server))
        × (slept operator k8s_proxy es start ≡ seconds (pos 5) ∷ search_waits env (scans k8s_proxy))
  unfolding program
  returned-slept_search mode api proxy serves r = (
    returned-slept operator api_server refl (rw mode refl) r
        ∙ bind_stages-sleeps api_server "API_BIND_IP" api,
    returned-slept operator k8s_proxy refl (rw mode refl) r ∙ stages-sleeps _ serves proxy,
  )
