-- ===== src/Proxy/Retries.antt =====
-- On internal/proxy/proxy.go.
-- What the search for the WireGuard interface finds, and how long it waits.
use netmaker_k8s_ops.Base.{
  ℕ, zero, suc, ◌+◌, ◌-◌, ◌<◌, ◌≤◌, String, ◌<>◌, ◌==◌, ◌≡◌, refl, ◌∙◌, false, Option, none, some,
  List, [], ◌∷◌, All, Env, ℤ, pos, negsuc, lt_int, seconds, if◌then◌else◌, arith, Bool-cases, inl,
  inr, subst, mul_int64,
}
use netmaker_k8s_ops.Proxy.Config.{get_env_int}
use netmaker_k8s_ops.Proxy.Interfaces.{
  Interface, found_by, delay_after, after_attempt, settle, search, interface_name, max_retries,
  get_wire_guard_interface_ip, listen_address,
}

abbrev pub length {ℓ} : {A : Type ℓ} → List A → ℕ
length [] = 0
length (_ ∷ xs) = suc (length xs)

lt_int_irreflexive : (a : ℤ) → lt_int a a ≡ false
lt_int_irreflexive (pos n) = ground arith
lt_int_irreflexive (negsuc n) = ground arith

delay_after_bounded :
    (base_delay max_delay : ℤ) (attempt : ℕ)
    → lt_int max_delay (delay_after base_delay max_delay attempt) ≡ false
unfolding delay_after
delay_after_bounded base_delay max_delay attempt =
    elim (Bool-cases (lt_int max_delay (mul_int64 base_delay (pos attempt)))) [
      | inl longer ↦ rw longer (lt_int_irreflexive max_delay)
      | inr shorter ↦ rw shorter shorter
    ]

module _ (name : String) (base_delay max_delay : ℤ) (scans : ℕ → Option (List Interface)) where
  abbrev pub found : ℕ → Option String
  found attempt = found_by name (scans attempt)

  abbrev pub searched : ℕ → ℕ → String × List ℤ
  searched = search name base_delay max_delay scans

  after_attempt-text :
      (attempt left : ℕ) (answer : Option (List Interface)) (rest : String × List ℤ)
      → (after_attempt base_delay max_delay attempt left answer rest).0 ≡ rest.0
  unfolding after_attempt
  after_attempt-text attempt left none rest = refl
  after_attempt-text attempt zero (some _) rest = refl
  after_attempt-text attempt (suc _) (some _) rest = refl

  -- The search gives the address of the first attempt that finds one.
  pub search_finds :
      (k left attempt : ℕ) (text : String)
      → k < left
      → ((j : ℕ) → j < k → found (attempt + j) ≡ none)
      → found (attempt + k) ≡ some text
      → (searched left attempt).0 ≡ text
  unfolding search settle
  search_finds k zero attempt text h before now = absurd (omega arith)
  search_finds zero (suc left) attempt text h before now =
      let here : found attempt ≡ some text = subst (λ n. found n ≡ some text) (omega arith) now in
      rw here refl
  search_finds (suc k) (suc left) attempt text h before now =
      let none_here : found attempt ≡ none =
        subst (λ n. found n ≡ none) (omega arith) (before 0 (omega arith)) in
      rw none_here (
        after_attempt-text attempt left (scans attempt) (searched left (attempt + 1))
        ∙ search_finds k left (attempt + 1) text (omega arith)
            (λ j less. subst (λ n. found n ≡ none) (omega arith) (before (suc j) (omega arith)))
            (subst (λ n. found n ≡ some text) (omega arith) now))

  -- It gives "" where no attempt finds an address.
  pub search_fails :
      (left attempt : ℕ)
      → ((j : ℕ) → j < left → found (attempt + j) ≡ none)
      → (searched left attempt).0 ≡ ""
  unfolding search settle
  search_fails zero attempt h = refl
  search_fails (suc left) attempt h =
      let none_here : found attempt ≡ none =
        subst (λ n. found n ≡ none) (omega arith) (h 0 (omega arith)) in
      rw none_here (
        after_attempt-text attempt left (scans attempt) (searched left (attempt + 1))
        ∙ search_fails left (attempt + 1)
            (λ j less. subst (λ n. found n ≡ none) (omega arith) (h (suc j) (omega arith))))

  -- The waits are no more than this many, and each is no longer than the maximum.
  abbrev pub Waits : ℕ → List ℤ → Type 0
  Waits most delays = (length delays ≤ most) × All (λ d. lt_int max_delay d ≡ false) delays

  after_attempt-Waits :
      (attempt left : ℕ) (answer : Option (List Interface)) (rest : String × List ℤ)
      → Waits (left - 1) rest.1
      → Waits left (after_attempt base_delay max_delay attempt left answer rest).1
  unfolding after_attempt
  after_attempt-Waits attempt left none rest (few, short) = (omega arith, short)
  after_attempt-Waits attempt zero (some _) rest h = h
  after_attempt-Waits attempt (suc left) (some _) rest (few, short) =
      (omega arith, (delay_after_bounded base_delay max_delay attempt, short))

  settle-Waits :
      (most : ℕ) (o : Option String) (otherwise : String × List ℤ)
      → Waits most otherwise.1
      → Waits most (settle o otherwise).1
  unfolding settle
  settle-Waits most none otherwise h = h
  settle-Waits most (some text) otherwise h = (omega arith, tt)

  search-Waits_pred : (left attempt : ℕ) → Waits (left - 1) (searched left attempt).1
  unfolding search
  search-Waits_pred zero attempt = (omega arith, tt)
  search-Waits_pred (suc left) attempt =
      subst (λ n. Waits n (searched (suc left) attempt).1) (omega arith)
        (settle-Waits left (found attempt)
          (after_attempt base_delay max_delay attempt left (scans attempt)
            (searched left (attempt + 1)))
          (after_attempt-Waits attempt left (scans attempt) (searched left (attempt + 1))
            (search-Waits_pred left (attempt + 1))))

  -- The search waits less often than it tries, and never longer than the configured maximum.
  pub search-Waits : (left attempt : ℕ) → Waits left (searched (suc left) attempt).1
  search-Waits left attempt =
      subst (λ n. Waits n (searched (suc left) attempt).1) (omega arith)
        (search-Waits_pred (suc left) attempt)

module _ (env : Env) (scans : ℕ → Option (List Interface)) where
  abbrev pub found_at : ℕ → Option String
  found_at attempt = found_by (interface_name env scans) (scans attempt)

  abbrev base_delay : ℤ
  base_delay = seconds (get_env_int env "WIREGUARD_RETRY_BASE_DELAY_SECONDS" (pos 3))

  abbrev max_delay : ℤ
  max_delay = seconds (get_env_int env "WIREGUARD_RETRY_MAX_DELAY_SECONDS" (pos 30))

  -- With no address configured, a server listens on the address that the first successful attempt
  -- to find the WireGuard interface gives, if that is within the attempts and not empty.
  pub listen_address_lem :
      (ip_variable port_variable default_port text : String) (k : ℕ)
      → env ip_variable ≡ ""
      → k < max_retries env scans
      → ((j : ℕ) → j < k → found_at (1 + j) ≡ none)
      → found_at (1 + k) ≡ some text
      → (text == "") ≡ false
      → listen_address env scans ip_variable port_variable default_port
        ≡ text <> (":" <> (if env port_variable == "" then default_port else env port_variable))
  unfolding listen_address get_wire_guard_interface_ip
  listen_address_lem ip_variable port_variable default_port text k unset less before now proper =
      let ip =
        search_finds (interface_name env scans) base_delay max_delay scans k (max_retries env scans)
          1 text less before now in
      rw (unset, ip, proper) refl

  -- With no address configured and none found in all attempts, a server listens on every
  -- interface of the pod.
  pub listen_address_exposed :
      (ip_variable port_variable default_port : String)
      → env ip_variable ≡ ""
      → ((j : ℕ) → j < max_retries env scans → found_at (1 + j) ≡ none)
      → listen_address env scans ip_variable port_variable default_port
        ≡ ":" <> (if env port_variable == "" then default_port else env port_variable)
  unfolding listen_address get_wire_guard_interface_ip
  listen_address_exposed ip_variable port_variable default_port unset nothing =
      let ip =
        search_fails (interface_name env scans) base_delay max_delay scans (max_retries env scans) 1
          nothing in
      rw (unset, ip) refl
