-- ===== src/Proxy/Interval.antt =====
-- internal/proxy/proxy.go: the interval of the synchronisation, and its start.
use netmaker_k8s_ops.Base.{
  false, ap, eq_iff, ℕ, zero, suc, ◌*◌, ◌≤◌, String, ◌==◌, ◌≡◌, refl, true, Option, none, some,
  List, Env, ℤ, pos, negsuc, atoi, is_positive, seconds, seconds_lem, arith, Bool-cases, inl, inr,
}
use netmaker_k8s_ops.Proxy.Users.{
  UserIpMap, HttpAnswer, Decoded, Event, is_configured, start_external_api_sync,
}
use netmaker_k8s_ops.Proxy.Config.{interval_of, get_nm_api_config}

-- The number of seconds, if one is read, is in nanoseconds still below 2 ^ 63.
abbrev pub Fits : Option ℤ → Type 0
Fits none = Unit
Fits (some (pos n)) = n ≤ 9223372036
Fits (some (negsuc n)) = Unit

default_positive : is_positive (seconds (pos 30)) ≡ true
unfolding seconds
default_positive = refl

is_positive_of_pos : (n : ℕ) → 1 ≤ n → is_positive (pos n) ≡ true
is_positive_of_pos zero h = absurd (omega arith)
is_positive_of_pos (suc n) h = refl

interval_of-positive :
    (secs : Option ℤ) (default_value : ℤ)
    → Fits secs
    → is_positive default_value ≡ true
    → is_positive (interval_of secs default_value) ≡ true
interval_of-positive none default_value fits h = h
interval_of-positive (some (pos zero)) default_value fits h = h
interval_of-positive (some (pos (suc n))) default_value fits h =
    rw (seconds_lem (suc n) fits) (is_positive_of_pos (suc n * 1000000000) (omega arith))
interval_of-positive (some (negsuc n)) default_value fits h = h

atoi_empty : atoi "" ≡ none
unfolding atoi
atoi_empty = refl

-- The product is from 2 ^ 63 up and below 2 ^ 64.
seconds-wraps : (n : ℕ) → 9223372037 ≤ n → n ≤ 18446744073 → is_positive (seconds (pos n)) ≡ false
unfolding seconds
seconds-wraps n low high = ground arith

module _ (env : Env) where
  interval-positive :
      Fits (atoi (env "API_SYNC_INTERVAL"))
      → is_positive (get_nm_api_config env).sync_interval ≡ true
  unfolding get_nm_api_config
  interval-positive fits = elim (Bool-cases (env "API_SYNC_INTERVAL" == "")) [
    | inl unset ↦ rw unset default_positive
    | inr set ↦ rw set (
        interval_of-positive (atoi (env "API_SYNC_INTERVAL")) (seconds (pos 30)) fits
          default_positive)
  ]

  -- With an interval of at most 9223372036 seconds, or one that is not set or no number, the
  -- synchronisation starts without a panic and leaves a map, whatever the server answers.
  pub start_external_api_sync_starts :
      (decode : String → Decoded) (first : HttpAnswer) (events : List Event) (m : UserIpMap)
      → Fits (atoi (env "API_SYNC_INTERVAL"))
      → (after : UserIpMap) × (start_external_api_sync decode (get_nm_api_config env) first events m
          ≡ some after)
  unfolding start_external_api_sync
  start_external_api_sync_starts decode first events m fits =
      elim (Bool-cases (is_configured (get_nm_api_config env))) [
        | inl on ↦ rw (on, interval-positive fits) (_, refl)
        | inr off ↦ rw off (m, refl)
      ]

  interval-wraps :
      (n : ℕ)
      → atoi (env "API_SYNC_INTERVAL") ≡ some (pos n)
      → 9223372037 ≤ n
      → n ≤ 18446744073
      → is_positive (get_nm_api_config env).sync_interval ≡ false
  unfolding get_nm_api_config
  interval-wraps n read low high = elim (Bool-cases (env "API_SYNC_INTERVAL" == "")) [
    | inl unset ↦ cc (read, ap atoi ((eq_iff (env "API_SYNC_INTERVAL") "").0 unset), atoi_empty)
    | inr set ↦ rw (set, read, is_positive_of_pos n (omega arith)) (seconds-wraps n low high)
  ]

  -- With the API configured and an interval from 9223372037 to 18446744073 seconds, which is
  -- negative after the product has wrapped around, the synchronisation panics when it starts.
  pub start_external_api_sync_panics :
      (decode : String → Decoded) (first : HttpAnswer) (events : List Event) (m : UserIpMap) (n : ℕ)
      → is_configured (get_nm_api_config env) ≡ true
      → atoi (env "API_SYNC_INTERVAL") ≡ some (pos n)
      → 9223372037 ≤ n
      → n ≤ 18446744073
      → start_external_api_sync decode (get_nm_api_config env) first events m ≡ none
  unfolding start_external_api_sync
  start_external_api_sync_panics decode first events m n on read low high =
      rw (on, interval-wraps n read low high) refl
