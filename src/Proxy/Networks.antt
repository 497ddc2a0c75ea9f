-- ===== src/Proxy/Networks.antt =====
-- The theorems on the search for the WireGuard interface, and on the interval, at examples.
use netmaker_k8s_ops.Base.{
  true, ℕ, zero, suc, ◌+◌, ◌<◌, ◌==◌, ◌≡◌, refl, true, false, Option, none, some, List, [], ◌∷◌,
  Env, pos, atoi, seconds, arith, if◌then◌else◌, ltb,
}
use netmaker_k8s_ops.Proxy.Users.{is_configured, no_answer, undecodable, start_external_api_sync}
use netmaker_k8s_ops.Proxy.Config.{get_nm_api_config, get_env_int}
use netmaker_k8s_ops.Proxy.Interval.{start_external_api_sync_panics, Fits}
use netmaker_k8s_ops.Proxy.Interfaces.{Interface, address_in, search, max_retries}
use netmaker_k8s_ops.Proxy.Retries.{Waits, searched, search-Waits, found_at}

abbrev env : Env
env name =
    if name == "API_SYNC_INTERVAL"
    then "60"
    else if name == "API_SERVER_DOMAIN"
    then "api.example"
    else if name == "API_TOKEN"
    then "t1"
    else if name == "WIREGUARD_RETRY_MAX_ATTEMPTS"
    then "2"
    else ""

sixty : Fits (atoi (env "API_SYNC_INTERVAL"))
unfolding atoi
sixty = omega arith

-- Three centuries between two fetches.
abbrev long_env : Env
long_env name = if name == "API_SYNC_INTERVAL" then "9223372037" else env name

read_long : atoi (long_env "API_SYNC_INTERVAL") ≡ some (pos 9223372037)
unfolding atoi
read_long = refl

configured : is_configured (get_nm_api_config long_env) ≡ true
unfolding get_nm_api_config
configured = refl

start_external_api_sync_panics_example :
    start_external_api_sync undecodable (get_nm_api_config long_env) (no_answer "timeout") [] []
    ≡ none
start_external_api_sync_panics_example =
    start_external_api_sync_panics long_env undecodable (no_answer "timeout") [] [] 9223372037
      configured read_long (omega arith) (omega arith)

abbrev netmaker : Interface
netmaker = record {
  name = "netmaker";
  addresses = some (
      record {
        is_ip_net = true;
        is_ipv4 = false;
        is_loopback = false;
        is_unspecified = false;
        text = "fd00::1";
      }
      ∷ record {
        is_ip_net = true;
        is_ipv4 = true;
        is_loopback = false;
        is_unspecified = false;
        text = "100.64.0.1";
      }
      ∷ []);
}

-- The interface is there from the second attempt on.
abbrev second_time : ℕ → Option (List Interface)
second_time n = if ltb n 2 then some [] else some (netmaker ∷ [])

abbrev never : ℕ → Option (List Interface)
never n = some []

search-Waits_example :
    Waits "netmaker"
      (seconds (pos 3))
      (seconds (pos 5))
      never
      2
      (searched "netmaker" (seconds (pos 3)) (seconds (pos 5)) never 3 1).1
search-Waits_example = search-Waits "netmaker" (seconds (pos 3)) (seconds (pos 5)) never 2 1

-- The waits are of three and five seconds: the second would be six.
waits_of_three :
    (searched "netmaker" (seconds (pos 3)) (seconds (pos 5)) never 3 1).1
    ≡ pos 3000000000 ∷ pos 5000000000 ∷ []
unfolding search seconds
waits_of_three = refl

two_attempts : 1 < max_retries env second_time
unfolding get_env_int atoi
two_attempts = omega arith

not_at_first : (j : ℕ) → j < 1 → found_at env second_time (1 + j) ≡ none
unfolding address_in
not_at_first zero h = refl
not_at_first (suc j) h = absurd (omega arith)

then_found : found_at env second_time (1 + 1) ≡ some "100.64.0.1"
unfolding address_in
then_found = refl

never_found : (j : ℕ) → j < max_retries env never → found_at env never (1 + j) ≡ none
unfolding address_in
never_found j h = refl
