-- ===== src/Proxy/Examples.antt =====
-- The theorems on the proxy at concrete requests, maps and answers.
use mathlib.Core.Option.{or_else}
use netmaker_k8s_ops.Base.{
  String, ◌<>◌, ◌==◌, ◌≡◌, ◌≢◌, refl, subst, none, some, [], ◌∷◌, Env, NodupKeys, lookup, insert,
  pos, join_comma, lowers_to, if◌then◌else◌,
}
use netmaker_k8s_ops.Proxy.Users.{
  set_user_mapping, UserMapping, UserIpMap, get_user_mapping, ExternalApiConfig, HttpAnswer, answer,
  Decoded, undecodable, mappings, tick, start_external_api_sync, sync_loop,
  fetch_user_mappings_from_api,
}
use netmaker_k8s_ops.Proxy.Config.{ProxyConfig, auth_mode, no_auth_mode, get_proxy_config}
use netmaker_k8s_ops.Proxy.Auth.{
  Headers, RestConfig, Handled, next, aborted, identity, auth_middleware,
}
use netmaker_k8s_ops.Proxy.Defaults.{get_proxy_config-Impersonates}
use netmaker_k8s_ops.Proxy.Sync.{lookup-fetch, sync-keeps, carried}
use netmaker_k8s_ops.Proxy.Locking.{
  here, next as then_access, lock, put_user, put_groups, unlock, rlock, get_user, get_groups,
  runlock,
}
use netmaker_k8s_ops.Proxy.Locking.Whole.{AllSeen, Reach-AllSeen}
use netmaker_k8s_ops.Proxy.Startup.{StatusBody, body_is_pro, started_mode, started_mode_unchecked}

abbrev env_with : String → Env
env_with mode name =
    if name == "PROXY_MODE" then mode else if name == "SERVER_HOST" then "api.example" else ""

abbrev basic_auth : String → String → String
basic_auth user password = "Basic " <> (user <> (":" <> password))

abbrev rest : RestConfig
rest = record { bearer_token = "t0"; cert_file = ""; key_file = ""; username = ""; password = "" }

abbrev alice : UserMapping
alice = record { user = "alice"; groups = "dev" ∷ [] }

abbrev nobody : UserMapping
nobody = record { user = ""; groups = [] }

abbrev users : UserIpMap
users = ("100.64.0.1", alice) ∷ ("100.64.0.2", nobody) ∷ []

-- A caller who asks to be the administrator.
abbrev request : Headers
request = ("Impersonate-User", "admin" ∷ []) ∷ []

abbrev config : ProxyConfig
config = record {
  mode = "auth";
  impersonate_user = "wireguard-peer";
  impersonate_groups = "peers" ∷ [];
}

abbrev no_auth_config : ProxyConfig
no_auth_config = record { mode = "noauth"; impersonate_user = ""; impersonate_groups = [] }

abbrev headers_of : Handled → Headers
headers_of (next h) = h
headers_of (aborted _ _) = []

abbrev sent : ProxyConfig → String → Headers
sent c client_ip = headers_of (auth_middleware basic_auth rest c users client_ip request)

auth_goes_on :
    auth_middleware basic_auth rest config users "100.64.0.1" request
    ≡ next (sent config "100.64.0.1")
unfolding auth_middleware
auth_goes_on = refl

no_auth_goes_on :
    auth_middleware basic_auth rest no_auth_config users "100.64.0.1" request
    ≡ next (sent no_auth_config "100.64.0.1")
unfolding auth_middleware
no_auth_goes_on = refl

found_alice : identity config users "100.64.0.1" ≡ ("alice", "dev" ∷ [])
unfolding identity get_user_mapping lookup
found_alice = refl

-- For a mapping with no user, the header of the caller goes through.
admin_passes : lookup "Impersonate-User" (sent config "100.64.0.2") ≡ some ("admin" ∷ [])
unfolding auth_middleware lookup insert get_user_mapping
admin_passes = refl

abbrev auth_env : Env
auth_env = env_with "auth"

auth_env_mode : (get_proxy_config auth_env).mode ≡ auth_mode
unfolding get_proxy_config lowers_to
auth_env_mode = refl

unmapped : lookup "100.64.0.9" users ≡ none
unfolding lookup
unmapped = refl

unmapped_goes_on :
    auth_middleware basic_auth rest (get_proxy_config auth_env) users "100.64.0.9" request
    ≡ next (sent (get_proxy_config auth_env) "100.64.0.9")
unfolding auth_middleware get_proxy_config lowers_to
unmapped_goes_on = refl

get_proxy_config-Impersonates_example :
    (lookup "Impersonate-User" (sent (get_proxy_config auth_env) "100.64.0.9")
      ≡ some ((get_proxy_config auth_env).impersonate_user ∷ []))
    × (lookup "Impersonate-Group" (sent (get_proxy_config auth_env) "100.64.0.9")
        ≡ some (join_comma (get_proxy_config auth_env).impersonate_groups ∷ []))
get_proxy_config-Impersonates_example =
    get_proxy_config-Impersonates auth_env basic_auth rest users "100.64.0.9" request auth_env_mode
      unmapped unmapped_goes_on

users_once : NodupKeys users
unfolding lookup
users_once = (refl, (refl, tt))

abbrev decode : String → Decoded
decode body = if body == "{}" then mappings (("100.64.0.3", alice) ∷ []) else undecodable "invalid"

abbrev api : ExternalApiConfig
api = record { server_domain = "api.example"; api_token = "t1"; sync_interval = pos 30000000000 }

decodes_to_a_map :
    (new : UserIpMap) → carried decode api (answer 200 "{}") ≡ some new → NodupKeys new
unfolding lookup
decodes_to_a_map new e =
    let same : (("100.64.0.3", alice) ∷ []) ≡ new = (cc e) in
    subst (λ m. NodupKeys m) same (refl, tt)

lookup-fetch_example :
    lookup "100.64.0.1" (fetch_user_mappings_from_api decode api (answer 200 "{}") users).1
    ≡ or_else (lookup "100.64.0.1" (("100.64.0.3", alice) ∷ [])) (lookup "100.64.0.1" users)
lookup-fetch_example =
    lookup-fetch decode api (answer 200 "{}") "100.64.0.1" users refl decodes_to_a_map

sync_ends :
    start_external_api_sync decode api (answer 500 "") (tick (answer 200 "{}") ∷ []) users
    ≡ some (
        sync_loop decode api
          (tick (answer 200 "{}") ∷ [])
          (fetch_user_mappings_from_api decode api (answer 500 "") users).1)
unfolding start_external_api_sync
sync_ends = refl

alice_mapped : lookup "100.64.0.1" users ≢ none
unfolding lookup
alice_mapped e = absurd (cc e)

sync-keeps_example :
    lookup "100.64.0.1" (
      sync_loop decode api
        (tick (answer 200 "{}") ∷ [])
        (fetch_user_mappings_from_api decode api (answer 500 "") users).1)
    ≢ none
sync-keeps_example =
    sync-keeps decode api "100.64.0.1" (answer 500 "") (tick (answer 200 "{}") ∷ []) users _
      sync_ends alice_mapped

abbrev new_users : UserIpMap
new_users = ("100.64.0.3", alice) ∷ []

-- A fetch sets its mapping, and a request looks it up.
Reach-AllSeen_example : AllSeen users new_users (("100.64.0.3", some alice) ∷ [])
unfolding lookup set_user_mapping insert
Reach-AllSeen_example =
    Reach-AllSeen users new_users (refl, tt)
      (then_access
        (then_access
          (then_access
            (then_access
              (then_access
                (then_access
                  (then_access (then_access here (lock "100.64.0.3" alice [] refl refl λ i. refl))
                    (put_user "100.64.0.3" alice [] refl refl))
                  (put_groups "100.64.0.3" alice [] refl refl))
                (unlock "100.64.0.3" alice [] refl refl))
              (rlock 0 "100.64.0.3" refl refl))
            (get_user 0 "100.64.0.3" refl))
          (get_groups 0 "100.64.0.3" (some "alice") refl))
        (runlock 0 "100.64.0.3" (some alice) refl))

abbrev decode_status : String → StatusBody
decode_status body = body_is_pro (body == "pro")

abbrev ask : String → HttpAnswer
ask _ = answer 200 "free"

abbrev upper : Env
upper = env_with "AUTH"

is_set : upper "PROXY_MODE" ≢ ""
is_set e = absurd (cc e)

is_other : upper "PROXY_MODE" ≢ "auth"
is_other e = absurd (cc e)

started_mode_unchecked_example :
    started_mode decode_status ask upper
    ≡ some (if lowers_to "AUTH" "noauth" then no_auth_mode else auth_mode)
started_mode_unchecked_example = started_mode_unchecked decode_status ask upper is_set is_other
