-- ===== src/Proxy/Users.antt =====
-- internal/proxy/proxy.go: the map from client addresses to users, and its synchronisation with
-- the Netmaker API.
use netmaker_k8s_ops.Base.{
  ℕ, String, ◌==◌, Bool, true, false, ◌||◌, Option, none, some, List, [], ◌∷◌, Dict, lookup, insert,
  erase, copy_into, nat_eq, ℤ, is_positive, if◌then◌else◌,
}

pub record UserMapping : Type 0 where
  pub user : String
  pub groups : List String

-- `UserIPMap.Mappings`. Each method holds the mutex while it runs, so it is one step.
abbrev pub UserIpMap : Type 0
UserIpMap = Dict UserMapping

abbrev pub new_user_ip_map : UserIpMap
new_user_ip_map = []

unfoldable pub set_user_mapping : String → String → List String → UserIpMap → UserIpMap
set_user_mapping ip user groups m = insert ip (record { user = user; groups = groups }) m

abbrev pub answer_of : Option UserMapping → String × List String × Bool
answer_of none = ("", [], false)
answer_of (some mapping) = (mapping.user, mapping.groups, true)

-- The user, the groups and whether the address is mapped.
unfoldable pub get_user_mapping : String → UserIpMap → String × List String × Bool
get_user_mapping ip m = answer_of (lookup ip m)

unfoldable pub remove_user_mapping : String → UserIpMap → UserIpMap
remove_user_mapping ip m = erase ip m

-- The copy is made entry by entry.
unfoldable pub get_all_mappings : UserIpMap → UserIpMap
get_all_mappings m = copy_into [] m

pub record ExternalApiConfig : Type 0 where
  pub server_domain : String
  pub api_token : String
  pub sync_interval : ℤ

-- What the HTTP client gives: no request could be made, no answer came, or a status with a body.
pub data HttpAnswer : Type 0 where
  no_request : String → HttpAnswer
  no_answer : String → HttpAnswer
  answer : ℕ → String → HttpAnswer

-- The outcome of decoding a body, which the JSON library does.
pub data Decoded : Type 0 where
  undecodable : String → Decoded
  mappings : UserIpMap → Decoded

-- An error of `fetchUserMappingsFromAPI`.
pub data FetchError : Type 0 where
  request_failed : String → FetchError
  bad_status : ℕ → String → FetchError
  bad_response : String → FetchError

-- The loop over the mappings of the reply.
unfoldable pub set_all : UserIpMap → UserIpMap → UserIpMap
unfolding set_user_mapping
set_all [] m = m
set_all ((ip, mapping) ∷ rest) m = set_all rest (set_user_mapping ip mapping.user mapping.groups m)

unfoldable pub store_decoded : Decoded → UserIpMap → Option FetchError × UserIpMap
unfolding set_all
store_decoded (undecodable message) m = (some (bad_response message), m)
store_decoded (mappings new) m = (none, set_all new m)

abbrev pub is_configured : ExternalApiConfig → Bool
is_configured config = if config.server_domain == "" || config.api_token == "" then false else true

-- What the loop of `startExternalAPISync` waits for: the end of the context, or a tick, at
-- which the server gives an answer.
pub data Event : Type 0 where
  done : Event
  tick : HttpAnswer → Event

module _ (decode : String → Decoded) where
  -- `fetchUserMappingsFromAPI` once the server is asked: the error, and the map that it leaves.
  unfoldable pub store_answer : HttpAnswer → UserIpMap → Option FetchError × UserIpMap
  unfolding store_decoded
  store_answer (no_request message) m = (some (request_failed message), m)
  store_answer (no_answer message) m = (some (request_failed message), m)
  store_answer (answer status body) m =
      if nat_eq status 200
      then store_decoded (decode body) m
      else (some (bad_status status body), m)

  unfoldable pub fetch_user_mappings_from_api :
      ExternalApiConfig → HttpAnswer → UserIpMap → Option FetchError × UserIpMap
  unfolding store_answer
  fetch_user_mappings_from_api config reply m =
      if is_configured config then store_answer reply m else (none, m)

  unfoldable pub sync_loop : ExternalApiConfig → List Event → UserIpMap → UserIpMap
  unfolding fetch_user_mappings_from_api
  sync_loop config [] m = m
  sync_loop config (done ∷ events) m = m
  sync_loop config (tick reply ∷ events) m =
      sync_loop config events (fetch_user_mappings_from_api config reply m).1

  -- `first` is the answer to the initial fetch. `none` is the panic of `time.NewTicker` at an
  -- interval that is not positive.
  unfoldable pub start_external_api_sync :
      ExternalApiConfig → HttpAnswer → List Event → UserIpMap → Option UserIpMap
  unfolding sync_loop
  start_external_api_sync config first events m =
      if is_configured config
      then if is_positive config.sync_interval
        then some (sync_loop config events (fetch_user_mappings_from_api config first m).1)
        else none
      else some m
