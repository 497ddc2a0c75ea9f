-- ===== src/Proxy/Sync.antt =====
-- On internal/proxy/proxy.go.
-- What the synchronisation does to the user map.
use mathlib.Core.Option.{or_else}
use netmaker_k8s_ops.Base.{
  String, ◌==◌, ◌≡◌, ◌≢◌, refl, inl, inr, true, false, Option, none, some, List, [], ◌∷◌, lookup,
  insert, copy_into, NodupKeys, lookup-insert, lookup-erase, lookup-copy_into, arith, nat_eq,
  if◌then◌else◌, Bool-cases,
}
use netmaker_k8s_ops.Proxy.Users.{
  UserMapping, UserIpMap, set_user_mapping, get_user_mapping, remove_user_mapping, get_all_mappings,
  ExternalApiConfig, HttpAnswer, no_request, no_answer, answer, Decoded, undecodable, mappings,
  FetchError, set_all, store_decoded, is_configured, store_answer, fetch_user_mappings_from_api,
  Event, done, tick, sync_loop, start_external_api_sync,
}

or_else-none {ℓ} : {A : Type ℓ} (o : Option A) → or_else o none ≡ o
unfolding or_else
or_else-none none = refl
or_else-none (some v) = refl

-- The user map behaves as a function from addresses: setting and removing change the answer for
-- one address, and a copy of a map that has each key once answers as the map does.
pub user_map_refines :
    (ip j user : String) (groups : List String) (m : UserIpMap)
    → NodupKeys m
    → (get_user_mapping j (set_user_mapping ip user groups m)
        ≡ (if ip == j then (user, groups, true) else get_user_mapping j m))
      × (get_user_mapping j (remove_user_mapping ip m)
          ≡ (if ip == j then ("", [], false) else get_user_mapping j m))
      × (get_user_mapping j (get_all_mappings m) ≡ get_user_mapping j m)
unfolding get_user_mapping set_user_mapping remove_user_mapping get_all_mappings lookup
user_map_refines ip j user groups m h = (
  rw lookup-insert (ground arith),
  rw lookup-erase (ground arith),
  rw (lookup-copy_into j [] m h, or_else-none),
)

set_all-copy_into : (new m : UserIpMap) → set_all new m ≡ copy_into m new
unfolding set_all copy_into
set_all-copy_into [] m = refl
set_all-copy_into ((ip, mapping) ∷ rest) m = set_all-copy_into rest (insert ip mapping m)

pub lookup-set_all :
    (ip : String) (new m : UserIpMap)
    → NodupKeys new
    → lookup ip (set_all new m) ≡ or_else (lookup ip new) (lookup ip m)
lookup-set_all ip new m h = rw set_all-copy_into (lookup-copy_into ip m new h)

module _ (decode : String → Decoded) (config : ExternalApiConfig) where
  abbrev pub fetch : HttpAnswer → UserIpMap → Option FetchError × UserIpMap
  fetch = fetch_user_mappings_from_api decode config

  abbrev pub decoded : Decoded → Option UserIpMap
  decoded (undecodable _) = none
  decoded (mappings new) = some new

  -- The map that an answer carries, if its status is 200 and its body decodes.
  abbrev pub carried : HttpAnswer → Option UserIpMap
  carried (answer status body) = if nat_eq status 200 then decoded (decode body) else none
  carried _ = none

  store_decoded_lem :
      (d : Decoded) (ip : String) (m : UserIpMap)
      → ((new : UserIpMap) → decoded d ≡ some new → NodupKeys new)
      → lookup ip (store_decoded d m).1
        ≡ elim (decoded d) [ none ↦ lookup ip m | some new ↦ or_else (lookup ip new) (lookup ip m) ]
  unfolding store_decoded
  store_decoded_lem (undecodable message) ip m h = refl
  store_decoded_lem (mappings new) ip m h = lookup-set_all ip new m (h new refl)

  -- With the API configured, and where an answer has each address once: an address has, after a
  -- fetch, the mapping that the answer carries for it, and the one that
  -- it had where the answer carries none for it or carries no map at all.
  pub lookup-fetch :
      (reply : HttpAnswer) (ip : String) (m : UserIpMap)
      → is_configured config ≡ true
      → ((new : UserIpMap) → carried reply ≡ some new → NodupKeys new)
      → lookup ip (fetch reply m).1 ≡ elim (carried reply) [
        | none ↦ lookup ip m
        | some new ↦ or_else (lookup ip new) (lookup ip m)
      ]
  unfolding fetch_user_mappings_from_api store_answer
  lookup-fetch (no_request message) ip m on h = rw on
  lookup-fetch (no_answer message) ip m on h = rw on
  lookup-fetch (answer status body) ip m on h = rw on (elim (Bool-cases (nat_eq status 200)) [
    | inl ok ↦ rw ok (store_decoded_lem (decode body) ip m (rw ok at h))
    | inr failed ↦ rw failed
  ])

  insert-keeps :
      (ip j : String) (v : UserMapping) (m : UserIpMap)
      → lookup ip m ≢ none
      → lookup ip (insert j v m) ≢ none
  insert-keeps ip j v m h = ground (arith, lookup-insert j ip v m)

  set_all-keeps :
      (ip : String) (new m : UserIpMap) → lookup ip m ≢ none → lookup ip (set_all new m) ≢ none
  unfolding set_all set_user_mapping
  set_all-keeps ip [] m h = h
  set_all-keeps ip ((j, v) ∷ new) m h = set_all-keeps ip new _ (insert-keeps ip j v m h)

  decoded-keeps :
      (ip : String) (d : Decoded) (m : UserIpMap)
      → lookup ip m ≢ none
      → lookup ip (store_decoded d m).1 ≢ none
  unfolding store_decoded
  decoded-keeps ip (undecodable message) m h = h
  decoded-keeps ip (mappings new) m h = set_all-keeps ip new m h

  fetch-keeps :
      (ip : String) (reply : HttpAnswer) (m : UserIpMap)
      → lookup ip m ≢ none
      → lookup ip (fetch reply m).1 ≢ none
  unfolding fetch_user_mappings_from_api store_answer
  fetch-keeps ip (no_request message) m h = ground arith
  fetch-keeps ip (no_answer message) m h = ground arith
  fetch-keeps ip (answer status body) m h = ground (arith, decoded-keeps ip (decode body) m h)

  sync_loop-keeps :
      (ip : String) (events : List Event) (m : UserIpMap)
      → lookup ip m ≢ none
      → lookup ip (sync_loop decode config events m) ≢ none
  unfolding sync_loop
  sync_loop-keeps ip [] m h = h
  sync_loop-keeps ip (done ∷ events) m h = h
  sync_loop-keeps ip (tick reply ∷ events) m h =
      sync_loop-keeps ip events (fetch reply m).1 (fetch-keeps ip reply m h)

  -- A synchronisation that starts without a panic never removes an address: one that is mapped
  -- stays mapped, whatever the server answers from then on.
  pub sync-keeps :
      (ip : String) (first : HttpAnswer) (events : List Event) (m after : UserIpMap)
      → start_external_api_sync decode config first events m ≡ some after
      → lookup ip m ≢ none
      → lookup ip after ≢ none
  unfolding start_external_api_sync
  sync-keeps ip first events m after e h =
      ground (arith, sync_loop-keeps ip events (fetch first m).1 (fetch-keeps ip first m h))
