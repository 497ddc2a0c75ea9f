-- ===== src/Proxy/Lifetime.antt =====
-- On internal/proxy/proxy.go.
-- The identities that are looked up for requests over the whole life of the proxy: fetches follow one
-- another, each writes its mappings one by one in the order of a range over a Go map, and look-ups fall
-- between the writes. Each write and each look-up is one step, as Proxy/Locking.antt allows.
use netmaker_k8s_ops.Base.{
  String, ◌==◌, ◌≡◌, refl, sym, subst, ◌∙◌, ◌⊎◌, inl, inr, Option, none, some, List, [], ◌∷◌,
  lookup, lookup-insert, eq_iff, Bool-cases,
}
use netmaker_k8s_ops.Proxy.Users.{
  UserMapping, UserIpMap, new_user_ip_map, set_user_mapping, Decoded, mappings, get_user_mapping,
}
use netmaker_k8s_ops.Proxy.Config.{ProxyConfig}
use netmaker_k8s_ops.Proxy.Auth.{identity}

-- The map has this mapping for this address.
abbrev pub Has : String → UserMapping → UserIpMap → Type 0
Has ip v [] = ⊥
Has ip v ((at, w) ∷ rest) = ((at ≡ ip) × (w ≡ v)) ⊎ Has ip v rest

abbrev pub SameEntries : UserIpMap → UserIpMap → Type 0
SameEntries order new =
    (ip : String) (v : UserMapping)
    → (Has ip v order → Has ip v new) × (Has ip v new → Has ip v order)

-- Some answer of the API has had this mapping for this address.
abbrev pub FromSome : String → UserMapping → List UserIpMap → Type 0
FromSome ip v [] = ⊥
FromSome ip v (new ∷ before) = Has ip v new ⊎ FromSome ip v before

-- A user and groups.
abbrev pub Who : Type 0
Who = String × List String

-- The map, the mappings that a fetch has still to set, what the API has answered, and the user and
-- groups that were looked up for the requests of each address, the last first.
pub record Life : Type 0 where
  pub users : UserIpMap
  pub pending : UserIpMap
  pub answered : List UserIpMap
  pub seen : List (String × Who)

abbrev pub born : Life
born = record { users = new_user_ip_map; pending = []; answered = []; seen = [] }

module _ (decode : String → Decoded) (config : ProxyConfig) where
  -- `body` is that of an answer with status 200.
  pub data Step (s : Life) : Life → Type 0 where
    fetch :
        (body : String) (new order : UserIpMap)
        → s.pending ≡ []
        → decode body ≡ mappings new
        → SameEntries order new
        → Step s (record s { pending = order; answered = new ∷ s.answered })
    write :
        (ip : String) (v : UserMapping) (rest : UserIpMap)
        → s.pending ≡ (ip, v) ∷ rest
        → Step s (record s { users = set_user_mapping ip v.user v.groups s.users; pending = rest })
    serve : (ip : String) → Step s (record s { seen = (ip, identity config s.users ip) ∷ s.seen })

  pub data Reach : Life → Type 0 where
    birth : Reach born
    later : {s t : Life} → Reach s → Step s t → Reach t

  -- The default identity, or one that some answer of the API had for the address.
  abbrev pub IsProvided : List UserIpMap → String → Who → Type 0
  IsProvided answered ip sent =
      (sent ≡ (config.impersonate_user, config.impersonate_groups))
      ⊎ ((v : UserMapping) × FromSome ip v answered × (sent ≡ (v.user, v.groups)))

  abbrev pub AllProvided : List UserIpMap → List (String × Who) → Type 0
  AllProvided answered [] = Unit
  AllProvided answered ((ip, sent) ∷ rest) = IsProvided answered ip sent × AllProvided answered rest

  record IsAnswered (s : Life) : Type 0 where
    users : (ip : String) (v : UserMapping) → lookup ip s.users ≡ some v → FromSome ip v s.answered
    pending : (ip : String) (v : UserMapping) → Has ip v s.pending → FromSome ip v s.answered
    seen : AllProvided s.answered s.seen

  IsProvided-cons :
      (new : UserIpMap) (answered : List UserIpMap) (ip : String) (sent : Who)
      → IsProvided answered ip sent
      → IsProvided (new ∷ answered) ip sent
  IsProvided-cons new answered ip sent (inl default) = inl default
  IsProvided-cons new answered ip sent (inr (v, from, e)) = inr (v, inr from, e)

  AllProvided-cons :
      (new : UserIpMap) (answered : List UserIpMap) (l : List (String × Who))
      → AllProvided answered l
      → AllProvided (new ∷ answered) l
  AllProvided-cons new answered [] h = tt
  AllProvided-cons new answered ((ip, sent) ∷ rest) (now, before) =
      (IsProvided-cons new answered ip sent now, AllProvided-cons new answered rest before)

  identity-IsProvided :
      (answered : List UserIpMap) (users : UserIpMap) (ip : String) (found : Option UserMapping)
      → lookup ip users ≡ found
      → ((v : UserMapping) → found ≡ some v → FromSome ip v answered)
      → IsProvided answered ip (identity config users ip)
  unfolding identity get_user_mapping
  identity-IsProvided answered users ip none e h = inl (rw e refl)
  identity-IsProvided answered users ip (some v) e h = inr (v, h v refl, rw e refl)

  set-answered :
      (answered : List UserIpMap) (users : UserIpMap) (at ip : String) (w v : UserMapping)
      → FromSome at w answered
      → (lookup ip users ≡ some v → FromSome ip v answered)
      → lookup ip (set_user_mapping at w.user w.groups users) ≡ some v
      → FromSome ip v answered
  unfolding set_user_mapping
  set-answered answered users at ip w v from before e = elim (Bool-cases (at == ip)) [
    | inl it ↦
        let stored : some w ≡ some v = rw it at (sym (lookup-insert at ip w users) ∙ e) in
        let same : w ≡ v = cc in
        let here : FromSome at v answered = subst (λ u. FromSome at u answered) same from in
        subst (λ j. FromSome j v answered) ((eq_iff at ip).0 it) here
    | inr other ↦ before (rw other at (sym (lookup-insert at ip w users) ∙ e))
  ]

  Step-IsAnswered : {s t : Life} → Step s t → IsAnswered s → IsAnswered t
  Step-IsAnswered {s} (fetch body new order idle read same) h = record {
    users = λ ip v e. inr (h.users ip v e);
    pending = λ ip v has. inl ((same ip v).0 has);
    seen = AllProvided-cons new s.answered s.seen h.seen;
  }
  Step-IsAnswered {s} (write at w rest e) h =
      let pending : (ip : String) (v : UserMapping)
          → Has ip v ((at, w) ∷ rest)
          → FromSome ip v s.answered =
        subst (λ l. (ip : String) (v : UserMapping) → Has ip v l → FromSome ip v s.answered) e
          h.pending in
      record {
        users = λ ip v.
            set-answered s.answered s.users at ip w v (pending at w (inl (refl, refl)))
              (h.users ip v);
        pending = λ ip v has. pending ip v (inr has);
        seen = h.seen;
      }
  Step-IsAnswered {s} (serve ip) h = record {
    users = h.users;
    pending = h.pending;
    seen =
        (identity-IsProvided s.answered s.users ip (lookup ip s.users) refl (h.users ip), h.seen);
  }

  Reach-IsAnswered : {s : Life} → Reach s → IsAnswered s
  unfolding lookup
  Reach-IsAnswered birth = record { users = λ ip v e. cc; pending = λ ip v has. has; seen = tt }
  Reach-IsAnswered (later r step) = Step-IsAnswered step (Reach-IsAnswered r)

  -- However the look-ups of requests fall between the writes of the fetches, and in whatever order the
  -- mappings are written: the identity that the middleware looks up for a request in auth mode is the
  -- default one, or the user and the groups that the API has answered together for the address of its
  -- client.
  pub Reach-AllProvided : {s : Life} → Reach s → AllProvided s.answered s.seen
  Reach-AllProvided r = (Reach-IsAnswered r).seen
