-- ===== src/Proxy/Locking/Whole.antt =====
-- On UserIPMapWithMutex of internal/proxy/proxy.go.
-- A look-up under the mutex finds a mapping as a whole.
use netmaker_k8s_ops.Base.{
  ℕ, String, ◌≡◌, refl, ◌⊎◌, inl, inr, true, false, none, some, Option, List, [], ◌∷◌, lookup,
  NodupKeys, lookup-insert, arith, eq_iff, ap, ◌∙◌, sym, subst, ◌==◌, Bool-cases, nat_eq,
}
use text.Mathlib.TextPositions.{eq_refl}
use netmaker_k8s_ops.Proxy.Users.{UserMapping, UserIpMap, set_user_mapping}
use netmaker_k8s_ops.Proxy.Locking.{
  Writer, idle, holding, half, written, Reader, outside, reading, part, whole, Locked, old_groups,
  user_of, with_groups, set_reader, Access, lock, put_user, put_groups, unlock, rlock, get_user,
  get_groups, runlock, Reach, here, next,
}

with_groups-user_of : (found : Option UserMapping) → with_groups (user_of found) found ≡ found
with_groups-user_of none = refl
with_groups-user_of (some m) = refl

module _ (old new : UserIpMap) where
  -- What the old map has for the address, or the mapping that the new one has.
  abbrev pub OldOrNew : String → Option UserMapping → Type 0
  OldOrNew ip found =
      (found ≡ lookup ip old) ⊎ ((v : UserMapping) × (found ≡ some v) × (lookup ip new ≡ some v))

  abbrev pub AllSeen : List (String × Option UserMapping) → Type 0
  AllSeen [] = Unit
  AllSeen ((ip, found) ∷ rest) = OldOrNew ip found × AllSeen rest

  -- The mappings still to be set are of the new map, each once.
  record IsLeft (pending : UserIpMap) : Type 0 where
    of_new : (ip : String) (v : UserMapping) → lookup ip pending ≡ some v → lookup ip new ≡ some v
    once : NodupKeys pending

  abbrev IsReading : UserIpMap → Reader → Type 0
  IsReading users outside = Unit
  IsReading users (reading ip) = Unit
  IsReading users (part ip user) = user ≡ user_of (lookup ip users)
  IsReading users (whole ip found) = OldOrNew ip found

  -- The mapping of `j` is half written.
  abbrev IsHalf : Locked → String → Type 0
  IsHalf s j =
      (s.writer ≡ half) × ((v : UserMapping) × (rest : UserIpMap) × (s.pending ≡ (j, v) ∷ rest))

  record IsSafe (s : Locked) : Type 0 where
    alone : (s.writer ≡ idle) ⊎ ((i : ℕ) → s.readers i ≡ outside)
    readers : (i : ℕ) → IsReading s.users (s.readers i)
    users : (j : String) → OldOrNew j (lookup j s.users) ⊎ IsHalf s j
    left : IsLeft s.pending
    seen : AllSeen s.seen

  IsLeft-head :
      (ip : String) (v : UserMapping) (rest : UserIpMap)
      → IsLeft ((ip, v) ∷ rest)
      → lookup ip new ≡ some v
  unfolding lookup
  IsLeft-head ip v rest h = h.of_new ip v (rw eq_refl)

  IsLeft-tail :
      (ip : String) (v : UserMapping) (rest : UserIpMap) → IsLeft ((ip, v) ∷ rest) → IsLeft rest
  unfolding lookup
  IsLeft-tail ip v rest h = record {
    of_new = λ j w e. h.of_new j w (ground (arith, eq_iff ip j, h.once));
    once = h.once.1;
  }

  -- Nothing is half written unless the writer stands there.
  settled :
      (s : Locked) (j : String) (w : Writer)
      → IsSafe s
      → s.writer ≡ w
      → (w ≡ half → ⊥)
      → OldOrNew j (lookup j s.users)
  settled s j w h at apart = elim (h.users j) [
    | inl fine ↦ fine
    | inr (is_half, _) ↦ absurd (apart (sym at ∙ is_half))
  ]

  no_readers :
      (s : Locked) (w : Writer)
      → IsSafe s
      → s.writer ≡ w
      → (w ≡ idle → ⊥)
      → (i : ℕ) → s.readers i ≡ outside
  no_readers s w h at busy = elim h.alone [
    | inl is_idle ↦ absurd (busy (sym at ∙ is_idle))
    | inr nobody ↦ nobody
  ]

  no_writer :
      (s : Locked) (i : ℕ) (r : Reader)
      → IsSafe s
      → s.readers i ≡ r
      → (r ≡ outside → ⊥)
      → s.writer ≡ idle
  no_writer s i r h at inside = elim h.alone [
    | inl is_idle ↦ is_idle
    | inr nobody ↦ absurd (inside (sym at ∙ nobody i))
  ]

  set-IsReading :
      (users : UserIpMap) (i : ℕ) (r : Reader) (readers : ℕ → Reader)
      → IsReading users r
      → ((j : ℕ) → IsReading users (readers j))
      → (j : ℕ) → IsReading users (set_reader i r readers j)
  set-IsReading users i r readers h hs j = elim (Bool-cases (nat_eq j i)) [
    | inl same ↦ rw same h
    | inr other ↦ rw other (hs j)
  ]

  -- Writing the mapping of one address leaves the others.
  set_other :
      (ip j : String) (user : String) (groups : List String) (m : UserIpMap)
      → (ip == j) ≡ false
      → lookup j (set_user_mapping ip user groups m) ≡ lookup j m
  unfolding set_user_mapping
  set_other ip j user groups m other = rw lookup-insert (rw other refl)

  set_same :
      (ip j : String) (v : UserMapping) (m : UserIpMap)
      → (ip == j) ≡ true
      → lookup j (set_user_mapping ip v.user v.groups m) ≡ some v
  unfolding set_user_mapping
  set_same ip j v m same = rw lookup-insert (rw same refl)

  at_key :
      (ip j : String) (v : UserMapping)
      → (ip == j) ≡ true
      → lookup ip new ≡ some v
      → lookup j new ≡ some v
  at_key ip j v same there = subst (λ k. lookup k new ≡ some v) ((eq_iff ip j).0 same) there

  put_user-users :
      (s : Locked) (ip : String) (v : UserMapping) (rest : UserIpMap) (j : String)
      → IsSafe s
      → s.pending ≡ (ip, v) ∷ rest
      → s.writer ≡ holding
      → OldOrNew j (lookup j (set_user_mapping ip v.user (old_groups (lookup ip s.users)) s.users))
        ⊎ ((w : UserMapping) × (more : UserIpMap) × (s.pending ≡ (j, w) ∷ more))
  put_user-users s ip v rest j h pending at = elim (Bool-cases (ip == j)) [
    | inl same ↦
        let at_j : ip ≡ j = (eq_iff ip j).0 same in
        inr (v, rest, subst (λ k. s.pending ≡ (k, v) ∷ rest) at_j pending)
    | inr other ↦ inl (
        subst (OldOrNew j)
          (sym (set_other ip j v.user (old_groups (lookup ip s.users)) s.users other))
          (settled s j holding h at λ e. cc e))
  ]

  put_groups-users :
      (s : Locked) (ip : String) (v : UserMapping) (rest : UserIpMap) (j : String)
      → IsSafe s
      → s.pending ≡ (ip, v) ∷ rest
      → OldOrNew j (lookup j (set_user_mapping ip v.user v.groups s.users))
  put_groups-users s ip v rest j h pending = elim (Bool-cases (ip == j)) [
    | inl same ↦ inr (
      v,
      set_same ip j v s.users same,
      at_key ip j v same (IsLeft-head ip v rest (subst IsLeft pending h.left)),
    )
    | inr other ↦
        subst (OldOrNew j) (sym (set_other ip j v.user v.groups s.users other)) (elim (h.users j) [
          | inl fine ↦ fine
          | inr (_, (w, more, head)) ↦
              let same : ip ≡ j = cc (pending, head) in absurd (cc ((eq_iff ip j).1 same, other))
        ])
  ]

  Access-IsSafe : {s t : Locked} → Access s t → IsSafe s → IsSafe t
  Access-IsSafe {s} (lock ip v rest pending at nobody) h = record {
    alone = inr nobody;
    readers = h.readers;
    users = λ j. inl (settled s j idle h at λ e. cc e);
    left = h.left;
    seen = h.seen;
  }
  Access-IsSafe {s} (put_user ip v rest pending at) h =
      let nobody = no_readers s holding h at λ e. cc e in
      record {
        alone = inr nobody;
        readers = λ i. subst (IsReading _) (sym (nobody i)) tt;
        users = λ j. elim (put_user-users s ip v rest j h pending at) [
          | inl fine ↦ inl fine
          | inr head ↦ inr (refl, head)
        ];
        left = h.left;
        seen = h.seen;
      }
  Access-IsSafe {s} (put_groups ip v rest pending at) h =
      let nobody = no_readers s half h at λ e. cc e in
      record {
        alone = inr nobody;
        readers = λ i. subst (IsReading _) (sym (nobody i)) tt;
        users = λ j. inl (put_groups-users s ip v rest j h pending);
        left = h.left;
        seen = h.seen;
      }
  Access-IsSafe {s} (unlock ip v rest pending at) h = record {
    alone = inl refl;
    readers = h.readers;
    users = λ j. inl (settled s j written h at λ e. cc e);
    left = IsLeft-tail ip v rest (subst IsLeft pending h.left);
    seen = h.seen;
  }
  Access-IsSafe {s} (rlock i ip at free) h = record {
    alone = inl free;
    readers = set-IsReading s.users i (reading ip) s.readers tt h.readers;
    users = h.users;
    left = h.left;
    seen = h.seen;
  }
  Access-IsSafe {s} (get_user i ip at) h = record {
    alone = inl (no_writer s i (reading ip) h at λ e. cc e);
    readers =
        set-IsReading s.users i (part ip (user_of (lookup ip s.users))) s.readers refl h.readers;
    users = h.users;
    left = h.left;
    seen = h.seen;
  }
  Access-IsSafe {s} (get_groups i ip user at) h =
      let free = no_writer s i (part ip user) h at λ e. cc e in
      let same : user ≡ user_of (lookup ip s.users) = subst (IsReading s.users) at (h.readers i) in
      let found : OldOrNew ip (with_groups user (lookup ip s.users)) =
        subst (OldOrNew ip)
          (sym (
            ap (λ u. with_groups u (lookup ip s.users)) same
            ∙ with_groups-user_of (lookup ip s.users)))
          (settled s ip idle h free λ e. cc e) in
      record {
        alone = inl free;
        readers = set-IsReading s.users i (whole ip _) s.readers found h.readers;
        users = h.users;
        left = h.left;
        seen = h.seen;
      }
  Access-IsSafe {s} (runlock i ip found at) h = record {
    alone = inl (no_writer s i (whole ip found) h at λ e. cc e);
    readers = set-IsReading s.users i outside s.readers tt h.readers;
    users = h.users;
    left = h.left;
    seen = (subst (IsReading s.users) at (h.readers i), h.seen);
  }

  Reach-IsSafe : {s t : Locked} → IsSafe s → Reach s t → IsSafe t
  Reach-IsSafe h here = h
  Reach-IsSafe h (next r access) = Access-IsSafe access (Reach-IsSafe h r)

  -- Where the new map has each address once: however the accesses of any number of requests and of a
  -- fetch fall between each other, as far as the mutex lets them, each request that has ended its look-up
  -- has found what the old map has for its address, or the mapping that the new map has, and never the
  -- user of one with the groups of the other.
  pub Reach-AllSeen :
      {s : Locked}
      → NodupKeys new
      → Reach
          (record { users = old; pending = new; writer = idle; readers = λ _. outside; seen = [] })
          s
      → AllSeen s.seen
  Reach-AllSeen nodup r =
      (Reach-IsSafe
        (record {
          alone = inl refl;
          readers = λ i. tt;
          users = λ j. inl (inl refl);
          left = record { of_new = λ ip v e. e; once = nodup };
          seen = tt;
        })
        r).seen
