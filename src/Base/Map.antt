-- ===== src/Base/Map.antt =====
-- Go maps with string keys, as association lists, and the built-in operations on them.
-- A nil map is `none`; reading it finds nothing.
use Prim.Native.String.{String}
use mathlib.Core.Path.{◌≡◌, refl}
use mathlib.Core.Option.{Option, none, some, or_else}
use mathlib.Core.List.{List, [], ◌∷◌}
use native.Mathlib.Omega.{arith}
use text.Mathlib.Text.{◌==◌}
use text.Mathlib.TextEquality.{eq_iff}
use netmaker_k8s_ops.Base.Tests.{if◌then◌else◌}

abbrev pub Dict {ℓ} : Type ℓ → Type ℓ
Dict V = List (String × V)

-- A Go map has each key once. The operations below take any list: the first entry counts.
module _ {ℓ} {V : Type ℓ} where
  -- `v, ok := m[key]`
  unfoldable pub lookup : String → Dict V → Option V
  lookup key [] = none
  lookup key ((at, stored) ∷ rest) = if at == key then some stored else lookup key rest

  -- `m[key] = value`
  unfoldable pub insert : String → V → Dict V → Dict V
  insert key value [] = (key, value) ∷ []
  insert key value ((at, stored) ∷ rest) =
      let behind = insert key value rest in
      if at == key then (key, value) ∷ rest else (at, stored) ∷ behind

  -- `delete(m, k)`
  unfoldable pub erase : String → Dict V → Dict V
  erase k [] = []
  erase k ((j, w) ∷ m) = let rest = erase k m in if j == k then rest else (j, w) ∷ rest

  -- `for k, v := range m { result[k] = v }`
  unfoldable pub copy_into : Dict V → Dict V → Dict V
  copy_into result [] = result
  copy_into result ((k, v) ∷ m) = copy_into (insert k v result) m

  abbrev pub NodupKeys : Dict V → Type ℓ
  NodupKeys [] = Unit
  NodupKeys ((k, _) ∷ m) = (lookup k m ≡ none) × NodupKeys m

  -- Reading after a write: `key` is written and `other` is read.
  pub lookup-insert :
      (key other : String) (value : V) (entries : Dict V)
      → lookup other (insert key value entries)
        ≡ (if key == other then some value else lookup other entries)
  unfolding insert lookup
  lookup-insert key other value [] = refl
  lookup-insert key other value ((at, stored) ∷ rest) =
      let behind = lookup-insert key other value rest in
      ground (arith, behind, eq_iff at key, eq_iff at other, eq_iff key other)

  pub lookup-erase :
      (k j : String) (m : Dict V) → lookup j (erase k m) ≡ (if k == j then none else lookup j m)
  unfolding lookup erase
  lookup-erase k j [] = ground arith
  lookup-erase k j ((i, w) ∷ m) =
      ground (arith, lookup-erase k j m, eq_iff i k, eq_iff i j, eq_iff k j)

  pub insert-NodupKeys : (k : String) (v : V) (m : Dict V) → NodupKeys m → NodupKeys (insert k v m)
  unfolding insert lookup
  insert-NodupKeys k v [] h = (refl, tt)
  insert-NodupKeys k v ((j, w) ∷ m) (fresh, u) =
      ground (arith, insert-NodupKeys k v m u, lookup-insert k j v m, eq_iff j k, eq_iff k j)

  pub copy_into-NodupKeys : (result m : Dict V) → NodupKeys result → NodupKeys (copy_into result m)
  unfolding copy_into
  copy_into-NodupKeys result [] h = h
  copy_into-NodupKeys result ((k, v) ∷ m) h =
      copy_into-NodupKeys (insert k v result) m (insert-NodupKeys k v result h)

  -- After the copy a key has the value of the copied map where that has one.
  pub lookup-copy_into :
      (j : String) (result m : Dict V)
      → NodupKeys m
      → lookup j (copy_into result m) ≡ or_else (lookup j m) (lookup j result)
  unfolding copy_into lookup or_else
  lookup-copy_into j result [] h = refl
  lookup-copy_into j result ((k, v) ∷ m) (fresh, u) =
      ground
        (arith, lookup-copy_into j (insert k v result) m u, lookup-insert k j v result, eq_iff k j)
