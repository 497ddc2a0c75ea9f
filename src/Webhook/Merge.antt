-- ===== src/Webhook/Merge.antt =====
-- On internal/webhook/mutating_webhook.go.
-- Merged labels and annotations.
use mathlib.Core.Option.{or_else}
use netmaker_k8s_ops.Base.{
  String, ◌≡◌, refl, Option, none, some, [], lookup, copy_into, NodupKeys, lookup-copy_into,
  copy_into-NodupKeys, Labels, find, ◌∙◌,
}
use netmaker_k8s_ops.Webhook.Config.{entries, merge_annotations, merge_labels}

-- A map of an object: nil, or with each key once.
abbrev pub IsMap : Labels → Type 0
IsMap m = NodupKeys (entries m)

-- What a key has in `override`, and where that lacks it, in `base`.
abbrev pub Overrides : Labels → Labels → Labels → Type 0
Overrides merged base override =
    IsMap merged × ((k : String) → find k merged ≡ or_else (find k override) (find k base))

find-entries : (k : String) (m : Labels) → lookup k (entries m) ≡ find k m
unfolding lookup
find-entries k none = refl
find-entries k (some m) = refl

or_else-none : (o : Option String) → or_else o none ≡ o
unfolding or_else
or_else-none none = refl
or_else-none (some v) = refl

lookup-copies :
    (k : String) (base override : Labels)
    → IsMap base
    → IsMap override
    → lookup k (copy_into (copy_into [] (entries base)) (entries override))
      ≡ or_else (find k override) (find k base)
unfolding lookup
lookup-copies k base override hb ho =
    lookup-copy_into k (copy_into [] (entries base)) (entries override) ho
    ∙ rw (
      lookup-copy_into k [] (entries base) hb,
      or_else-none,
      find-entries k override,
      find-entries k base,
    )

-- For maps, which have each key once: merging keeps the workload's entries and lets those of the pod template override them, for
-- annotations and for labels alike, and whatever the order in which Go ranges over the maps.
pub merge-Overrides :
    (base override : Labels)
    → IsMap base
    → IsMap override
    → Overrides (merge_annotations base override) base override
      × Overrides (merge_labels base override) base override
unfolding merge_annotations merge_labels
merge-Overrides base override hb ho =
    let nodup =
      copy_into-NodupKeys (copy_into [] (entries base)) (entries override)
        (copy_into-NodupKeys [] (entries base) tt) in
    (
      (nodup, λ k. lookup-copies k base override hb ho),
      (nodup, λ k. lookup-copies k base override hb ho),
    )
