-- ===== src/Proxy/Netclient/Panics.antt =====
-- On internal/proxy/proxy.go: when `checkNetclientContainer` panics.
use Prim.Native.String.{String}
use Prim.Native.Char.{code}
use netmaker_k8s_ops.Base.{
  ◌==◌, ◌≡◌, ◌≢◌, ◌↔◌, refl, ap, Bool, true, false, ◌||◌, not, eq_iff, arith, Bool-cases, inl, inr,
  Option, none, some, List, [], ◌∷◌, leb,
}
use netmaker_k8s_ops.Proxy.Netclient.{
  has_wg_prefix, is_wire_guard, add_name, wire_guard_interfaces, found_status, listed_status,
  status_of, first_present, check_netclient_container,
}

-- A name of fewer than two bytes.
abbrev pub is_short : String → Bool
is_short String.[] = true
is_short (String.◌∷◌ c String.[]) = not (leb 128 (code c))
is_short (String.◌∷◌ c (String.◌∷◌ d s)) = false

abbrev pub any_short : List String → Bool
any_short [] = false
any_short (name ∷ names) = is_short name || any_short names

short-other :
    (name word : String) → is_short name ≡ true → is_short word ≡ false → (name == word) ≡ false
short-other name word short long = elim (Bool-cases (name == word)) [
  | inr other ↦ other
  | inl same ↦
      let e : name ≡ word = ground (arith, same, eq_iff name word) in
      cc (ap is_short e, short, long)
]

has_wg_prefix-short : (name : String) → is_short name ≡ true → has_wg_prefix name ≡ none
unfolding has_wg_prefix
has_wg_prefix-short String.[] short = refl
has_wg_prefix-short (String.◌∷◌ c String.[]) short = ground arith
has_wg_prefix-short (String.◌∷◌ c (String.◌∷◌ d s)) short = cc short

has_wg_prefix-long : (name : String) → is_short name ≡ false → has_wg_prefix name ≢ none
unfolding has_wg_prefix
has_wg_prefix-long String.[] long e = cc long
has_wg_prefix-long (String.◌∷◌ c String.[]) long e = ground arith
has_wg_prefix-long (String.◌∷◌ c (String.◌∷◌ d s)) long e = cc e

is_wire_guard-short : (name : String) → is_short name ≡ true → is_wire_guard name ≡ none
unfolding is_wire_guard
is_wire_guard-short name short =
    rw (short-other name "wg0" short refl, short-other name "netmaker" short refl)
      (has_wg_prefix-short name short)

is_wire_guard-long : (name : String) → is_short name ≡ false → is_wire_guard name ≢ none
unfolding is_wire_guard
is_wire_guard-long name long e = elim (Bool-cases (name == "wg0" || name == "netmaker")) [
  | inl known ↦ cc (rw known at e)
  | inr other ↦ has_wg_prefix-long name long (rw other at e)
]

add_name-none :
    (name : String) (o : Option Bool) (l : Option (List String))
    → o ≢ none
    → l ≢ none
    → add_name name o l ≢ none
add_name-none name none l h k e = absurd (h refl)
add_name-none name (some b) none h k e = absurd (k refl)
add_name-none name (some b) (some found) h k e = cc e

add_name_rest : (name : String) (o : Option Bool) → add_name name o none ≡ none
add_name_rest name none = refl
add_name_rest name (some b) = refl

interfaces-short :
    (names : List String) → any_short names ≡ true → wire_guard_interfaces names ≡ none
unfolding wire_guard_interfaces
interfaces-short [] short = cc short
interfaces-short (name ∷ names) short = elim (Bool-cases (is_short name)) [
  | inl this ↦ rw (is_wire_guard-short name this) refl
  | inr long ↦
      rw (interfaces-short names (rw long at short)) (add_name_rest name (is_wire_guard name))
]

interfaces-long :
    (names : List String) → any_short names ≡ false → wire_guard_interfaces names ≢ none
unfolding wire_guard_interfaces
interfaces-long [] long e = cc e
interfaces-long (name ∷ names) long e =
    add_name-none name (is_wire_guard name) (wire_guard_interfaces names)
      (is_wire_guard-long name (ground arith)) (interfaces-long names (ground arith)) e

-- A name of fewer than two bytes is among those that were listed.
abbrev pub lists_short : Option (List String) → Bool
lists_short none = false
lists_short (some names) = any_short names

found_status-none : (found : Option (List String)) → found ≢ none → found_status found ≢ none
found_status-none none h e = absurd (h refl)
found_status-none (some []) h e = cc e
found_status-none (some (name ∷ found)) h e = cc e

listed-panics :
    (listing : Option (List String)) → lists_short listing ≡ true → listed_status listing ≡ none
listed-panics none short = cc short
listed-panics (some names) short = rw (interfaces-short names short) refl

listed-returns :
    (listing : Option (List String)) → lists_short listing ≡ false → listed_status listing ≢ none
listed-returns none long e = cc e
listed-returns (some names) long e =
    found_status-none (wire_guard_interfaces names) (interfaces-long names long) e

status_of-panics :
    (present : Option String) (listing : Option (List String))
    → (status_of present listing ≡ none) ↔ ((present ≡ none) × (lists_short listing ≡ true))
status_of-panics (some name) listing = (λ e. cc e, λ (e, _). cc e)
status_of-panics none listing = (
  λ e. elim (Bool-cases (lists_short listing)) [
    | inl short ↦ (refl, short)
    | inr long ↦ absurd (listed-returns listing long e)
  ],
  λ (_, short). listed-panics listing short,
)

-- The check panics exactly if none of the five names is there and the list of interfaces can be read
-- and has a name of fewer than two bytes.
pub check_netclient_container-panics_iff :
    (stat : String → Bool) (listing : Option (List String))
    → (check_netclient_container stat listing ≡ none) ↔ (
        (first_present stat ("wg0" ∷ "netmaker" ∷ "nm-*" ∷ "wg1" ∷ "wg2" ∷ []) ≡ none)
        × (lists_short listing ≡ true))
unfolding check_netclient_container
check_netclient_container-panics_iff stat listing =
    status_of-panics (first_present stat ("wg0" ∷ "netmaker" ∷ "nm-*" ∷ "wg1" ∷ "wg2" ∷ [])) listing
