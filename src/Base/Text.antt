-- ===== src/Base/Text.antt =====
-- The functions of the packages strings and strconv that the program uses, over code points.
use Prim.Native.Nat.{ℕ, zero, suc, ◌+◌, ◌-◌, ◌*◌, ◌^◌}
use Prim.Native.Char.{Char, code}
use Prim.Native.String.{String, ◌++◌ as ◌<>◌}
use mathlib.Core.Bool.{Bool, true, false, ◌&&◌, ◌||◌}
use mathlib.Core.Option.{Option, none, some}
use mathlib.Core.List.{List, [], ◌∷◌}
use netmaker_k8s_ops.Base.Tests.{if◌then◌else◌, ltb, leb, nat_eq}

abbrev pub codes : String → List ℕ
codes String.[] = []
codes (String.◌∷◌ c s) = code c ∷ codes s

-- `strings.ToLower` as far as a comparison with an ASCII word without "i" and "k" sees it: those
-- two are the letters that have a capital outside ASCII.
abbrev lower : ℕ → ℕ
lower c = if leb 65 c && leb c 90 then c + 32 else c

abbrev pub same_codes : List ℕ → List ℕ → Bool
same_codes [] [] = true
same_codes (a ∷ xs) (b ∷ ys) = nat_eq (lower a) b && same_codes xs ys
same_codes _ _ = false

-- `strings.ToLower(s) == word`
unfoldable pub lowers_to : String → String → Bool
lowers_to s word = same_codes (codes s) (codes word)

abbrev begins_with : List ℕ → List ℕ → Bool
begins_with [] s = true
begins_with (a ∷ part) [] = false
begins_with (a ∷ part) (b ∷ s) = nat_eq a b && begins_with part s

abbrev has_codes : List ℕ → List ℕ → Bool
has_codes part [] = begins_with part []
has_codes part (b ∷ s) = begins_with part (b ∷ s) || has_codes part s

-- `strings.Contains(s, part)`
unfoldable pub contains : String → String → Bool
contains s part = has_codes (codes part) (codes s)

-- `strings.Split(s, ",")`, with the part that is being read.
unfoldable pub split_from : String → String → List String
split_from part String.[] = part ∷ []
split_from part (String.◌∷◌ c s) =
    let next = split_from "" s in
    let longer = split_from (part <> String.◌∷◌ c "") s in
    if nat_eq (code c) b',' then part ∷ next else longer

unfoldable pub split_comma : String → List String
unfolding split_from
split_comma s = split_from "" s

-- `unicode.IsSpace`
unfoldable pub is_space : ℕ → Bool
is_space c =
    (leb 9 c && leb c 13)
    || nat_eq c 32
    || nat_eq c 0x85
    || nat_eq c 0xA0
    || nat_eq c 0x1680
    || (leb 0x2000 c && leb c 0x200a)
    || nat_eq c 0x2028
    || nat_eq c 0x2029
    || nat_eq c 0x202f
    || nat_eq c 0x205f
    || nat_eq c 0x3000

unfoldable pub trim_left : String → String
unfolding is_space
trim_left String.[] = ""
trim_left (String.◌∷◌ c s) =
    let rest = trim_left s in if is_space (code c) then rest else String.◌∷◌ c s

-- A space is kept if something else follows it.
keep : Char → String → String
unfolding is_space
keep c String.[] = if is_space (code c) then "" else String.◌∷◌ c ""
keep c (String.◌∷◌ d t) = String.◌∷◌ c (String.◌∷◌ d t)

unfoldable pub trim_right : String → String
unfolding keep
trim_right String.[] = ""
trim_right (String.◌∷◌ c s) = keep c (trim_right s)

-- `strings.TrimSpace`
unfoldable pub trim_space : String → String
unfolding trim_left trim_right
trim_space s = trim_left (trim_right s)

-- `strings.Join(parts, ",")`
unfoldable pub join_comma : List String → String
join_comma [] = ""
join_comma (p ∷ []) = p
join_comma (p ∷ q ∷ ps) = p <> ("," <> join_comma (q ∷ ps))

-- `negsuc n` is -(n + 1).
pub data ℤ : Type 0 where
  pos : ℕ → ℤ
  negsuc : ℕ → ℤ

abbrev pub is_positive : ℤ → Bool
is_positive (pos zero) = false
is_positive (pos (suc n)) = true
is_positive (negsuc n) = false

unfoldable pub read_digits : ℕ → String → Option ℕ
read_digits n String.[] = some n
read_digits n (String.◌∷◌ c s) =
    let rest = read_digits (n * 10 + (code c - 48)) s in
    if leb 48 (code c) && leb (code c) 57 then rest else none

-- At least one digit.
unfoldable pub read_number : String → Option ℕ
unfolding read_digits
read_number String.[] = none
read_number s = read_digits 0 s

abbrev in_range : Option ℕ → Option ℤ
in_range none = none
in_range (some n) = if ltb n (2 ^ 63) then some (pos n) else none

abbrev negative : Option ℕ → Option ℤ
negative none = none
negative (some zero) = some (pos 0)
negative (some (suc n)) = if ltb n (2 ^ 63) then some (negsuc n) else none

-- `strconv.Atoi`, `none` for an error: a sign, then digits, within 64 bits.
unfoldable pub atoi : String → Option ℤ
unfolding read_number
atoi String.[] = none
atoi (String.◌∷◌ c s) =
    if nat_eq (code c) b'-'
    then negative (read_number s)
    else if nat_eq (code c) b'+'
    then in_range (read_number s)
    else in_range (read_number (String.◌∷◌ c s))
