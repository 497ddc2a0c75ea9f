-- ===== src/Base/Config.antt =====
-- Reading configuration: environment variables, maps that may be nil, and `%d`.
use Prim.Native.Nat.{ℕ, zero, suc, ◌/◌, ◌%◌}
use Prim.Native.String.{String, ◌++◌ as ◌<>◌}
use mathlib.Core.Option.{Option, none, some, get_or}
use text.Mathlib.Text.{◌==◌}
use netmaker_k8s_ops.Base.Tests.{if◌then◌else◌, ltb, nat_eq}
use netmaker_k8s_ops.Base.Map.{Dict, lookup}

-- `os.Getenv`: an unset variable reads as "".
abbrev pub Env : Type 0
Env = String → String

-- `os.Setenv`; `os.Unsetenv` is the same with the value "", for all that the program reads.
abbrev pub setenv : String → String → Env → Env
setenv key value env name = if key == name then value else env name

-- A `map[string]string` field of an object: `none` is nil.
abbrev pub Labels : Type 0
Labels = Option (Dict String)

-- `v, exists := m[key]`
abbrev pub find : String → Labels → Option String
find key none = none
find key (some m) = lookup key m

-- `m[key]`
abbrev pub index : Labels → String → String
index m key = get_or (find key m) ""

-- `if m != nil { if v, exists := m[key]; exists && v != "" { return v } }; return otherwise`
abbrev pub value_or : String → Labels → String → String
value_or key m otherwise = elim (find key m) [
  | none ↦ otherwise
  | some v ↦ if v == "" then otherwise else v
]

digit : ℕ → String
digit n =
    if nat_eq n 0
    then "0"
    else if nat_eq n 1
    then "1"
    else if nat_eq n 2
    then "2"
    else if nat_eq n 3
    then "3"
    else if nat_eq n 4
    then "4"
    else if nat_eq n 5
    then "5"
    else if nat_eq n 6
    then "6"
    else if nat_eq n 7
    then "7"
    else if nat_eq n 8
    then "8"
    else "9"

-- One digit is put in front at each round.
decimal_from : ℕ → ℕ → String → String
decimal_from zero n acc = acc
decimal_from (suc fuel) n acc =
    let longer = decimal_from fuel (n / 10) (digit (n % 10) <> acc) in
    if ltb n 10 then digit n <> acc else longer

-- The verb `%d` at a number that is not negative. A number has fewer digits than `n + 1`.
unfoldable pub decimal : ℕ → String
unfolding decimal_from digit
decimal n = decimal_from (suc n) n ""
