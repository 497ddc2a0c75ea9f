-- ===== src/Base/Int64.antt =====
-- `int64`: a word below 2 ^ 64, and the integer that it stands for.
use Prim.Native.Nat.{ℕ, ◌-◌, ◌*◌, ◌%◌, ◌^◌, ◌≤◌}
use mathlib.Core.Path.{◌≡◌}
use mathlib.Core.Bool.{Bool, true, false}
use native.Mathlib.Omega.{arith}
use netmaker_k8s_ops.Base.Tests.{if◌then◌else◌, ltb}
use netmaker_k8s_ops.Base.Text.{ℤ, pos, negsuc}

abbrev pub word : ℤ → ℕ
word (pos n) = n % 2 ^ 64
word (negsuc n) = 2 ^ 64 - 1 - n % 2 ^ 64

abbrev pub signed : ℕ → ℤ
signed w = if ltb w (2 ^ 63) then pos w else negsuc (2 ^ 64 - 1 - w)

-- The product wraps around.
unfoldable pub mul_int64 : ℤ → ℤ → ℤ
mul_int64 a b = signed (word a * word b % 2 ^ 64)

-- a < b
abbrev pub lt_int : ℤ → ℤ → Bool
lt_int (pos a) (pos b) = ltb a b
lt_int (pos a) (negsuc b) = false
lt_int (negsuc a) (pos b) = true
lt_int (negsuc a) (negsuc b) = ltb b a

-- `time.Second`, in nanoseconds.
abbrev pub second : ℤ
second = pos 1000000000

-- `time.Duration(secs) * time.Second`
unfoldable pub seconds : ℤ → ℤ
unfolding mul_int64
seconds secs = mul_int64 secs second

-- Up to 9223372036 seconds the product is exact.
pub seconds_lem : (n : ℕ) → n ≤ 9223372036 → seconds (pos n) ≡ pos (n * 1000000000)
unfolding seconds
seconds_lem n h = ground arith
