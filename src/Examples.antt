-- ===== src/Examples.antt =====
-- Runs of the shared functions on text and on numbers of 64 bits.
use netmaker_k8s_ops.Base.{
  ◌≡◌, refl, true, none, some, [], ◌∷◌, decimal, trim_space, split_comma, lowers_to, atoi, seconds,
  pos, negsuc,
}

decimal_tests : (decimal 0 ≡ "0") × (decimal 8085 ≡ "8085") × (decimal 65535 ≡ "65535")
unfolding decimal
decimal_tests = (refl, refl, refl)

text_tests :
    (trim_space " \ta b " ≡ "a b")
    × (split_comma "a,,b" ≡ "a" ∷ "" ∷ "b" ∷ [])
    × (lowers_to "NoAuth" "noauth" ≡ true)
    × (atoi "-12" ≡ some (negsuc 11))
    × (atoi "+30" ≡ some (pos 30))
    × (atoi "9223372036854775808" ≡ none)
    × (atoi "3s" ≡ none)
unfolding trim_space split_comma lowers_to atoi
text_tests = (refl, refl, refl, refl, refl, refl, refl)

-- A second more than nine thousand million of them wraps around.
int64_tests :
    (seconds (pos 9223372037) ≡ negsuc 9223372036709551615)
    × (seconds (negsuc 0) ≡ negsuc 999999999)
unfolding seconds
int64_tests = (refl, refl)
