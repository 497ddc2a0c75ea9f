-- ===== src/Kube/Within.antt =====
-- How many calls a handler makes before it returns.
use netmaker_k8s_ops.Base.{
  ℕ, zero, suc, ◌+◌, ◌≤◌, ◌≡◌, refl, Bool, true, false, length, arith, if◌then◌else◌,
}
use netmaker_k8s_ops.Kube.Client.{
  Response, Prog, ret, panic, ask, ◌>>=◌, Client, run, calls, returned,
}

module _ {ℓ} {A : Type ℓ} where
  -- For all answers the program returns, without a panic and after at most `n` calls.
  abbrev pub Within : ℕ → Prog A → Type 0
  Within n (ret a) = Unit
  Within n (panic m) = ⊥
  Within zero (ask c k) = ⊥
  Within (suc n) (ask c k) = (r : Response c) → Within n (k r)

  pub Within-le : (n t : ℕ) (m : Prog A) → n ≤ t → Within n m → Within t m
  Within-le n t (ret a) h p = tt
  Within-le n t (panic m) h p = p
  Within-le zero t (ask c k) h p = absurd p
  Within-le (suc n) zero (ask c k) h p = absurd (omega arith)
  Within-le (suc n) (suc t) (ask c k) h p = λ r. Within-le n t (k r) (omega arith) (p r)

  pub Within-if :
      (n : ℕ) (b : Bool) (m p : Prog A) → Within n m → Within n p → Within n (if b then m else p)
  Within-if n true m p h g = h
  Within-if n false m p h g = g

  pub run-Within :
      (C : Client) (n : ℕ) (m : Prog A) (s : C.State)
      → Within n m
      → (a : A) × ((run C m s).0 ≡ returned a) × (length (calls C m s) ≤ n)
  run-Within C n (ret a) s p = (a, refl, omega arith)
  run-Within C n (panic m) s p = absurd p
  run-Within C zero (ask c k) s p = absurd p
  run-Within C (suc n) (ask c k) s p =
      let r = (C.serve c s).0 in
      let (a, returns, bound) = run-Within C n (k r) (C.serve c s).1 (p r) in
      (a, returns, omega arith)

pub Within-bind {ℓ κ} :
    {A : Type ℓ} {B : Type κ} (n k t : ℕ) (m : Prog A) (f : A → Prog B)
    → n + k ≤ t
    → Within n m
    → ((a : A) → Within k (f a))
    → Within t (m >>= f)
Within-bind n k t (ret a) f h p q = Within-le k t (f a) (omega arith) (q a)
Within-bind n k t (panic m) f h p q = absurd p
Within-bind zero k t (ask c g) f h p q = absurd p
Within-bind (suc n) k zero (ask c g) f h p q = absurd (omega arith)
Within-bind (suc n) k (suc t) (ask c g) f h p q =
    λ r. Within-bind n k t (g r) f (omega arith) (p r) q
