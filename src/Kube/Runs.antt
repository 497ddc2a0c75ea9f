-- ===== src/Kube/Runs.antt =====
-- Runs of a program in parts.
use netmaker_k8s_ops.Base.{String, Option, none, some, All, ◌≡◌, refl, subst}
use netmaker_k8s_ops.Kube.Client.{
  GoError, wrap_error, Call, Prog, ret, panic, ask, ◌>>=◌, Client, returned, run, calls,
}
use netmaker_k8s_ops.Kube.Calls.{IsFaithful, Always}

module _ {ℓ κ} {A : Type ℓ} {B : Type κ} (C : Client) where
  -- What follows a run that returned is run from the state that it left.
  pub run-bind :
      (m : Prog A) (f : A → Prog B) (a : A) (s : C.State)
      → (run C m s).0 ≡ returned a
      → run C (m >>= f) s ≡ run C (f a) (run C m s).1
  run-bind (ret b) f a s e = let same : b ≡ a = cc in rw same
  run-bind (panic m) f a s e = cc
  run-bind (ask c k) f a s e = run-bind (k (C.serve c s).0) f a (C.serve c s).1 e

  -- A run that returns has passed through a value of its first part.
  pub run-bind_inv :
      (m : Prog A) (f : A → Prog B) (s : C.State) {b : B}
      → (run C (m >>= f) s).0 ≡ returned b
      → (a : A) × ((run C m s).0 ≡ returned a) × (run C (m >>= f) s ≡ run C (f a) (run C m s).1)
  run-bind_inv (ret a) f s e = (a, refl, refl)
  run-bind_inv (panic m) f s e = cc
  run-bind_inv (ask c k) f s e = run-bind_inv (k (C.serve c s).0) f (C.serve c s).1 e

module _ {ℓ} {A : Type ℓ} (C : Client) (P : Call → Type 0) (Q : A → Type 0) where
  -- What a program always returns, a run of it returns.
  pub run-Always :
      (m : Prog A) (s : C.State) (a : A)
      → IsFaithful C
      → Always P Q m
      → (run C m s).0 ≡ returned a
      → Q a
  run-Always (ret b) s a faithful h e = let same : b ≡ a = cc in subst Q same h
  run-Always (panic m) s a faithful h e = cc
  run-Always (ask c k) s a faithful (p, h) e =
      run-Always (k (C.serve c s).0) (C.serve c s).1 a faithful (h _ (faithful c s)) e

-- An error stays an error when it is wrapped.
pub wrap_error-none :
    (m : String) (o : Option GoError)
    → returned (wrap_error m o) ≡ returned none
    → returned o ≡ returned none
wrap_error-none m none e = refl
wrap_error-none m (some x) e = cc

module _ {ℓ κ} {A : Type ℓ} {B : Type κ} (C : Client) (P : Call → Type 0) where
  -- The calls of a run in parts.
  pub calls-bind :
      (m : Prog A) (f : A → Prog B) (s : C.State)
      → All P (calls C m s)
      → ((a : A) → (run C m s).0 ≡ returned a → All P (calls C (f a) (run C m s).1))
      → All P (calls C (m >>= f) s)
  calls-bind (ret a) f s h g = g a refl
  calls-bind (panic m) f s h g = tt
  calls-bind (ask c k) f s (p, h) g = (p, calls-bind (k (C.serve c s).0) f (C.serve c s).1 h g)
