-- ===== src/Kube/Reports.antt =====
-- The calls that fail in a run of a handler, and what the handler returns then.
use netmaker_k8s_ops.Base.{
  ℕ, zero, suc, ◌+◌, ◌≤◌, ◌≡◌, refl, Bool, true, false, Option, none, some, List, [], ◌∷◌, map,
  length, arith, String, inl, inr, Bool-cases, if◌then◌else◌,
}
use netmaker_k8s_ops.Kube.Client.{
  Call, Response, Result, ok, err, GoError, wrapped, wrap_error, is_not_found, Prog, ret, panic,
  ask, ◌>>=◌, Client, run, calls, returned, Reply, no_requeue, get_service, get_pod, get_endpoints,
  get_secret, get_volume_claim,
}

-- The error of a read, unless it is that the object is not there.
abbrev pub read_failure {ℓ} : {A : Type ℓ} → Result A → Option GoError
read_failure (ok a) = none
read_failure (err e) = if is_not_found e then none else some e

-- The error of a call. A secret that cannot be read counts as one that is not there.
abbrev pub failure : (c : Call) → Response c → Option GoError
failure (get_service _) r = read_failure r
failure (get_pod _) r = read_failure r
failure (get_endpoints _) r = read_failure r
failure (get_secret _) r = none
failure (get_volume_claim _) r = none
failure _ r = r

abbrev pub errors_of : Option GoError → List GoError
errors_of none = []
errors_of (some e) = e ∷ []

abbrev pub prepend : Option GoError → List GoError → List GoError
prepend none l = l
prepend (some e) l = e ∷ l

-- The errors of the calls that a run makes, in order.
abbrev pub failures {ℓ} : {A : Type ℓ} → (C : Client) → Prog A → C.State → List GoError
failures C (ret a) s = []
failures C (panic m) s = []
failures C (ask c k) s =
    prepend (failure c (C.serve c s).0) (failures C (k (C.serve c s).0) (C.serve c s).1)

-- The error that was wrapped.
abbrev pub root : GoError → GoError
root (wrapped m e) = root e
root e = e

-- `P` where nothing failed, `Q e` where `e` did.
abbrev pub Branch : Option GoError → Type 0 → (GoError → Type 0) → Type 0
Branch none P Q = P
Branch (some e) P Q = Q e

branch-map :
    {P R : Type 0} {Q S : GoError → Type 0} (o : Option GoError)
    → (P → R)
    → ((e : GoError) → Q e → S e)
    → Branch o P Q
    → Branch o R S
branch-map none f g p = f p
branch-map (some e) f g p = g e p

module _ {ℓ} {A : Type ℓ} (Fine : A → Type 0) (Fails : GoError → A → Type 0) where
  -- Returned at once, on the failure `e`.
  abbrev pub Ended : GoError → Prog A → Type 0
  Ended e (ret a) = Fails e a
  Ended e (panic m) = ⊥
  Ended e (ask c k) = ⊥

  -- At most `n` calls, and none after one that fails; no panic; `Fine` of what is returned where no
  -- call failed, and `Fails` where one did.
  abbrev pub Reports : ℕ → Prog A → Type 0
  Reports n (ret a) = Fine a
  Reports n (panic m) = ⊥
  Reports zero (ask c k) = ⊥
  Reports (suc n) (ask c k) =
      (r : Response c) → Branch (failure c r) (Reports n (k r)) (λ e. Ended e (k r))

  pub Reports-le : (n t : ℕ) (m : Prog A) → n ≤ t → Reports n m → Reports t m
  Reports-le n t (ret a) h p = p
  Reports-le n t (panic m) h p = p
  Reports-le zero t (ask c k) h p = absurd p
  Reports-le (suc n) zero (ask c k) h p = absurd (omega arith)
  Reports-le (suc n) (suc t) (ask c k) h p =
      λ r. branch-map (failure c r) (Reports-le n t (k r) (omega arith)) (λ e q. q) (p r)

  pub Reports-if :
      (n : ℕ) (b : Bool) (m p : Prog A) → Reports n m → Reports n p → Reports n (if b then m else p)
  Reports-if n true m p h g = h
  Reports-if n false m p h g = g

  abbrev pub Verdict : List GoError → A → Type 0
  Verdict [] a = Fine a
  Verdict (e ∷ []) a = Fails e a
  Verdict (e ∷ f ∷ l) a = ⊥

  module _ (C : Client) where
    abbrev Returns : ℕ → Prog A → C.State → Type ℓ
    Returns n m s =
        (a : A) × ((run C m s).0 ≡ returned a)
        × Verdict (failures C m s) a
        × (length (calls C m s) ≤ n)

    Ended-Returns :
        (n : ℕ) (e : GoError) (m : Prog A) (s : C.State)
        → Ended e m
        → (a : A) × ((run C m s).0 ≡ returned a)
          × Verdict (e ∷ failures C m s) a
          × (length (calls C m s) ≤ n)
    Ended-Returns n e (ret a) s p = (a, refl, p, omega arith)
    Ended-Returns n e (panic m) s p = absurd p
    Ended-Returns n e (ask c k) s p = absurd p

    branch-Returns :
        (n : ℕ) (o : Option GoError) (m : Prog A) (s : C.State)
        → (Reports n m → Returns n m s)
        → Branch o (Reports n m) (λ e. Ended e m)
        → (a : A) × ((run C m s).0 ≡ returned a)
          × Verdict (prepend o (failures C m s)) a
          × (length (calls C m s) ≤ n)
    branch-Returns n none m s f p = f p
    branch-Returns n (some e) m s f p = Ended-Returns n e m s p

    -- A run of the program returns, with at most `n` calls.
    pub run-Reports : (n : ℕ) (m : Prog A) (s : C.State) → Reports n m → Returns n m s
    run-Reports n (ret a) s p = (a, refl, p, omega arith)
    run-Reports n (panic m) s p = absurd p
    run-Reports zero (ask c k) s p = absurd p
    run-Reports (suc n) (ask c k) s p =
        let r = (C.serve c s).0 in
        let t = (C.serve c s).1 in
        let (a, returns, verdict, bound) =
          branch-Returns n (failure c r) (k r) t (run-Reports n (k r) t) (p r) in
        (a, returns, verdict, omega arith)

module _ {ℓ κ} {A : Type ℓ} {B : Type κ} where
  Ended-bind :
      (F : GoError → A → Type 0) (G : GoError → B → Type 0) (fine : A → Type 0) (good : B → Type 0)
      (e : GoError) (m : Prog A) (f : A → Prog B)
      → Ended fine F e m
      → ((a : A) → F e a → Ended good G e (f a))
      → Ended good G e (m >>= f)
  Ended-bind F G fine good e (ret a) f h g = g a h
  Ended-bind F G fine good e (panic m) f h g = absurd h
  Ended-bind F G fine good e (ask c k) f h g = absurd h

  pub Reports-bind :
      (fine : A → Type 0) (F : GoError → A → Type 0) (good : B → Type 0) (G : GoError → B → Type 0)
      (n k t : ℕ) (m : Prog A) (f : A → Prog B)
      → n + k ≤ t
      → Reports fine F n m
      → ((a : A) → fine a → Reports good G k (f a))
      → ((e : GoError) (a : A) → F e a → Ended good G e (f a))
      → Reports good G t (m >>= f)
  Reports-bind fine F good G n k t (ret a) f h p q r =
      Reports-le good G k t (f a) (omega arith) (q a p)
  Reports-bind fine F good G n k t (panic m) f h p q r = absurd p
  Reports-bind fine F good G zero k t (ask c g) f h p q r = absurd p
  Reports-bind fine F good G (suc n) k zero (ask c g) f h p q r = absurd (omega arith)
  Reports-bind fine F good G (suc n) k (suc t) (ask c g) f h p q r = λ x.
      branch-map (failure c x) (λ h'. Reports-bind fine F good G n k t (g x) f (omega arith) h' q r)
        (λ e h'. Ended-bind F G fine good e (g x) f h' (r e)) (p x)

-- For a part that never fails.
abbrev pub Never {ℓ} : {A : Type ℓ} → GoError → A → Type 0
Never e a = ⊥

abbrev pub NoError : Option GoError → Type 0
NoError o = o ≡ none

-- The failure, with what it was wrapped in.
abbrev pub IsOf : GoError → Option GoError → Type 0
IsOf e o = map root (errors_of o) ≡ root e ∷ []

abbrev pub FineReply : Reply → Type 0
FineReply reply = (reply.0 ≡ no_requeue) × (reply.1 ≡ none)

abbrev pub FailedReply : GoError → Reply → Type 0
FailedReply e reply = (reply.0 ≡ no_requeue) × IsOf e reply.1

pub write-IsOf : (o : Option GoError) → Branch o (NoError o) (λ e. IsOf e o)
write-IsOf none = refl
write-IsOf (some e) = refl

pub wrap_error-IsOf :
    (m : String) (o : Option GoError)
    → Branch o (NoError (wrap_error m o)) (λ e. IsOf e (wrap_error m o))
wrap_error-IsOf m none = refl
wrap_error-IsOf m (some e) = refl

pub reply-FailedReply :
    (o : Option GoError) → Branch o (FineReply (no_requeue, o)) (λ e. FailedReply e (no_requeue, o))
reply-FailedReply none = (refl, refl)
reply-FailedReply (some e) = (refl, refl)

-- What follows a read: it goes on where the object was found or is not there.
pub read-Reports {ℓ κ} :
    {A : Type ℓ} {B : Type κ} (Fine : B → Type 0) (Fails : GoError → B → Type 0) (n : ℕ)
    (f : Result A → Prog B)
    → ((a : A) → Reports Fine Fails n (f (ok a)))
    → ((e : GoError) → is_not_found e ≡ true → Reports Fine Fails n (f (err e)))
    → ((e : GoError) → is_not_found e ≡ false → Ended Fine Fails e (f (err e)))
    → (found : Result A)
    → Branch
        (read_failure found)
        (Reports Fine Fails n (f found))
        (λ e. Ended Fine Fails e (f found))
read-Reports Fine Fails n f there gone failed (ok a) = there a
read-Reports Fine Fails n f there gone failed (err e) = elim (Bool-cases (is_not_found e)) [
  | inl missing ↦ rw missing (gone e missing)
  | inr other ↦ rw other (failed e other)
]
