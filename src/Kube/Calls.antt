-- ===== src/Kube/Calls.antt =====
-- What every run of a handler asks of the API server, whatever the answers.
use netmaker_k8s_ops.Base.{◌≡◌, Bool, true, false, All, if◌then◌else◌}
use netmaker_k8s_ops.Kube.Client.{
  Call, Response, ok, Prog, ret, panic, ask, ◌>>=◌, Client, calls, get_service, get_pod,
  get_endpoints,
}

-- An answer names the object that was asked for.
abbrev pub Answers : (c : Call) → Response c → Type 0
Answers (get_service k) (ok s) = (s.name ≡ k.name) × (s.namespace ≡ k.namespace)
Answers (get_pod k) (ok p) = (p.name ≡ k.name) × (p.namespace ≡ k.namespace)
Answers (get_endpoints k) (ok e) = (e.name ≡ k.name) × (e.namespace ≡ k.namespace)
Answers _ _ = Unit

abbrev pub IsFaithful : Client → Type 0
IsFaithful C = (c : Call) (s : C.State) → Answers c (C.serve c s).0

abbrev pub Anything {ℓ} : {A : Type ℓ} → A → Type 0
Anything _ = Unit

module _ (P : Call → Type 0) where
  -- For all faithful answers, every call of the program satisfies `P`, and what it returns `Q`.
  abbrev pub Always {ℓ} : {A : Type ℓ} → (A → Type 0) → Prog A → Type 0
  Always Q (ret a) = Q a
  Always Q (panic m) = Unit
  Always Q (ask c k) = P c × ((r : Response c) → Answers c r → Always Q (k r))

  pub Always-bind {ℓ κ} :
      {A : Type ℓ} {B : Type κ} (Q : A → Type 0) (R : B → Type 0) (m : Prog A) (f : A → Prog B)
      → Always Q m
      → ((a : A) → Q a → Always R (f a))
      → Always R (m >>= f)
  Always-bind Q R (ret a) f h g = g a h
  Always-bind Q R (panic m) f h g = tt
  Always-bind Q R (ask c k) f (p, h) g = (p, λ r a. Always-bind Q R (k r) f (h r a) g)

  pub Always-mono {ℓ} :
      {A : Type ℓ} (Q R : A → Type 0) (m : Prog A) → ((a : A) → Q a → R a) → Always Q m → Always R m
  Always-mono Q R (ret a) f h = f a h
  Always-mono Q R (panic m) f h = tt
  Always-mono Q R (ask c k) f (p, h) = (p, λ r a. Always-mono Q R (k r) f (h r a))

  pub Always-if {ℓ} :
      {A : Type ℓ} (Q : A → Type 0) (b : Bool) (m n : Prog A)
      → Always Q m
      → Always Q n
      → Always Q (if b then m else n)
  Always-if Q true m n h g = h
  Always-if Q false m n h g = g

  pub calls-All {ℓ} :
      {A : Type ℓ} (Q : A → Type 0) (C : Client) (m : Prog A) (s : C.State)
      → IsFaithful C
      → Always Q m
      → All P (calls C m s)
  calls-All Q C (ret a) s faithful h = tt
  calls-All Q C (panic m) s faithful h = tt
  calls-All Q C (ask c k) s faithful (p, h) =
      (p, calls-All Q C (k (C.serve c s).0) (C.serve c s).1 faithful (h _ (faithful c s)))

-- What every call satisfies may be weakened.
pub Always-weaken {ℓ} :
    {A : Type ℓ} (P R : Call → Type 0)
    → ((c : Call) → P c → R c)
    → (Q : A → Type 0) (m : Prog A) → Always P Q m
    → Always R Q m
Always-weaken P R f Q (ret a) h = h
Always-weaken P R f Q (panic m) h = tt
Always-weaken P R f Q (ask c k) (p, h) = (f c p, λ r a. Always-weaken P R f Q (k r) (h r a))
