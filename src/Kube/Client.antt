-- ===== src/Kube/Client.antt =====
-- Calls of the API server. The server and its client library are not part of the program: a
-- handler is a tree of calls (`Prog`), and `run` answers them by a `Client`, which is a parameter.
use netmaker_k8s_ops.Base.{ℕ, String, Bool, true, false, Option, none, some, List, [], ◌∷◌}
use netmaker_k8s_ops.Kube.{Key, Service, Pod, Secret, Endpoints, VolumeClaim}

-- `not_found` are the errors of which `errors.IsNotFound` holds; `wrapped` is `fmt.Errorf` with
-- `%w`. `out_of_fuel` is no error of the program: it marks a recursion that was cut off.
pub data GoError : Type 0 where
  not_found : String → GoError
  other : String → GoError
  wrapped : String → GoError → GoError
  out_of_fuel : GoError

abbrev pub is_not_found : GoError → Bool
is_not_found (not_found _) = true
is_not_found (wrapped _ e) = is_not_found e
is_not_found _ = false

abbrev pub wrap_error : String → Option GoError → Option GoError
wrap_error message none = none
wrap_error message (some e) = some (wrapped message e)

pub data Result {ℓ} (A : Type ℓ) : Type ℓ where
  ok : A → Result A
  err : GoError → Result A

pub data Call : Type 0 where
  get_service : Key → Call
  get_pod : Key → Call
  get_endpoints : Key → Call
  get_secret : Key → Call
  get_volume_claim : Key → Call
  create_pod : Pod → Call
  create_endpoints : Endpoints → Call
  create_volume_claim : VolumeClaim → Call
  update_endpoints : Endpoints → Call
  delete_pod : Pod → Call

-- What a call returns. A write returns an error or nil.
abbrev pub Response : Call → Type 0
Response (get_service _) = Result Service
Response (get_pod _) = Result Pod
Response (get_endpoints _) = Result Endpoints
Response (get_secret _) = Result Secret
Response (get_volume_claim _) = Result VolumeClaim
Response _ = Option GoError

pub data Prog {ℓ} (A : Type ℓ) : Type ℓ where
  ret : A → Prog A
  panic : String → Prog A
  ask : (c : Call) → (Response c → Prog A) → Prog A

infixl 5 ◌>>=◌
abbrev pub ◌>>=◌ {ℓ κ} : {A : Type ℓ} {B : Type κ} → Prog A → (A → Prog B) → Prog B
ret a >>= f = f a
panic m >>= f = panic m
ask c k >>= f = ask c (λ r. k r >>= f)

abbrev pub call : (c : Call) → Prog (Response c)
call c = ask c ret

pub data Outcome {ℓ} (A : Type ℓ) : Type ℓ where
  returned : A → Outcome A
  panicked : String → Outcome A

-- A client and what stands behind it: any state, and any answers.
pub record Client : Type 1 where
  pub State : Type 0
  pub serve : (c : Call) → State → Response c × State

module _ {ℓ} {A : Type ℓ} (C : Client) where
  -- The outcome of a run and the state that it leaves.
  abbrev pub run : Prog A → C.State → Outcome A × C.State
  run (ret a) s = (returned a, s)
  run (panic m) s = (panicked m, s)
  run (ask c k) s = run (k (C.serve c s).0) (C.serve c s).1

  -- The calls that a run makes, in order.
  abbrev pub calls : Prog A → C.State → List Call
  calls (ret a) s = []
  calls (panic m) s = []
  calls (ask c k) s = c ∷ calls (k (C.serve c s).0) (C.serve c s).1

-- The calls that change the cluster.
abbrev pub writes : List Call → List Call
writes [] = []
writes (get_service _ ∷ cs) = writes cs
writes (get_pod _ ∷ cs) = writes cs
writes (get_endpoints _ ∷ cs) = writes cs
writes (get_secret _ ∷ cs) = writes cs
writes (get_volume_claim _ ∷ cs) = writes cs
writes (c ∷ cs) = c ∷ writes cs

-- `ctrl.Result`
pub record ReconcileResult : Type 0 where
  pub requeue : Bool
  pub requeue_after : ℕ

abbrev pub no_requeue : ReconcileResult
no_requeue = record { requeue = false; requeue_after = 0 }

-- What `Reconcile` returns: a result and an error.
abbrev pub Reply : Type 0
Reply = ReconcileResult × Option GoError
