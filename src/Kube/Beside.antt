-- ===== src/Kube/Beside.antt =====
-- A program that runs beside another one: the calls of the two come in any order.
use netmaker_k8s_ops.Base.{◌≡◌, Bool, true, some, List, [], ◌∷◌, ◌==◌, ◌&&◌, arith, eq_iff}
use netmaker_k8s_ops.Kube.{Key}
use netmaker_k8s_ops.Kube.Client.{
  Call, Response, err, other, Prog, ret, panic, ask, Client, get_service, get_pod, get_endpoints,
  get_secret, get_volume_claim, create_pod, create_endpoints, create_volume_claim, update_endpoints,
  delete_pod,
}
use netmaker_k8s_ops.Kube.Calls.{Answers}
use netmaker_k8s_ops.Kube.Cluster.{key_of_pod}

-- Whose call comes next.
pub data Turn : Type 0 where
  mine : Turn
  theirs : Turn

module _ (C : Client) where
  -- The next call of a program, if it has one.
  abbrev pub advance {ℓ} : {A : Type ℓ} → Prog A → C.State → Prog A × C.State
  advance (ret a) s = (ret a, s)
  advance (panic m) s = (panic m, s)
  advance (ask c k) s = (k (C.serve c s).0, (C.serve c s).1)

  -- What two programs come to when their calls come in the order of the turns, and the state then.
  abbrev pub race {ℓ κ} :
      {A : Type ℓ} {B : Type κ} → List Turn → Prog A → Prog B → C.State → Prog A × Prog B × C.State
  race [] m h s = (m, h, s)
  race (mine ∷ turns) m h s = race turns (advance m s).0 h (advance m s).1
  race (theirs ∷ turns) m h s = race turns m (advance h s).0 (advance h s).1

abbrev pub is_key : Key → Key → Bool
is_key k j = k.name == j.name && k.namespace == j.namespace

pub is_key-true : (k j : Key) → is_key k j ≡ true → k ≡ j
is_key-true k j same = ground (arith, same, eq_iff k.name j.name, eq_iff k.namespace j.namespace)

pub is_key_same : (k j : Key) → k.name ≡ j.name → k.namespace ≡ j.namespace → is_key k j ≡ true
is_key_same k j n ns = ground (arith, eq_iff k.name j.name, eq_iff k.namespace j.namespace)

-- The call reads or creates no pod but those that are the program's own.
abbrev pub is_own : (Key → Bool) → Call → Bool
is_own own (get_pod j) = own j
is_own own (create_pod p) = own (key_of_pod p)
is_own own _ = true

abbrev pub refusal : (c : Call) → Response c
refusal (get_service _) = err (other "refused")
refusal (get_pod _) = err (other "refused")
refusal (get_endpoints _) = err (other "refused")
refusal (get_secret _) = err (other "refused")
refusal (get_volume_claim _) = err (other "refused")
refusal (create_pod _) = some (other "refused")
refusal (create_endpoints _) = some (other "refused")
refusal (create_volume_claim _) = some (other "refused")
refusal (update_endpoints _) = some (other "refused")
refusal (delete_pod _) = some (other "refused")

pub refusal-Answers : (c : Call) → Answers c (refusal c)
refusal-Answers (get_service _) = tt
refusal-Answers (get_pod _) = tt
refusal-Answers (get_endpoints _) = tt
refusal-Answers (get_secret _) = tt
refusal-Answers (get_volume_claim _) = tt
refusal-Answers (create_pod _) = tt
refusal-Answers (create_endpoints _) = tt
refusal-Answers (create_volume_claim _) = tt
refusal-Answers (update_endpoints _) = tt
refusal-Answers (delete_pod _) = tt
