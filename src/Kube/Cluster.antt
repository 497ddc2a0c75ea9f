-- ===== src/Kube/Cluster.antt =====
-- What the program relies on of the API server where it keeps pods. A deletion that is accepted marks
-- the pod, which terminates and can still be read for a while: the map has the pods that are not
-- marked, and `terminating` says under which keys a marked one is still there. Reads are of the
-- server's present state.
use netmaker_k8s_ops.Base.{◌≡◌, ◌≢◌, refl, ◌∙◌, Bool, true, false, All, Option, none, some}
use netmaker_k8s_ops.Kube.{Key, Service, Pod, Endpoints}
use netmaker_k8s_ops.Kube.Client.{
  Call, ok, err, is_not_found, GoError, Prog, ret, panic, ask, Client, run, calls, get_pod,
  create_pod, delete_pod, get_service, get_endpoints, get_secret, get_volume_claim,
  create_endpoints, create_volume_claim, update_endpoints,
}
use netmaker_k8s_ops.Kube.Calls.{IsFaithful, Always, Always-weaken}

abbrev pub key_of_pod : Pod → Key
key_of_pod p = record { name = p.name; namespace = p.namespace }

-- The call neither creates nor deletes the pod `j`.
abbrev pub Elsewhere : Key → Call → Type 0
Elsewhere j (create_pod p) = key_of_pod p ≢ j
Elsewhere j (delete_pod p) = key_of_pod p ≢ j
Elsewhere j _ = Unit

-- What holds of the pod of every creation.
abbrev pub Creates : (Pod → Type 0) → Call → Type 0
Creates R (create_pod p) = R p
Creates R _ = Unit

pub record Pods (C : Client) : Type 0 where
  pub pods : C.State → Key → Option Pod
  pub terminating : C.State → Key → Bool
  -- One pod at most has a key.
  pub alone : (k : Key) (s : C.State) → pods s k ≢ none → terminating s k ≡ false
  pub found :
      (k : Key) (s : C.State) (p : Pod)
      → terminating s k ≡ false
      → (C.serve (get_pod k) s).0 ≡ ok p
      → pods s k ≡ some p
  pub missing :
      (k : Key) (s : C.State) (e : GoError)
      → (C.serve (get_pod k) s).0 ≡ err e
      → is_not_found e ≡ true
      → pods s k ≡ none
  pub frame : (c : Call) (s : C.State) (j : Key) → Elsewhere j c → pods (C.serve c s).1 j ≡ pods s j
  pub unmarked :
      (c : Call) (s : C.State) (j : Key)
      → Elsewhere j c
      → terminating s j ≡ false
      → terminating (C.serve c s).1 j ≡ false
  pub not_made :
      (c : Call) (s : C.State) (j : Key)
      → Creates (λ _. ⊥) c
      → pods s j ≡ none
      → pods (C.serve c s).1 j ≡ none
  pub created :
      (p : Pod) (s : C.State)
      → (C.serve (create_pod p) s).0 ≡ none
      → pods (C.serve (create_pod p) s).1 (key_of_pod p) ≢ none
  pub deleted :
      (p : Pod) (s : C.State)
      → (C.serve (delete_pod p) s).0 ≡ none
      → pods (C.serve (delete_pod p) s).1 (key_of_pod p) ≡ none

-- The map from keys to services, which no call of the program changes.
pub record Services (C : Client) : Type 0 where
  pub services : C.State → Key → Option Service
  pub read :
      (k : Key) (s : C.State) (x : Service)
      → (C.serve (get_service k) s).0 ≡ ok x
      → services s k ≡ some x
  pub unread :
      (k : Key) (s : C.State) (e : GoError)
      → (C.serve (get_service k) s).0 ≡ err e
      → is_not_found e ≡ true
      → services s k ≡ none
  pub kept : (c : Call) (s : C.State) → services (C.serve c s).1 ≡ services s

abbrev pub key_of_endpoints : Endpoints → Key
key_of_endpoints e = record { name = e.name; namespace = e.namespace }

-- The map from keys to endpoints: what is written is there.
pub record EndpointsMap (C : Client) : Type 0 where
  pub endpoints : C.State → Key → Option Endpoints
  pub created_endpoints :
      (e : Endpoints) (s : C.State)
      → (C.serve (create_endpoints e) s).0 ≡ none
      → endpoints (C.serve (create_endpoints e) s).1 (key_of_endpoints e) ≡ some e
  pub updated_endpoints :
      (e : Endpoints) (s : C.State)
      → (C.serve (update_endpoints e) s).0 ≡ none
      → endpoints (C.serve (update_endpoints e) s).1 (key_of_endpoints e) ≡ some e

abbrev pub KeepsPods : Call → Type 0
KeepsPods (create_pod _) = ⊥
KeepsPods (delete_pod _) = ⊥
KeepsPods _ = Unit

pub KeepsPods-Elsewhere : (j : Key) (c : Call) → KeepsPods c → Elsewhere j c
KeepsPods-Elsewhere j (get_service _) h = tt
KeepsPods-Elsewhere j (get_pod _) h = tt
KeepsPods-Elsewhere j (get_endpoints _) h = tt
KeepsPods-Elsewhere j (get_secret _) h = tt
KeepsPods-Elsewhere j (get_volume_claim _) h = tt
KeepsPods-Elsewhere j (create_pod _) h = absurd h
KeepsPods-Elsewhere j (create_endpoints _) h = tt
KeepsPods-Elsewhere j (create_volume_claim _) h = tt
KeepsPods-Elsewhere j (update_endpoints _) h = tt
KeepsPods-Elsewhere j (delete_pod _) h = absurd h

module _ {ℓ} {A : Type ℓ} (C : Client) where
  module _ (P : Pods C) where
    -- A program that neither creates nor deletes the pod `j` leaves it alone.
    pub Elsewhere-run :
        (j : Key) (Q : A → Type 0) (m : Prog A) (s : C.State)
        → IsFaithful C
        → Always (Elsewhere j) Q m
        → P.pods (run C m s).1 j ≡ P.pods s j
    Elsewhere-run j Q (ret a) s faithful h = refl
    Elsewhere-run j Q (panic m) s faithful h = refl
    Elsewhere-run j Q (ask c k) s faithful (p, h) =
        Elsewhere-run j Q (k (C.serve c s).0) (C.serve c s).1 faithful (h _ (faithful c s))
        ∙ P.frame c s j p

    -- A program that neither creates nor deletes a pod leaves the pods alone.
    pub pods-run :
        (Q : A → Type 0) (m : Prog A) (s : C.State) (j : Key)
        → IsFaithful C
        → Always KeepsPods Q m
        → P.pods (run C m s).1 j ≡ P.pods s j
    pods-run Q m s j faithful h =
        Elsewhere-run j Q m s faithful
          (Always-weaken KeepsPods (Elsewhere j) (KeepsPods-Elsewhere j) Q m h)

    -- Nor does a run that calls for no change of a pod.
    pub pods-calls :
        (m : Prog A) (s : C.State) (j : Key)
        → All KeepsPods (calls C m s)
        → P.pods (run C m s).1 j ≡ P.pods s j
    pods-calls (ret a) s j h = refl
    pods-calls (panic m) s j h = refl
    pods-calls (ask c k) s j (p, h) =
        pods-calls (k (C.serve c s).0) (C.serve c s).1 j h
        ∙ P.frame c s j (KeepsPods-Elsewhere j c p)

  -- A run that creates no pod makes none.
  pub none-calls :
      (P : Pods C) (m : Prog A) (s : C.State) (j : Key)
      → All (Creates (λ _. ⊥)) (calls C m s)
      → P.pods s j ≡ none
      → P.pods (run C m s).1 j ≡ none
  none-calls P (ret a) s j h gone = gone
  none-calls P (panic m) s j h gone = gone
  none-calls P (ask c k) s j (p, h) gone =
      none-calls P (k (C.serve c s).0) (C.serve c s).1 j h (P.not_made c s j p gone)

  pub services-run :
      (V : Services C) (m : Prog A) (s : C.State) → V.services (run C m s).1 ≡ V.services s
  services-run V (ret a) s = refl
  services-run V (panic m) s = refl
  services-run V (ask c k) s = services-run V (k (C.serve c s).0) (C.serve c s).1 ∙ V.kept c s
