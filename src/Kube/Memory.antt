-- ===== src/Kube/Memory.antt =====
-- An API server in memory, to run the handlers on concrete objects: it keeps lists of objects,
-- refuses to create a pod that is there, and deletes at once: no pod is seen terminating. Graceful has
-- a server on which pods terminate.
pub mod Written
pub mod Graceful
use netmaker_k8s_ops.Base.{
  String, ◌==◌, ◌≡◌, ◌≢◌, refl, Bool, true, false, ◌&&◌, Option, none, some, List, [], ◌∷◌,
  if◌then◌else◌, arith, eq_iff, Bool-cases, inl, inr, ap,
}
use netmaker_k8s_ops.Kube.{Key, Service, Pod, Secret, Endpoints, VolumeClaim}
use netmaker_k8s_ops.Kube.Client.{
  Call, Response, Result, ok, err, GoError, not_found, other, Client, get_service, get_pod,
  get_endpoints, get_secret, get_volume_claim, create_pod, create_endpoints, create_volume_claim,
  update_endpoints, delete_pod,
}
use netmaker_k8s_ops.Kube.Calls.{Answers, IsFaithful}
use netmaker_k8s_ops.Kube.Cluster.{Pods, Services, Elsewhere, Creates, key_of_pod}

module _ {A : Type 0} (name namespace : A → String) where
  abbrev pub is_at : Key → A → Bool
  is_at k a = name a == k.name && namespace a == k.namespace

  abbrev pub find_at : Key → List A → Option A
  find_at k [] = none
  find_at k (a ∷ rest) = if is_at k a then some a else find_at k rest

  abbrev pub remove_at : Key → List A → List A
  remove_at k [] = []
  remove_at k (a ∷ rest) = let kept = remove_at k rest in if is_at k a then kept else a ∷ kept

  pub find_at-Answers :
      (k : Key) (l : List A) (a : A)
      → find_at k l ≡ some a
      → (name a ≡ k.name) × (namespace a ≡ k.namespace)
  find_at-Answers k [] a e = absurd cc
  find_at-Answers k (b ∷ l) a e =
      ground
        (arith, find_at-Answers k l a, eq_iff (name b) k.name, eq_iff (namespace b) k.namespace)

  pub find_at-remove_at : (k : Key) (l : List A) → find_at k (remove_at k l) ≡ none
  find_at-remove_at k [] = refl
  find_at-remove_at k (a ∷ l) = elim (Bool-cases (is_at k a)) [
    | inl here ↦ rw here (find_at-remove_at k l)
    | inr away ↦ rw (away, away) (find_at-remove_at k l)
  ]

  abbrev key_at : A → Key
  key_at a = record { name = name a; namespace = namespace a }

  away-is_at : (a : A) (j : Key) → key_at a ≢ j → is_at j a ≡ false
  away-is_at a j away = elim (Bool-cases (is_at j a)) [
    | inl here ↦
        absurd
          (away (ground (arith, here, eq_iff (name a) j.name, eq_iff (namespace a) j.namespace)))
    | inr e ↦ e
  ]

  pub away_lem : (a : A) (j : Key) (l : List A) → key_at a ≢ j → find_at j (a ∷ l) ≡ find_at j l
  away_lem a j l away = rw (away-is_at a j away) refl

  same-is_at : (k : Key) (a : A) → is_at k a ≡ true → key_at a ≡ k
  same-is_at k a here = ground (arith, eq_iff (name a) k.name, eq_iff (namespace a) k.namespace)

  pub find_at-remove_at_other :
      (k j : Key) (l : List A) → k ≢ j → find_at j (remove_at k l) ≡ find_at j l
  find_at-remove_at_other k j [] away = refl
  find_at-remove_at_other k j (a ∷ l) away = elim (Bool-cases (is_at k a)) [
    | inl here ↦
        let off : key_at a ≢ j = λ e. away (cc (same-is_at k a here, e)) in
        rw (here, away-is_at a j off) (find_at-remove_at_other k j l away)
    | inr gone ↦ rw gone (rw (find_at-remove_at_other k j l away) refl)
  ]

  -- Nothing is found among fewer objects.
  removed_none : (k j : Key) (l : List A) → find_at j l ≡ none → find_at j (remove_at k l) ≡ none
  removed_none k j [] gone = refl
  removed_none k j (a ∷ l) gone = elim (Bool-cases (is_at j a)) [
    | inl here ↦ cc (rw here at gone)
    | inr away ↦ elim (Bool-cases (is_at k a)) [
      | inl same ↦ rw same (removed_none k j l (rw away at gone))
      | inr other_key ↦ rw (other_key, away) (removed_none k j l (rw away at gone))
    ]
  ]

pub record Objects : Type 0 where
  pub services : List Service
  pub pods : List Pod
  pub endpoints : List Endpoints
  pub secrets : Key → Option Secret
  pub claims : List VolumeClaim

abbrev pub answer_of {ℓ} : {A : Type ℓ} → Option A → Result A
answer_of none = err (not_found "not found")
answer_of (some a) = ok a

abbrev pub pod_at : Key → List Pod → Option Pod
pod_at = find_at (λ p. p.name) (λ p. p.namespace)

abbrev pub serve_create : Pod → Objects → Option Pod → Option GoError × Objects
serve_create p s none = (none, record s { pods = p ∷ s.pods })
serve_create p s (some _) = (some (other "already exists"), s)

abbrev pub serve : (c : Call) → Objects → Response c × Objects
serve (get_service k) s = (answer_of (find_at (λ x. x.name) (λ x. x.namespace) k s.services), s)
serve (get_pod k) s = (answer_of (pod_at k s.pods), s)
serve (get_endpoints k) s = (answer_of (find_at (λ x. x.name) (λ x. x.namespace) k s.endpoints), s)
serve (get_secret k) s = (answer_of (s.secrets k), s)
serve (get_volume_claim k) s = (answer_of (find_at (λ x. x.name) (λ x. x.namespace) k s.claims), s)
serve (create_pod p) s = serve_create p s (pod_at (key_of_pod p) s.pods)
serve (create_endpoints e) s = (none, record s { endpoints = e ∷ s.endpoints })
serve (create_volume_claim c) s = (none, record s { claims = c ∷ s.claims })
serve (update_endpoints e) s = (
  none,
  record s {
    endpoints =
        e
        ∷ remove_at (λ x. x.name) (λ x. x.namespace)
            (record { name = e.name; namespace = e.namespace }) s.endpoints;
  },
)
serve (delete_pod p) s =
    (none, record s { pods = remove_at (λ x. x.name) (λ x. x.namespace) (key_of_pod p) s.pods })

abbrev pub memory : Client
memory = record { State = Objects; serve = serve }

service-Answers :
    (k : Key) (o : Option Service)
    → ((x : Service) → o ≡ some x → (x.name ≡ k.name) × (x.namespace ≡ k.namespace))
    → Answers (get_service k) (answer_of o)
service-Answers k none h = tt
service-Answers k (some x) h = h x refl

pod-Answers :
    (k : Key) (o : Option Pod)
    → ((x : Pod) → o ≡ some x → (x.name ≡ k.name) × (x.namespace ≡ k.namespace))
    → Answers (get_pod k) (answer_of o)
pod-Answers k none h = tt
pod-Answers k (some x) h = h x refl

endpoints-Answers :
    (k : Key) (o : Option Endpoints)
    → ((x : Endpoints) → o ≡ some x → (x.name ≡ k.name) × (x.namespace ≡ k.namespace))
    → Answers (get_endpoints k) (answer_of o)
endpoints-Answers k none h = tt
endpoints-Answers k (some x) h = h x refl

pub memory-IsFaithful : IsFaithful memory
memory-IsFaithful (get_service k) s =
    service-Answers k _ (find_at-Answers (λ x. x.name) (λ x. x.namespace) k s.services)
memory-IsFaithful (get_pod k) s =
    pod-Answers k _ (find_at-Answers (λ x. x.name) (λ x. x.namespace) k s.pods)
memory-IsFaithful (get_endpoints k) s =
    endpoints-Answers k _ (find_at-Answers (λ x. x.name) (λ x. x.namespace) k s.endpoints)
memory-IsFaithful (get_secret k) s = tt
memory-IsFaithful (get_volume_claim k) s = tt
memory-IsFaithful (create_pod p) s = tt
memory-IsFaithful (create_endpoints e) s = tt
memory-IsFaithful (create_volume_claim c) s = tt
memory-IsFaithful (update_endpoints e) s = tt
memory-IsFaithful (delete_pod p) s = tt

pub found_lem : {A : Type 0} (o : Option A) (a : A) → answer_of o ≡ ok a → o ≡ some a
found_lem none a e = absurd cc
found_lem (some b) a e = cc

pub missing_lem : {A : Type 0} (o : Option A) (m : GoError) → answer_of o ≡ err m → o ≡ none
missing_lem none m e = refl
missing_lem (some b) m e = absurd cc

serve_create-elsewhere :
    (p : Pod) (s : Objects) (j : Key) (o : Option Pod)
    → key_of_pod p ≢ j
    → pod_at j (serve_create p s o).1.pods ≡ pod_at j s.pods
serve_create-elsewhere p s j none away = away_lem (λ x. x.name) (λ x. x.namespace) p j s.pods away
serve_create-elsewhere p s j (some q) away = refl

pub frame_lem :
    (c : Call) (s : Objects) (j : Key)
    → Elsewhere j c
    → pod_at j (serve c s).1.pods ≡ pod_at j s.pods
frame_lem (get_service k) s j e = refl
frame_lem (get_pod k) s j e = refl
frame_lem (get_endpoints k) s j e = refl
frame_lem (get_secret k) s j e = refl
frame_lem (get_volume_claim k) s j e = refl
frame_lem (create_pod p) s j e = serve_create-elsewhere p s j (pod_at (key_of_pod p) s.pods) e
frame_lem (create_endpoints x) s j e = refl
frame_lem (create_volume_claim c) s j e = refl
frame_lem (update_endpoints x) s j e = refl
frame_lem (delete_pod p) s j e =
    find_at-remove_at_other (λ x. x.name) (λ x. x.namespace) (key_of_pod p) j s.pods e

serve_create-services :
    (p : Pod) (s : Objects) (o : Option Pod) → (serve_create p s o).1.services ≡ s.services
serve_create-services p s none = refl
serve_create-services p s (some q) = refl

pub serve-services : (c : Call) (s : Objects) → (serve c s).1.services ≡ s.services
serve-services (get_service k) s = refl
serve-services (get_pod k) s = refl
serve-services (get_endpoints k) s = refl
serve-services (get_secret k) s = refl
serve-services (get_volume_claim k) s = refl
serve-services (create_pod p) s = serve_create-services p s (pod_at (key_of_pod p) s.pods)
serve-services (create_endpoints x) s = refl
serve-services (create_volume_claim c) s = refl
serve-services (update_endpoints x) s = refl
serve-services (delete_pod p) s = refl

pub not_made_lem :
    (c : Call) (s : Objects) (j : Key)
    → Creates (λ _. ⊥) c
    → pod_at j s.pods ≡ none
    → pod_at j (serve c s).1.pods ≡ none
not_made_lem (get_service k) s j h gone = gone
not_made_lem (get_pod k) s j h gone = gone
not_made_lem (get_endpoints k) s j h gone = gone
not_made_lem (get_secret k) s j h gone = gone
not_made_lem (get_volume_claim k) s j h gone = gone
not_made_lem (create_pod p) s j h gone = absurd h
not_made_lem (create_endpoints x) s j h gone = gone
not_made_lem (create_volume_claim c) s j h gone = gone
not_made_lem (update_endpoints x) s j h gone = gone
not_made_lem (delete_pod p) s j h gone =
    removed_none (λ x. x.name) (λ x. x.namespace) (key_of_pod p) j s.pods gone

pub created_lem :
    (p : Pod) (s : Objects) (o : Option Pod)
    → (serve_create p s o).0 ≡ none
    → pod_at (key_of_pod p) (serve_create p s o).1.pods ≢ none
created_lem p s none e = ground (arith, eq_iff p.name p.name, eq_iff p.namespace p.namespace)
created_lem p s (some q) e = absurd cc

abbrev pub memory_pods : Pods memory
memory_pods = record {
  pods = λ s k. pod_at k s.pods;
  terminating = λ s k. false;
  alone = λ k s there. refl;
  found = λ k s p _ e. found_lem (pod_at k s.pods) p e;
  missing = λ k s m e _. missing_lem (pod_at k s.pods) m e;
  frame = frame_lem;
  unmarked = λ c s j away e. refl;
  not_made = not_made_lem;
  created = λ p s e. created_lem p s (pod_at (key_of_pod p) s.pods) e;
  deleted = λ p s e. find_at-remove_at (λ x. x.name) (λ x. x.namespace) (key_of_pod p) s.pods;
}

abbrev pub memory_services : Services memory
memory_services = record {
  services = λ s k. find_at (λ x. x.name) (λ x. x.namespace) k s.services;
  read = λ k s x e. found_lem (find_at (λ x. x.name) (λ x. x.namespace) k s.services) x e;
  unread = λ k s m e _. missing_lem (find_at (λ x. x.name) (λ x. x.namespace) k s.services) m e;
  kept = λ c s. ap (λ l k. find_at (λ x. x.name) (λ x. x.namespace) k l) (serve-services c s);
}
