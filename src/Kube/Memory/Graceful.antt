-- ===== src/Kube/Memory/Graceful.antt =====
-- The server in memory with pods that terminate: a pod that is deleted can still be read, and no pod of
-- its name can be created.
use netmaker_k8s_ops.Base.{
  ◌≡◌, ◌≢◌, refl, Bool, true, false, Option, none, some, List, ◌∷◌, inl, inr, ap, ◌∙◌, sym, ◌⊎◌,
}
use netmaker_k8s_ops.Kube.{Key, Pod}
use netmaker_k8s_ops.Kube.Client.{
  Call, Response, ok, err, GoError, other, Client, get_service, get_pod, get_endpoints, get_secret,
  get_volume_claim, create_pod, create_endpoints, create_volume_claim, update_endpoints, delete_pod,
}
use netmaker_k8s_ops.Kube.Calls.{IsFaithful}
use netmaker_k8s_ops.Kube.Cluster.{Pods, Services, Elsewhere, Creates, key_of_pod}
use netmaker_k8s_ops.Kube.Memory.{
  Objects, memory_services, memory-IsFaithful, pod_at, serve, answer_of, away_lem, find_at-Answers,
  pod-Answers, frame_lem, not_made_lem, created_lem, found_lem, find_at, find_at-remove_at,
  serve-services,
}

pub record Terminating : Type 0 where
  pub objects : Objects
  pub leaving : List Pod

abbrev pub first_of : Option Pod → Option Pod → Option Pod
first_of (some p) other_pod = some p
first_of none other_pod = other_pod

abbrev pub join : Option Pod → List Pod → List Pod
join none l = l
join (some p) l = p ∷ l

abbrev pub refuse_or : Pod → Terminating → Option Pod → Option GoError × Terminating
refuse_or p s (some q) = (some (other "object is being deleted"), s)
refuse_or p s none =
    ((serve (create_pod p) s.objects).0, record s { objects = (serve (create_pod p) s.objects).1 })

abbrev pub serve_slowly : (c : Call) → Terminating → Response c × Terminating
serve_slowly (get_pod k) s =
    (answer_of (first_of (pod_at k s.objects.pods) (pod_at k s.leaving)), s)
serve_slowly (create_pod p) s = refuse_or p s (pod_at (key_of_pod p) s.leaving)
serve_slowly (delete_pod p) s = (
  none,
  record {
    objects = (serve (delete_pod p) s.objects).1;
    leaving = join (pod_at (key_of_pod p) s.objects.pods) s.leaving;
  },
)
serve_slowly c s = ((serve c s.objects).0, record s { objects = (serve c s.objects).1 })

abbrev pub slow : Client
slow = record { State = Terminating; serve = serve_slowly }

first_of-some :
    (live leaves : Option Pod) (p : Pod)
    → first_of live leaves ≡ some p
    → (live ≡ some p) ⊎ (leaves ≡ some p)
first_of-some (some q) leaves p e = inl e
first_of-some none leaves p e = inr e

pub slow-IsFaithful : IsFaithful slow
slow-IsFaithful (get_pod k) s =
    pod-Answers k (first_of (pod_at k s.objects.pods) (pod_at k s.leaving)) λ p e.
      elim (first_of-some (pod_at k s.objects.pods) (pod_at k s.leaving) p e) [
        | inl here ↦ find_at-Answers (λ x. x.name) (λ x. x.namespace) k s.objects.pods p here
        | inr leaves ↦ find_at-Answers (λ x. x.name) (λ x. x.namespace) k s.leaving p leaves
      ]
slow-IsFaithful (get_service k) s = memory-IsFaithful (get_service k) s.objects
slow-IsFaithful (get_endpoints k) s = memory-IsFaithful (get_endpoints k) s.objects
slow-IsFaithful (get_secret k) s = tt
slow-IsFaithful (get_volume_claim k) s = tt
slow-IsFaithful (create_pod p) s = tt
slow-IsFaithful (create_endpoints e) s = tt
slow-IsFaithful (create_volume_claim c) s = tt
slow-IsFaithful (update_endpoints e) s = tt
slow-IsFaithful (delete_pod p) s = tt

-- A pod that terminates, where no other has its name.
abbrev pub ends_at : Option Pod → Option Pod → Bool
ends_at (some p) leaves = false
ends_at none none = false
ends_at none (some q) = true

pub alone_lem : (live leaves : Option Pod) → live ≢ none → ends_at live leaves ≡ false
alone_lem (some p) leaves h = refl
alone_lem none leaves h = absurd (h refl)

pub found_slowly :
    (live leaves : Option Pod) (p : Pod)
    → ends_at live leaves ≡ false
    → answer_of (first_of live leaves) ≡ ok p
    → live ≡ some p
found_slowly (some q) leaves p h e = found_lem (some q) p e
found_slowly none none p h e = absurd cc
found_slowly none (some q) p h e = absurd (cc h)

pub missing_slowly :
    (live leaves : Option Pod) (m : GoError)
    → answer_of (first_of live leaves) ≡ err m
    → live ≡ none
missing_slowly (some q) leaves m e = absurd cc
missing_slowly none leaves m e = refl

pub created_slowly :
    (p : Pod) (s : Terminating) (leaves : Option Pod)
    → (refuse_or p s leaves).0 ≡ none
    → pod_at (key_of_pod p) (refuse_or p s leaves).1.objects.pods ≢ none
created_slowly p s (some q) e = absurd cc
created_slowly p s none e = created_lem p s.objects (pod_at (key_of_pod p) s.objects.pods) e

refused_frame :
    (p : Pod) (s : Terminating) (leaves : Option Pod) (j : Key)
    → Elsewhere j (create_pod p)
    → (pod_at j (refuse_or p s leaves).1.objects.pods ≡ pod_at j s.objects.pods)
      × (pod_at j (refuse_or p s leaves).1.leaving ≡ pod_at j s.leaving)
refused_frame p s (some q) j away = (refl, refl)
refused_frame p s none j away = (frame_lem (create_pod p) s.objects j away, refl)

join_frame :
    (k j : Key) (found : Option Pod) (l : List Pod)
    → ((p : Pod) → found ≡ some p → key_of_pod p ≢ j)
    → pod_at j (join found l) ≡ pod_at j l
join_frame k j none l away = refl
join_frame k j (some p) l away = away_lem (λ x. x.name) (λ x. x.namespace) p j l (away p refl)

same_key :
    (q p : Pod) → (q.name ≡ p.name) × (q.namespace ≡ p.namespace) → key_of_pod q ≡ key_of_pod p
same_key q p (n, ns) = cc

delete_frame :
    (p : Pod) (s : Terminating) (j : Key)
    → Elsewhere j (delete_pod p)
    → pod_at j (join (pod_at (key_of_pod p) s.objects.pods) s.leaving) ≡ pod_at j s.leaving
delete_frame p s j away =
    join_frame (key_of_pod p) j (pod_at (key_of_pod p) s.objects.pods) s.leaving λ q e same. away (
      sym (
        same_key q p
          (find_at-Answers (λ x. x.name) (λ x. x.namespace) (key_of_pod p) s.objects.pods q e))
      ∙ same)

-- A call for another pod changes neither the live pod of a key nor the one that terminates.
pub slow_frame :
    (c : Call) (s : Terminating) (j : Key)
    → Elsewhere j c
    → (pod_at j (serve_slowly c s).1.objects.pods ≡ pod_at j s.objects.pods)
      × (pod_at j (serve_slowly c s).1.leaving ≡ pod_at j s.leaving)
slow_frame (get_service k) s j e = (refl, refl)
slow_frame (get_pod k) s j e = (refl, refl)
slow_frame (get_endpoints k) s j e = (refl, refl)
slow_frame (get_secret k) s j e = (refl, refl)
slow_frame (get_volume_claim k) s j e = (refl, refl)
slow_frame (create_pod p) s j e = refused_frame p s (pod_at (key_of_pod p) s.leaving) j e
slow_frame (create_endpoints x) s j e = (refl, refl)
slow_frame (create_volume_claim c) s j e = (refl, refl)
slow_frame (update_endpoints x) s j e = (refl, refl)
slow_frame (delete_pod p) s j e = (frame_lem (delete_pod p) s.objects j e, delete_frame p s j e)

pub unmarked_slowly :
    (c : Call) (s : Terminating) (j : Key)
    → Elsewhere j c
    → ends_at (pod_at j s.objects.pods) (pod_at j s.leaving) ≡ false
    → ends_at (pod_at j (serve_slowly c s).1.objects.pods) (pod_at j (serve_slowly c s).1.leaving)
      ≡ false
unmarked_slowly c s j away e = let (live, leaves) = slow_frame c s j away in cc

pub not_made_slowly :
    (c : Call) (s : Terminating) (j : Key)
    → Creates (λ _. ⊥) c
    → pod_at j s.objects.pods ≡ none
    → pod_at j (serve_slowly c s).1.objects.pods ≡ none
not_made_slowly (get_service k) s j h leaves = leaves
not_made_slowly (get_pod k) s j h leaves = leaves
not_made_slowly (get_endpoints k) s j h leaves = leaves
not_made_slowly (get_secret k) s j h leaves = leaves
not_made_slowly (get_volume_claim k) s j h leaves = leaves
not_made_slowly (create_pod p) s j h leaves = absurd h
not_made_slowly (create_endpoints x) s j h leaves = leaves
not_made_slowly (create_volume_claim c) s j h leaves = leaves
not_made_slowly (update_endpoints x) s j h leaves = leaves
not_made_slowly (delete_pod p) s j h leaves = not_made_lem (delete_pod p) s.objects j tt leaves

abbrev pub slow_pods : Pods slow
slow_pods = record {
  pods = λ s k. pod_at k s.objects.pods;
  terminating = λ s k. ends_at (pod_at k s.objects.pods) (pod_at k s.leaving);
  alone = λ k s there. alone_lem (pod_at k s.objects.pods) (pod_at k s.leaving) there;
  found = λ k s p. found_slowly (pod_at k s.objects.pods) (pod_at k s.leaving) p;
  missing = λ k s m e _. missing_slowly (pod_at k s.objects.pods) (pod_at k s.leaving) m e;
  frame = λ c s j away. (slow_frame c s j away).0;
  unmarked = unmarked_slowly;
  not_made = not_made_slowly;
  created = λ p s e. created_slowly p s (pod_at (key_of_pod p) s.leaving) e;
  deleted =
      λ p s e. find_at-remove_at (λ x. x.name) (λ x. x.namespace) (key_of_pod p) s.objects.pods;
}

refused_services :
    (p : Pod) (s : Terminating) (leaves : Option Pod)
    → (refuse_or p s leaves).1.objects.services ≡ s.objects.services
refused_services p s (some q) = refl
refused_services p s none = serve-services (create_pod p) s.objects

pub serve_slowly-services :
    (c : Call) (s : Terminating) → (serve_slowly c s).1.objects.services ≡ s.objects.services
serve_slowly-services (get_service k) s = refl
serve_slowly-services (get_pod k) s = refl
serve_slowly-services (get_endpoints k) s = refl
serve_slowly-services (get_secret k) s = refl
serve_slowly-services (get_volume_claim k) s = refl
serve_slowly-services (create_pod p) s = refused_services p s (pod_at (key_of_pod p) s.leaving)
serve_slowly-services (create_endpoints x) s = refl
serve_slowly-services (create_volume_claim c) s = refl
serve_slowly-services (update_endpoints x) s = refl
serve_slowly-services (delete_pod p) s = refl

abbrev pub slow_services : Services slow
slow_services = record {
  services = λ s. memory_services.services s.objects;
  read = λ k s x e. memory_services.read k s.objects x e;
  unread = λ k s m e h. memory_services.unread k s.objects m e h;
  kept =
      λ c s. ap (λ l k. find_at (λ x. x.name) (λ x. x.namespace) k l) (serve_slowly-services c s);
}
