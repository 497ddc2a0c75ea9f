-- ===== src/Controllers/Workers.antt =====
-- On internal/controller/egress_proxy_controller.go and internal/controller/ingress_proxy_controller.go.
-- The workers of the two controllers, and the pods that each of them has to itself.
use netmaker_k8s_ops.Base.{
  ◌≡◌, ◌≢◌, refl, sym, subst, ◌∙◌, inl, inr, Bool, true, false, ◌||◌, Bool-cases, List, [], ◌∷◌,
  Env, Option, none,
}
use netmaker_k8s_ops.Kube.{Key}
use netmaker_k8s_ops.Kube.Client.{
  Call, Prog, ret, ◌>>=◌, Reply, get_service, get_pod, get_endpoints, get_secret, get_volume_claim,
  create_pod, delete_pod, create_endpoints, create_volume_claim, update_endpoints,
}
use netmaker_k8s_ops.Kube.Calls.{Anything, Always, Always-bind, Always-weaken}
use netmaker_k8s_ops.Kube.Cluster.{Elsewhere, key_of_pod}
use netmaker_k8s_ops.Kube.Beside.{is_own, is_key, is_key_same, is_key-true}
use netmaker_k8s_ops.Egress
use netmaker_k8s_ops.Ingress
use netmaker_k8s_ops.Controllers.{Controller, egress, ingress, reconcile_by, pod_of}
use netmaker_k8s_ops.Controllers.Apart.{pod_of_inj, egress-Elsewhere, ingress-Elsewhere}

-- The worker of the controller, which reconciles the services of its queue one after another.
abbrev pub work : Controller → Env → List Key → Prog (Option Reply)
work c env [] = ret none
work c env (k ∷ queue) = reconcile_by c env k >>= λ _. work c env queue

-- The pods that the controller keeps for the services.
abbrev pub keeps : Controller → List Key → Key → Bool
keeps c [] j = false
keeps c (k ∷ queue) j = is_key j (pod_of c k) || keeps c queue j

pub keeps_pod_of :
    (c : Controller) (queue : List Key) (j : Key)
    → keeps c queue j ≡ true
    → (k : Key) × (j ≡ pod_of c k)
keeps_pod_of c [] j e = absurd cc
keeps_pod_of c (k ∷ queue) j e = elim (Bool-cases (is_key j (pod_of c k))) [
  | inl same ↦ (k, is_key-true j (pod_of c k) same)
  | inr away ↦ keeps_pod_of c queue j (rw away at e)
]

-- The call leaves these pods alone.
abbrev pub IsElsewhere : Controller → List Key → Call → Type 0
IsElsewhere c queue x = (j : Key) → keeps c queue j ≡ true → Elsewhere j x

away_from :
    (c d : Controller) (queue : List Key) (k j : Key)
    → c ≢ d
    → keeps c queue j ≡ true
    → j ≢ pod_of d k
away_from c d queue k j apart kept e =
    let (i, same) = keeps_pod_of c queue j kept in apart (pod_of_inj c d i k (sym same ∙ e)).0

module _ (env : Env) (c : Controller) (queue : List Key) where
  reconcile_by-Aside :
      (d : Controller)
      → c ≢ d
      → (k : Key) → Always (IsElsewhere c queue) Anything (reconcile_by d env k)
  reconcile_by-Aside egress apart k =
      Always-weaken (Egress.Safety.Confined env k) (IsElsewhere c queue)
        (λ x h j kept. egress-Elsewhere env k j (away_from c egress queue k j apart kept) x h)
        Anything (Egress.reconcile env k) (Egress.Safety.reconcile-Stays env k)
  reconcile_by-Aside ingress apart k =
      Always-weaken (Ingress.Safety.Confined env k) (IsElsewhere c queue)
        (λ x h j kept. ingress-Elsewhere env k j (away_from c ingress queue k j apart kept) x h)
        Anything (Ingress.reconcile env k) (Ingress.Safety.reconcile-Stays env k)

  pub work-Aside :
      (d : Controller)
      → c ≢ d
      → (others : List Key) → Always (IsElsewhere c queue) Anything (work d env others)
  work-Aside d apart [] = tt
  work-Aside d apart (k ∷ others) =
      Always-bind (IsElsewhere c queue) Anything Anything (reconcile_by d env k) _
        (reconcile_by-Aside d apart k) λ _ _. work-Aside d apart others

module _ (env : Env) (own : Key → Bool) (k : Key) where
  named_own :
      (p j : Key) → own p ≡ true → (j.name ≡ p.name) × (j.namespace ≡ p.namespace) → own j ≡ true
  named_own p j h (n, ns) =
      subst (λ i. own i ≡ true) (sym (is_key-true j p (is_key_same j p n ns))) h

  egress_own :
      own (Egress.pod_key k) ≡ true
      → (x : Call) → Egress.Safety.Confined env k x
      → is_own own x ≡ true
  egress_own h (get_pod j) named = named_own (Egress.pod_key k) j h named
  egress_own h (create_pod p) named = named_own (Egress.pod_key k) (key_of_pod p) h named
  egress_own h (delete_pod p) _ = refl
  egress_own h (get_service _) _ = refl
  egress_own h (get_endpoints _) _ = refl
  egress_own h (get_secret _) _ = refl
  egress_own h (get_volume_claim _) _ = refl
  egress_own h (create_endpoints _) _ = refl
  egress_own h (create_volume_claim _) _ = refl
  egress_own h (update_endpoints _) _ = refl

  ingress_own :
      own (Ingress.pod_key k) ≡ true
      → (x : Call) → Ingress.Safety.Confined env k x
      → is_own own x ≡ true
  ingress_own h (get_pod j) named = named_own (Ingress.pod_key k) j h named
  ingress_own h (create_pod p) named = named_own (Ingress.pod_key k) (key_of_pod p) h named
  ingress_own h (delete_pod p) _ = refl
  ingress_own h (get_service _) _ = refl
  ingress_own h (get_endpoints _) _ = refl
  ingress_own h (get_secret _) _ = refl
  ingress_own h (get_volume_claim _) _ = refl
  ingress_own h (create_endpoints _) _ = refl
  ingress_own h (create_volume_claim _) _ = refl
  ingress_own h (update_endpoints _) _ = refl

  pub reconcile_by-own :
      (c : Controller)
      → own (pod_of c k) ≡ true
      → Always (λ x. is_own own x ≡ true) Anything (reconcile_by c env k)
  reconcile_by-own egress h =
      Always-weaken (Egress.Safety.Confined env k) (λ x. is_own own x ≡ true) (egress_own h)
        Anything (Egress.reconcile env k) (Egress.Safety.reconcile-Stays env k)
  reconcile_by-own ingress h =
      Always-weaken (Ingress.Safety.Confined env k) (λ x. is_own own x ≡ true) (ingress_own h)
        Anything (Ingress.reconcile env k) (Ingress.Safety.reconcile-Stays env k)

pub keeps_own :
    (c : Controller) (k : Key) (queue : List Key) → keeps c (k ∷ queue) (pod_of c k) ≡ true
keeps_own c k queue = rw (is_key_same (pod_of c k) (pod_of c k) refl refl) refl

pub keeps_cons :
    (c : Controller) (k j : Key) (queue : List Key)
    → keeps c queue j ≡ true
    → keeps c (k ∷ queue) j ≡ true
keeps_cons c k j queue kept = elim (Bool-cases (is_key j (pod_of c k))) [
  | inl same ↦ rw same refl
  | inr away ↦ rw away kept
]

pub work-own :
    (env : Env) (c : Controller) (own : Key → Bool) (queue : List Key)
    → ((j : Key) → keeps c queue j ≡ true → own j ≡ true)
    → Always (λ x. is_own own x ≡ true) Anything (work c env queue)
work-own env c own [] h = tt
work-own env c own (k ∷ queue) h =
    Always-bind (λ x. is_own own x ≡ true) Anything Anything (reconcile_by c env k) _
      (reconcile_by-own env own k c (h (pod_of c k) (keeps_own c k queue)))
      λ _ _. work-own env c own queue λ j kept. h j (keeps_cons c k j queue kept)
