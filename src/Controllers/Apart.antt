-- ===== src/Controllers/Apart.antt =====
-- On internal/controller/egress_proxy_controller.go and internal/controller/ingress_proxy_controller.go.
-- What one reconciliation leaves alone.
use Prim.Native.String.{count}
use text.Mathlib.TextLemmas.{append_cancel_right, append_inj, append_assoc, length-append}
use netmaker_k8s_ops.Base.{
  String, ◌<>◌, ◌≡◌, ◌≢◌, refl, ap, sym, ◌∙◌, Env, arith, ◌+◌, ◌==◌, ◌&&◌, ◌⊎◌, inl, inr,
  Bool-cases, eq_iff,
}
use netmaker_k8s_ops.Kube.{Key}
use netmaker_k8s_ops.Kube.Client.{
  Client, run, Call, get_service, get_pod, get_endpoints, get_secret, get_volume_claim, create_pod,
  delete_pod, create_endpoints, create_volume_claim, update_endpoints,
}
use netmaker_k8s_ops.Kube.Calls.{IsFaithful, Always, Anything, Always-weaken}
use netmaker_k8s_ops.Kube.Cluster.{Pods, Elsewhere, Elsewhere-run}
use netmaker_k8s_ops.Egress
use netmaker_k8s_ops.Ingress
use netmaker_k8s_ops.Controllers.{Controller, egress, ingress, reconcile_by, pod_of}

apart : ◌≡◌ {A = String} "-egress-proxy" "ingress-proxy" → ⊥
apart e = absurd (cc (ap (λ (t : String). t == "-egress-proxy") e))

-- The ends of the two names differ in length, and so in their first letter.
names_differ : (s t : String) → s <> "-egress-proxy" ≢ t <> "-ingress-proxy"
names_differ s t e =
    let split : s <> "-egress-proxy" ≡ (t <> "-") <> "ingress-proxy" =
      e ∙ sym (append_assoc t "-" "ingress-proxy") in
    let longer : count s + 13 ≡ count t + 14 =
      sym (length-append s "-egress-proxy") ∙ (ap count e ∙ length-append t "-ingress-proxy") in
    let same : count s ≡ count (t <> "-") = omega (arith, length-append t "-") in
    let ends = (append_inj split same).1 in apart ends

names_egress : (s t : String) → s <> "-egress-proxy" ≡ t <> "-egress-proxy" → s ≡ t
names_egress s t e = append_cancel_right s t "-egress-proxy" e

names_ingress : (s t : String) → s <> "-ingress-proxy" ≡ t <> "-ingress-proxy" → s ≡ t
names_ingress s t e = append_cancel_right s t "-ingress-proxy" e

key_path : (k j : Key) → k.name ≡ j.name → k.namespace ≡ j.namespace → k ≡ j
key_path k j n ns = ground arith

-- Two proxy pods with one key are one controller's, for one service.
pub pod_of_inj : (c d : Controller) (k j : Key) → pod_of c k ≡ pod_of d j → (c ≡ d) × (k ≡ j)
unfolding Egress.pod_name Ingress.pod_name
pod_of_inj egress egress k j e =
    (refl, key_path k j (names_egress k.name j.name (ap (λ x. x.name) e)) (ap (λ x. x.namespace) e))
pod_of_inj ingress ingress k j e = (
  refl,
  key_path k j (names_ingress k.name j.name (ap (λ x. x.name) e)) (ap (λ x. x.namespace) e),
)
pod_of_inj egress ingress k j e = absurd (names_differ k.name j.name (ap (λ x. x.name) e))
pod_of_inj ingress egress k j e = absurd (names_differ j.name k.name (sym (ap (λ x. x.name) e)))

same_key : (k j : Key) → (k ≡ j) ⊎ (k ≢ j)
same_key k j = elim (Bool-cases (k.name == j.name && k.namespace == j.namespace)) [
  | inl same ↦ inl (ground (arith, same, eq_iff k.name j.name, eq_iff k.namespace j.namespace))
  | inr apart ↦ inr λ e. absurd (
      ground (
        arith,
        ap (λ x. x.name) e,
        ap (λ x. x.namespace) e,
        apart,
        eq_iff k.name j.name,
        eq_iff k.namespace j.namespace,
      ))
]

-- Two reconciliations are the same one, or keep different pods.
pub same_turn : (c d : Controller) (k j : Key) → ((c ≡ d) × (k ≡ j)) ⊎ (pod_of c k ≢ pod_of d j)
same_turn egress ingress k j = inr λ e. cc ((pod_of_inj egress ingress k j e).0)
same_turn ingress egress k j = inr λ e. cc ((pod_of_inj ingress egress k j e).0)
same_turn egress egress k j = elim (same_key k j) [
  | inl same ↦ inl (refl, same)
  | inr apart ↦ inr λ e. apart (pod_of_inj egress egress k j e).1
]
same_turn ingress ingress k j = elim (same_key k j) [
  | inl same ↦ inl (refl, same)
  | inr apart ↦ inr λ e. apart (pod_of_inj ingress ingress k j e).1
]

-- A call within the bounds of one reconciliation is elsewhere than every other pod.
pub egress-Elsewhere :
    (env : Env) (k j : Key)
    → j ≢ Egress.pod_key k
    → (c : Call) → Egress.Safety.Confined env k c
    → Elsewhere j c
egress-Elsewhere env k j away (create_pod p) (n, ns) = λ e. away (ground arith)
egress-Elsewhere env k j away (delete_pod p) (n, ns) = λ e. away (ground arith)
egress-Elsewhere env k j away (get_service _) h = tt
egress-Elsewhere env k j away (get_pod _) h = tt
egress-Elsewhere env k j away (get_endpoints _) h = tt
egress-Elsewhere env k j away (get_secret _) h = tt
egress-Elsewhere env k j away (get_volume_claim _) h = tt
egress-Elsewhere env k j away (create_endpoints _) h = tt
egress-Elsewhere env k j away (create_volume_claim _) h = tt
egress-Elsewhere env k j away (update_endpoints _) h = tt

pub ingress-Elsewhere :
    (env : Env) (k j : Key)
    → j ≢ Ingress.pod_key k
    → (c : Call) → Ingress.Safety.Confined env k c
    → Elsewhere j c
ingress-Elsewhere env k j away (create_pod p) (n, ns) = λ e. away (ground arith)
ingress-Elsewhere env k j away (delete_pod p) (n, ns) = λ e. away (ground arith)
ingress-Elsewhere env k j away (get_service _) h = tt
ingress-Elsewhere env k j away (get_pod _) h = tt
ingress-Elsewhere env k j away (get_endpoints _) h = absurd h
ingress-Elsewhere env k j away (get_secret _) h = tt
ingress-Elsewhere env k j away (get_volume_claim _) h = absurd h
ingress-Elsewhere env k j away (create_endpoints _) h = absurd h
ingress-Elsewhere env k j away (create_volume_claim _) h = absurd h
ingress-Elsewhere env k j away (update_endpoints _) h = absurd h

pub reconcile_by-Elsewhere :
    (env : Env) (c : Controller) (k j : Key)
    → j ≢ pod_of c k
    → Always (Elsewhere j) Anything (reconcile_by c env k)
reconcile_by-Elsewhere env egress k j away =
    Always-weaken _ _ (egress-Elsewhere env k j away) Anything (Egress.reconcile env k)
      (Egress.Safety.reconcile-Stays env k)
reconcile_by-Elsewhere env ingress k j away =
    Always-weaken _ _ (ingress-Elsewhere env k j away) Anything (Ingress.reconcile env k)
      (Ingress.Safety.reconcile-Stays env k)

-- On a server as `IsFaithful` and `Pods` describe it: a reconciliation by either controller, however
-- it ends, leaves every pod alone but the one that this controller keeps for the service `k`.
pub reconcile_by_frame :
    (env : Env) (C : Client) (P : Pods C) (c : Controller) (k j : Key) (s : C.State)
    → IsFaithful C
    → j ≢ pod_of c k
    → P.pods (run C (reconcile_by c env k) s).1 j ≡ P.pods s j
reconcile_by_frame env C P c k j s faithful away =
    Elsewhere-run C P j Anything (reconcile_by c env k) s faithful
      (reconcile_by-Elsewhere env c k j away)
