-- ===== src/Egress/Published.antt =====
-- On internal/controller/egress_proxy_controller.go.
-- What the endpoints are after a reconciliation of egress that ends with no error.
use netmaker_k8s_ops.Base.{
  String, ◌==◌, ◌≡◌, ◌≢◌, refl, ap, sym, subst, ◌∙◌, true, Option, none, some, Env, arith, inl, inr,
  Bool-cases,
}
use netmaker_k8s_ops.Kube.{Key, Service, Pod, Endpoints}
use netmaker_k8s_ops.Kube.Client.{
  GoError, Result, ok, err, is_not_found, Client, call, returned, run, get_service, get_pod,
  get_endpoints, create_endpoints, update_endpoints, no_requeue, ret,
}
use netmaker_k8s_ops.Kube.Calls.{Answers, IsFaithful, Anything}
use netmaker_k8s_ops.Kube.Runs.{run-bind_inv}
use netmaker_k8s_ops.Kube.Cluster.{Pods, EndpointsMap, pods-run, key_of_endpoints}
use netmaker_k8s_ops.Egress.{
  pod_key, key_of, subsets_of, write_endpoints, publish, update_service_endpoints, or_endpoints,
  ensure_proxy_pod, forward, dispatch, reconcile, is_egress_enabled, get_egress_target,
}
use netmaker_k8s_ops.Egress.Convergence.{has_target}
use netmaker_k8s_ops.Egress.Keeps.{or_endpoints-Keeps}

-- The endpoints of the service lead to the pod, on the ports of the service.
abbrev pub LeadsTo : (C : Client) → EndpointsMap C → Service → Pod → C.State → Type 0
LeadsTo C E service pod s =
    (e : Endpoints) × (E.endpoints s (key_of service) ≡ some e)
    × (e.subsets ≡ subsets_of service pod)

module _ (C : Client) (faithful : IsFaithful C) (P : Pods C) (E : EndpointsMap C)
    (service : Service) where
  write-LeadsTo :
      (pod : Pod) (found : Result Endpoints) (s : C.State)
      → Answers (get_endpoints (key_of service)) found
      → (run C (write_endpoints service pod found) s).0 ≡ returned none
      → LeadsTo C E service pod (run C (write_endpoints service pod found) s).1
  unfolding write_endpoints
  write-LeadsTo pod (ok old) s (n, ns) e =
      let new : Endpoints = record old { subsets = subsets_of service pod } in
      let named : key_of_endpoints new ≡ key_of service = ground arith in
      (
        new,
        subst (λ k. E.endpoints (C.serve (update_endpoints new) s).1 k ≡ some new) named
            (E.updated_endpoints new s (ground arith)),
        refl,
      )
  write-LeadsTo pod (err m) s _ e = elim (Bool-cases (is_not_found m)) [
    | inl absent ↦ rw absent (
        let new : Endpoints = record {
          name = service.name;
          namespace = service.namespace;
          subsets = subsets_of service pod;
        } in
        let written : (run C (call (create_endpoints new)) s).0 ≡ returned none = rw absent at e in
        (new, E.created_endpoints new s (ground arith), refl))
    | inr failed ↦ absurd (cc (rw failed at e))
  ]

  publish-LeadsTo :
      (found : Result Pod) (s : C.State) {pod : Pod}
      → found ≡ ok pod
      → (pod.phase == "Running") ≡ true
      → (run C (publish service found) s).0 ≡ returned none
      → LeadsTo C E service pod (run C (publish service found) s).1
  unfolding publish
  publish-LeadsTo (err m) s there running e = cc
  publish-LeadsTo (ok p) s {pod} there running e =
      let same : p ≡ pod = cc in
      let running_p = subst (λ q. (q.phase == "Running") ≡ true) (sym same) running in
      let read = C.serve (get_endpoints (key_of service)) s in
      subst (λ q. LeadsTo C E service q (run C (publish service (ok p)) s).1) same
        (rw running_p (
          write-LeadsTo p read.0 read.1 (faithful (get_endpoints (key_of service)) s)
            (rw running_p at e)))

  abbrev pod_of : C.State → Option Pod
  pod_of s = P.pods s (pod_key (key_of service))

  -- The pod that is there is the one that was read.
  read-pod :
      (found : Result Pod) (s t : C.State) {pod : Pod}
      → (C.serve (get_pod (pod_key (key_of service))) s).0 ≡ found
      → (run C (publish service found) t).0 ≡ returned none
      → pod_of s ≡ some pod
      → found ≡ ok pod
  unfolding publish
  read-pod (ok p) s t answer e there = cc (
    P.found (pod_key (key_of service)) s p
        (P.alone (pod_key (key_of service)) s λ gone. cc (gone, there)) answer,
    there,
  )
  read-pod (err m) s t answer e there = elim (Bool-cases (is_not_found m)) [
    | inl absent ↦ absurd (cc (P.missing (pod_key (key_of service)) s m answer absent, there))
    | inr failed ↦ absurd (cc (rw failed at e))
  ]

  update-LeadsTo :
      (s : C.State) {pod : Pod}
      → (run C (update_service_endpoints service) s).0 ≡ returned none
      → pod_of s ≡ some pod
      → (pod.phase == "Running") ≡ true
      → LeadsTo C E service pod (run C (update_service_endpoints service) s).1
  unfolding update_service_endpoints
  update-LeadsTo s e there running =
      let read = C.serve (get_pod (pod_key (key_of service))) s in
      publish-LeadsTo read.0 read.1 (read-pod read.0 s read.1 refl e there) running e

  or_endpoints-update :
      (s : C.State)
      → (run C (or_endpoints service none) s).0 ≡ returned (no_requeue, none)
      → ((run C (update_service_endpoints service) s).0 ≡ returned none)
        × ((run C (or_endpoints service none) s).1 ≡ (run C (update_service_endpoints service) s).1)
  unfolding or_endpoints
  or_endpoints-update s e =
      let update = update_service_endpoints service in
      let (failed, updated, same) =
        run-bind_inv C update (λ failed. ret (no_requeue, failed)) s e in
      let fine : failed ≡ none = cc (rw same at e) in
      (updated ∙ ap (λ o. returned o) fine, ap (λ r. r.1) same)

  or_endpoints-LeadsTo :
      (failed : Option GoError) (s : C.State) {pod : Pod}
      → (run C (or_endpoints service failed) s).0 ≡ returned (no_requeue, none)
      → pod_of (run C (or_endpoints service failed) s).1 ≡ some pod
      → (pod.phase == "Running") ≡ true
      → LeadsTo C E service pod (run C (or_endpoints service failed) s).1
  or_endpoints-LeadsTo (some x) s e there running = absurd (unfold or_endpoints in cc)
  or_endpoints-LeadsTo none s {pod} e there running =
      let (updated, same) = or_endpoints-update s e in
      let kept =
        pods-run C P Anything (or_endpoints service none) s (pod_key (key_of service)) faithful
          (or_endpoints-Keeps service none) in
      rw same (update-LeadsTo s updated (sym kept ∙ there) running)

  forward-LeadsTo :
      (env : Env) (ip dns : String) (s : C.State) {pod : Pod}
      → (run C (forward env service ip dns) s).0 ≡ returned (no_requeue, none)
      → pod_of (run C (forward env service ip dns) s).1 ≡ some pod
      → (pod.phase == "Running") ≡ true
      → LeadsTo C E service pod (run C (forward env service ip dns) s).1
  unfolding forward
  forward-LeadsTo env ip dns s e there running =
      let ensure = ensure_proxy_pod env 1 service ip dns in
      let (failed, ensured, same) = run-bind_inv C ensure (or_endpoints service) s e in
      rw same
        (or_endpoints-LeadsTo failed (run C ensure s).1 (rw same at e) (rw same at there) running)

module _ (env : Env) (C : Client) (faithful : IsFaithful C) (P : Pods C) (E : EndpointsMap C)
    (k : Key) where
  dispatch-LeadsTo :
      (found : Result Service) (s : C.State) {service : Service} {pod : Pod}
      → Answers (get_service k) found
      → found ≡ ok service
      → is_egress_enabled service ≡ true
      → get_egress_target service ≢ ("", "")
      → (run C (dispatch env k found) s).0 ≡ returned (no_requeue, none)
      → P.pods (run C (dispatch env k found) s).1 (pod_key k) ≡ some pod
      → (pod.phase == "Running") ≡ true
      → LeadsTo C E service pod (run C (dispatch env k found) s).1
  unfolding dispatch
  dispatch-LeadsTo (err m) s _ answer on target e there running = cc
  dispatch-LeadsTo (ok x) s {service} {pod} (n, ns) answer on target e there running =
      let same : x ≡ service = cc in
      let back = sym same in
      let on_x = subst (λ y. is_egress_enabled y ≡ true) back on in
      let target_x = has_target _ (subst (λ y. get_egress_target y ≢ ("", "")) back target) in
      let (ip, dns) = get_egress_target x in
      let named : k ≡ key_of x = ground arith in
      let there_x =
        subst (λ j. P.pods (run C (dispatch env k (ok x)) s).1 (pod_key j) ≡ some pod) named
          there in
      subst (λ y. LeadsTo C E y pod (run C (dispatch env k (ok x)) s).1) same
        (rw (on_x, target_x)
          (forward-LeadsTo C faithful P E x env ip dns s (rw (on_x, target_x) at e)
            (rw (on_x, target_x) at there_x) running))

  -- On a server as `IsFaithful`, `Pods` and `EndpointsMap` describe it: after a reconciliation that ends
  -- with no error, for a service that is there with egress enabled and a target, and whose proxy pod is
  -- running, the endpoints of the service are there, and their subsets are the address of that pod with
  -- the ports of the service, whatever endpoints were there before.
  pub reconcile-LeadsTo :
      (s : C.State) {service : Service} {pod : Pod}
      → (C.serve (get_service k) s).0 ≡ ok service
      → is_egress_enabled service ≡ true
      → get_egress_target service ≢ ("", "")
      → (run C (reconcile env k) s).0 ≡ returned (no_requeue, none)
      → P.pods (run C (reconcile env k) s).1 (pod_key k) ≡ some pod
      → (pod.phase == "Running") ≡ true
      → LeadsTo C E service pod (run C (reconcile env k) s).1
  unfolding reconcile
  reconcile-LeadsTo s answer on target e there running =
      dispatch-LeadsTo (C.serve (get_service k) s).0 (C.serve (get_service k) s).1
        (faithful (get_service k) s) answer on target e there running
