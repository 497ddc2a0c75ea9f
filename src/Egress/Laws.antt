-- ===== src/Egress/Laws.antt =====
-- On internal/controller/egress_proxy_controller.go.
-- What a reconciliation of egress does, call by call.
use netmaker_k8s_ops.Base.{
  ℕ, suc, String, ◌==◌, ◌≡◌, refl, ap, none, List, [], ◌∷◌, Env, inl, inr, Bool-cases,
  if◌then◌else◌,
}
use mathlib.Core.Path.{fun_ext}
use netmaker_k8s_ops.Kube.{Service, Pod, Endpoints}
use netmaker_k8s_ops.Kube.Client.{
  Call, Result, ok, err, is_not_found, Client, ask, returned, run, calls, writes, get_pod,
  get_endpoints, create_endpoints, update_endpoints,
}
use netmaker_k8s_ops.Egress.{
  pod_key, key_of, needs_update, ensure_proxy_pod, subsets_of, publish, write_endpoints,
  update_service_endpoints,
}

-- Any fuel above zero gives the same program: `ensureProxyPod` never comes back to itself.
pub ensure_proxy_pod_fuel :
    (env : Env) (fuel : ℕ) (service : Service) (ip dns : String)
    → ensure_proxy_pod env (suc fuel) service ip dns ≡ ensure_proxy_pod env 1 service ip dns
unfolding ensure_proxy_pod
ensure_proxy_pod_fuel env fuel service ip dns =
    ap (ask (get_pod (pod_key (key_of service)))) (fun_ext (elim [ ok pod ↦ refl | err e ↦ refl ]))

module _ (service : Service) where
  -- What `updateServiceEndpoints` is to write, from the answers for the pod and the endpoints.
  abbrev pub wanted : Result Pod → Result Endpoints → List Call
  wanted (err _) _ = []
  wanted (ok pod) (ok endpoints) =
      update_endpoints (record endpoints { subsets = subsets_of service pod }) ∷ []
  wanted (ok pod) (err e) =
      if is_not_found e
      then create_endpoints (record {
        name = service.name;
        namespace = service.namespace;
        subsets = subsets_of service pod;
      })
        ∷ []
      else []

  abbrev pub wanted_if_running : Result Pod → Result Endpoints → List Call
  wanted_if_running (err e) endpoints = []
  wanted_if_running (ok pod) endpoints =
      if pod.phase == "Running" then wanted (ok pod) endpoints else []

module _ (C : Client) (service : Service) where
  -- If the pod of the service is there, ensuring it reads it and does nothing else, for any
  -- target, and ends with no error.
  pub ensure_proxy_pod_present :
      (env : Env) (fuel : ℕ) (ip dns : String) (s : C.State) {pod : Pod}
      → (C.serve (get_pod (pod_key (key_of service))) s).0 ≡ ok pod
      → (calls C (ensure_proxy_pod env (suc fuel) service ip dns) s
          ≡ get_pod (pod_key (key_of service)) ∷ [])
        × ((run C (ensure_proxy_pod env (suc fuel) service ip dns) s).0 ≡ returned none)
  unfolding ensure_proxy_pod needs_update
  ensure_proxy_pod_present env fuel ip dns s e = (rw (e, calls), rw (e, run))

  writes-write_endpoints :
      (pod : Pod) (found : Result Endpoints) (s : C.State)
      → writes (calls C (write_endpoints service pod found) s) ≡ wanted service (ok pod) found
  unfolding write_endpoints
  writes-write_endpoints pod (ok endpoints) s = refl
  writes-write_endpoints pod (err e) s = elim (Bool-cases (is_not_found e)) [
    | inl absent ↦ rw absent
    | inr failed ↦ rw failed
  ]

  writes-publish :
      (found : Result Pod) (s : C.State)
      → writes (calls C (publish service found) s)
        ≡ wanted_if_running service found (C.serve (get_endpoints (key_of service)) s).0
  unfolding publish
  writes-publish (err e) s = elim (Bool-cases (is_not_found e)) [
    | inl absent ↦ rw absent
    | inr failed ↦ rw failed
  ]
  writes-publish (ok pod) s = elim (Bool-cases (pod.phase == "Running")) [
    | inl running ↦ rw running (
        writes-write_endpoints pod (C.serve (get_endpoints (key_of service)) s).0
          (C.serve (get_endpoints (key_of service)) s).1)
    | inr waiting ↦ rw waiting
  ]

  -- Updating the endpoints writes at most once: it sets the subsets of the endpoints that are
  -- there, or creates endpoints where none are, and only for a pod that is running.
  pub writes-update_service_endpoints :
      (s : C.State)
      → let (pod, after) = C.serve (get_pod (pod_key (key_of service))) s in
        writes (calls C (update_service_endpoints service) s)
        ≡ wanted_if_running service pod (C.serve (get_endpoints (key_of service)) after).0
  unfolding update_service_endpoints
  writes-update_service_endpoints s =
      writes-publish (C.serve (get_pod (pod_key (key_of service))) s).0
        (C.serve (get_pod (pod_key (key_of service))) s).1
