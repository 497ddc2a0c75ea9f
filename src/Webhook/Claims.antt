-- ===== src/Webhook/Claims.antt =====
-- On internal/webhook/mutating_webhook.go.
-- Which volume holds the configuration of an injected netclient.
use netmaker_k8s_ops.Base.{
  String, ◌==◌, ◌≡◌, refl, ◌≢◌, Bool, true, false, ◌&&◌, Option, none, some, Env, arith, eq_iff,
  Bool-cases, inl, inr, if◌then◌else◌, List, [], ◌∷◌,
}
use netmaker_k8s_ops.Kube.{VolumeClaim}
use netmaker_k8s_ops.Kube.Client.{
  Call, GoError, Result, ok, err, is_not_found, wrap_error, ret, ◌>>=◌, Client, Outcome, returned,
  panicked, run, calls, writes, get_volume_claim, create_volume_claim,
}
use netmaker_k8s_ops.Webhook.Config.{get_env_or_default}
use netmaker_k8s_ops.Webhook.Inject.{
  name_unless, new_volume_claim, or_create_claim, ensure_pvc_exists, usable_pvc_name,
}

module _ (env : Env) (is_quantity : String → Bool) (pvc_name namespace : String) where
  -- What becomes of a wanted claim, from the answers to reading and to creating it.
  abbrev pub expected_name : Result VolumeClaim → Option GoError → Outcome String
  expected_name (ok _) created = returned pvc_name
  expected_name (err e) created =
      if is_not_found e
      then if is_quantity (get_env_or_default env "NETCLIENT_PVC_STORAGE_SIZE" "1Gi")
        then returned (name_unless pvc_name created)
        else panicked "cannot parse quantity"
      else returned ""

  abbrev pub expected_writes : Result VolumeClaim → List Call
  expected_writes (ok _) = []
  expected_writes (err e) =
      if is_not_found e && is_quantity (get_env_or_default env "NETCLIENT_PVC_STORAGE_SIZE" "1Gi")
      then create_volume_claim (new_volume_claim env pvc_name namespace) ∷ []
      else []

  name_unless-wrap_error :
      (m : String) (o : Option GoError)
      → name_unless pvc_name (wrap_error m o) ≡ name_unless pvc_name o
  name_unless-wrap_error m none = refl
  name_unless-wrap_error m (some e) = refl

  module _ (C : Client) where
    abbrev pub create : Call
    create = create_volume_claim (new_volume_claim env pvc_name namespace)

    abbrev pub claim : Call
    claim = get_volume_claim (record { name = pvc_name; namespace = namespace })

    answered-run :
        (found : Result VolumeClaim) (s : C.State)
        → let rest = or_create_claim env is_quantity true pvc_name namespace found >>= λ failed.
            ret (name_unless pvc_name failed) in
          ((run C rest s).0 ≡ expected_name found (C.serve create s).0)
          × (writes (calls C rest s) ≡ expected_writes found)
    unfolding or_create_claim
    answered-run (ok c) s = (refl, refl)
    answered-run (err e) s = elim (Bool-cases (is_not_found e)) [
      | inr failed ↦ rw failed (refl, refl)
      | inl absent ↦
          elim (Bool-cases
            (is_quantity (get_env_or_default env "NETCLIENT_PVC_STORAGE_SIZE" "1Gi"))) [
              | inr bad ↦ rw (absent, bad) (refl, refl)
              | inl good ↦ rw (absent, good) (rw name_unless-wrap_error, refl)
            ]
    ]

    -- With a client, a claim that is named is mounted if it is there or could be created. Where
    -- reading or creating it fails there is none, and a storage size that is no quantity panics.
    -- It is created only where reading it said that there is none.
    pub usable_pvc_name_lem :
        (s : C.State)
        → pvc_name ≢ ""
        → let (found, after) = C.serve claim s in
          ((run C (usable_pvc_name env is_quantity true pvc_name namespace) s).0
            ≡ expected_name found (C.serve create after).0)
          × (writes (calls C (usable_pvc_name env is_quantity true pvc_name namespace) s)
              ≡ expected_writes found)
    unfolding usable_pvc_name ensure_pvc_exists
    usable_pvc_name_lem s h =
        let named : (pvc_name == "") ≡ false = ground (arith, eq_iff pvc_name "") in
        rw named (answered-run (C.serve claim s).0 (C.serve claim s).1)
