-- ===== src/Webhook/Injection.antt =====
-- On internal/webhook/mutating_webhook.go.
-- What the webhook adds to a pod specification.
use netmaker_k8s_ops.Base.{
  String, ◌==◌, ◌≡◌, refl, Bool, true, false, ◌||◌, List, [], ◌∷◌, ◌++◌, All, Env, Labels, arith,
  eq_iff, if◌then◌else◌, not,
}
use netmaker_k8s_ops.Kube.{Container, Volume, PodSpec, VolumeClaim, VolumeMount}
use netmaker_k8s_ops.Kube.Client.{
  Call, get_secret, get_volume_claim, create_volume_claim, Result, ok, err, is_not_found, Prog,
}
use netmaker_k8s_ops.Kube.Calls.{Anything, Always, Always-bind, Always-if}
use netmaker_k8s_ops.Webhook.Config.{has_netclient_sidecar, get_pvc_name_from_pod}
use netmaker_k8s_ops.Webhook.Inject.{
  has_volume, etc_volume, log_volume, with_volumes, get_netclient_token_from_secret,
  new_volume_claim, or_create_claim, ensure_pvc_exists, usable_pvc_name, add_netclient_volumes,
  netclient_container, or_env_token, add_netclient_sidecar_to_pod_template,
}

-- The volumes that a container mounts are there.
abbrev pub HasMounts : List Volume → Container → Type 0
HasMounts volumes c = All (λ (m : VolumeMount). has_volume m.name volumes ≡ true) c.volume_mounts

-- `added` is what the injection appends to the containers and to the volumes.
pub record Injected (original injected : PodSpec) : Type 0 where
  pub sidecar : Container
  pub containers : injected.containers ≡ original.containers ++ (sidecar ∷ [])
  pub is_netclient : sidecar.name ≡ "netclient"
  pub mounts : HasMounts injected.volumes sidecar
  pub volumes : List Volume
  pub appended : injected.volumes ≡ original.volumes ++ volumes
  pub fresh : All (λ (v : Volume). has_volume v.name original.volumes ≡ false) volumes
  pub untouched : injected.untouched ≡ original.untouched

has_volume-append :
    (name : String) (xs ys : List Volume)
    → has_volume name (xs ++ ys) ≡ (has_volume name xs || has_volume name ys)
unfolding has_volume
has_volume-append name [] ys = refl
has_volume-append name (x ∷ xs) ys = ground (arith, has_volume-append name xs ys)

abbrev extra : String → List Volume → List Volume
extra pvc_name volumes =
    (if has_volume "etc-netclient" volumes then [] else etc_volume pvc_name ∷ [])
    ++ (if has_volume "log-netclient" volumes then [] else log_volume ∷ [])

extra-fresh :
    (pvc_name : String) (volumes : List Volume)
    → All (λ (v : Volume). has_volume v.name volumes ≡ false) (extra pvc_name volumes)
unfolding etc_volume
extra-fresh pvc_name volumes = ground arith

with_volumes-has :
    (pvc_name : String) (volumes : List Volume)
    → (has_volume "etc-netclient" (with_volumes pvc_name volumes) ≡ true)
      × (has_volume "log-netclient" (with_volumes pvc_name volumes) ≡ true)
unfolding with_volumes
with_volumes-has pvc_name volumes = ground (
  arith,
  has_volume-append "etc-netclient" volumes (extra pvc_name volumes),
  has_volume-append "log-netclient" volumes (extra pvc_name volumes),
)

sidecar_of_append :
    (cs : List Container) (c : Container)
    → c.name ≡ "netclient"
    → has_netclient_sidecar (cs ++ (c ∷ [])) ≡ true
unfolding has_netclient_sidecar
sidecar_of_append [] c e = ground (arith, eq_iff c.name "netclient")
sidecar_of_append (x ∷ cs) c e = ground (arith, sidecar_of_append cs c e)

-- A specification that went through the injection is seen as having the container.
pub Injected-has_sidecar :
    {original injected : PodSpec}
    → Injected original injected
    → has_netclient_sidecar injected.containers ≡ true
Injected-has_sidecar h = rw h.containers (sidecar_of_append _ h.sidecar h.is_netclient)

-- The calls that an injection may make: it reads secrets, and reads or creates claims of the
-- namespace of the request.
abbrev pub Allowed : String → Call → Type 0
Allowed namespace (get_secret k) = Unit
Allowed namespace (get_volume_claim k) = k.namespace ≡ namespace
Allowed namespace (create_volume_claim c) = c.namespace ≡ namespace
Allowed namespace _ = ⊥

module _ (env : Env) (is_quantity : String → Bool) (client : Bool) (namespace : String) where
  abbrev Makes {ℓ} : {A : Type ℓ} → (A → Type 0) → Prog A → Type 0
  Makes = Always (Allowed namespace)

  token-Makes :
      (labels : Labels)
      → Makes Anything (get_netclient_token_from_secret env is_quantity client labels namespace)
  unfolding get_netclient_token_from_secret
  token-Makes labels = Always-if _ _ client _ _ (tt, λ r _. tt) tt

  claim-Makes :
      (pvc_name : String) (found : Result VolumeClaim)
      → Makes Anything (or_create_claim env is_quantity client pvc_name namespace found)
  unfolding or_create_claim new_volume_claim
  claim-Makes pvc_name (ok _) = tt
  claim-Makes pvc_name (err e) =
      Always-if _ _ (is_not_found e) _ _ (Always-if _ _ (is_quantity _) _ _ (refl, λ r _. tt) tt) tt

  ensure-Makes :
      (pvc_name : String)
      → Makes Anything (ensure_pvc_exists env is_quantity client pvc_name namespace)
  unfolding ensure_pvc_exists
  ensure-Makes pvc_name = Always-if _ _ client _ _ (refl, λ found _. claim-Makes pvc_name found) tt

  usable-Makes :
      (pvc_name : String)
      → Makes Anything (usable_pvc_name env is_quantity client pvc_name namespace)
  unfolding usable_pvc_name
  usable-Makes pvc_name = Always-if _ _ (pvc_name == "" || not client) _ _ tt (
      Always-bind _ Anything Anything (ensure_pvc_exists env is_quantity client pvc_name namespace)
        _ (ensure-Makes pvc_name) λ _ _. tt)

  netclient_container-Injected :
      (spec : PodSpec) (token pvc_name : String)
      → Injected spec (record spec {
        containers = spec.containers ++ (netclient_container env token ∷ []);
        volumes = with_volumes pvc_name spec.volumes;
      })
  unfolding netclient_container with_volumes
  netclient_container-Injected spec token pvc_name = record {
    sidecar = netclient_container env token;
    containers = refl;
    is_netclient = refl;
    mounts = let (etc, log) = with_volumes-has pvc_name spec.volumes in (etc, (log, tt));
    volumes = extra pvc_name spec.volumes;
    appended = refl;
    fresh = extra-fresh pvc_name spec.volumes;
    untouched = refl;
  }

  -- For all answers of the API server: an injection appends one container named netclient and
  -- only volumes that were not there, so that the container's mounts have their volumes; it keeps
  -- the rest, and calls for nothing but secrets and the claims of the request's namespace.
  pub add_netclient_sidecar-Injected :
      (spec : PodSpec) (labels annotations : Labels)
      → Always (Allowed namespace) (Injected spec) (
          add_netclient_sidecar_to_pod_template env is_quantity client spec labels annotations
            namespace)
  unfolding add_netclient_sidecar_to_pod_template add_netclient_volumes
  add_netclient_sidecar-Injected spec labels annotations =
      Always-bind _ Anything _
        (get_netclient_token_from_secret env is_quantity client labels namespace) _
        (token-Makes labels)
        λ found _.
          Always-bind _ Anything _
            (usable_pvc_name env is_quantity client
              (get_pvc_name_from_pod env annotations namespace) namespace)
            _ (usable-Makes _)
            λ pvc_name _. netclient_container-Injected spec (or_env_token env found) pvc_name
