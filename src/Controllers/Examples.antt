-- ===== src/Controllers/Examples.antt =====
-- The theorems on both controllers at a service in a small cluster.
use netmaker_k8s_ops.Base.{
  String, ◌≡◌, ◌≢◌, refl, ap, false, ◌==◌, none, some, [], ◌∷◌, All, Env, lookup, map, length, ◌≤◌,
}
use netmaker_k8s_ops.Kube.{Key, Service, Pod}
use netmaker_k8s_ops.Kube.Client.{Reply, returned, run, calls, no_requeue}
use netmaker_k8s_ops.Kube.Cluster.{KeepsPods}
use netmaker_k8s_ops.Kube.Memory.{Objects, memory, memory-IsFaithful, memory_pods, memory_services}
use netmaker_k8s_ops.Kube.Memory.Graceful.{
  Terminating, slow, slow-IsFaithful, slow_pods, slow_services,
}
use netmaker_k8s_ops.Kube.Reports.{failures, errors_of, root}
use netmaker_k8s_ops.Egress
use netmaker_k8s_ops.Ingress
use netmaker_k8s_ops.Controllers.{egress, ingress, reconcile_by, pod_of, want, present, Meets}
use netmaker_k8s_ops.Controllers.Apart.{reconcile_by_frame}
use netmaker_k8s_ops.Controllers.Errors.{reconcile_by_returns}
use netmaker_k8s_ops.Controllers.Confined.{Confined, reconcile_by-Confined}
use netmaker_k8s_ops.Controllers.Idle.{reconcile_by_idle}
use netmaker_k8s_ops.Controllers.Schedule.{Steps, turn, stay, go, schedule-IsSettled}

abbrev pub empty_env : Env
empty_env _ = ""

abbrev pub db : Service
db = record {
  name = "db";
  namespace = "shop";
  uid = "u1";
  annotations = some (("netmaker.io/ingress", "enabled") ∷ []);
  ports = [];
  cluster_ip = "10.0.0.1";
}

abbrev pub db_key : Key
db_key = record { name = "db"; namespace = "shop" }

abbrev pub web_key : Key
web_key = record { name = "web"; namespace = "shop" }

abbrev pod_named : String → Pod
pod_named name = record {
  name = name;
  namespace = "shop";
  uid = "u2";
  labels = none;
  annotations = none;
  owner_references = [];
  spec = record { containers = []; volumes = []; untouched = "" };
  phase = "Running";
  pod_ip = "10.1.0.5";
}

-- The pod of a service "web" that is gone is still there, and the one of "db" is not yet.
abbrev pub start : Objects
start = record {
  services = db ∷ [];
  pods = pod_named "web-egress-proxy" ∷ [];
  endpoints = [];
  secrets = λ _. none;
  claims = [];
}

-- The same after the controllers have worked.
abbrev pub finished : Objects
finished = record start { pods = pod_named "db-ingress-proxy" ∷ [] }

names_differ : pod_of ingress db_key ≢ pod_of egress web_key
unfolding Egress.pod_name Ingress.pod_name
names_differ e = absurd (cc (ap (λ (k : Key). k.name == "web-egress-proxy") e))

reconcile_by_frame_example :
    memory_pods.pods
      (run memory (reconcile_by egress empty_env web_key) start).1
      (pod_of ingress db_key)
    ≡ memory_pods.pods start (pod_of ingress db_key)
reconcile_by_frame_example =
    reconcile_by_frame empty_env memory memory_pods egress web_key (pod_of ingress db_key) start
      memory-IsFaithful names_differ

pub db_is_wanted :
    Meets (want ingress (some db)) (memory_pods.pods finished (pod_of ingress db_key))
unfolding Ingress.is_ingress_enabled lookup Ingress.pod_name
db_is_wanted = λ e. cc e

reconcile_by_idle_example :
    All KeepsPods (calls memory (reconcile_by ingress empty_env db_key) finished)
reconcile_by_idle_example =
    reconcile_by_idle memory memory-IsFaithful memory_pods empty_env db_key memory_services ingress
      finished refl db_is_wanted

-- The same cluster on a server where pods terminate.
abbrev slow_start : Terminating
slow_start = record { objects = start; leaving = [] }

no_failures : failures slow (reconcile_by egress empty_env web_key) slow_start ≡ []
unfolding Egress.reconcile Egress.dispatch Egress.pod_name Egress.cleanup_proxy_pod
no_failures = refl

-- The pod of "web" terminates while "db" gets its own, and the controller looks at "web" once more.
abbrev later : Terminating
later =
    (run slow (reconcile_by ingress empty_env db_key)
      (run slow (reconcile_by egress empty_env web_key) slow_start).1).1

abbrev last : Terminating
last = (run slow (reconcile_by egress empty_env web_key) later).1

schedule :
    Steps empty_env slow slow-IsFaithful slow_pods slow_services egress web_key
      (run slow (reconcile_by egress empty_env web_key) slow_start).1
      last
schedule = go _ _ _ (turn ingress db_key _) (go _ _ _ (turn egress web_key _) (stay _))

not_wanted :
    want egress (slow_services.services slow_start web_key) ≡ present
    → slow_pods.terminating slow_start (pod_of egress web_key) ≡ false
unfolding Egress.pod_name
not_wanted e = refl

schedule-IsSettled_example :
    Meets
      (want egress (slow_services.services last web_key))
      (slow_pods.pods last (pod_of egress web_key))
schedule-IsSettled_example =
    schedule-IsSettled empty_env slow slow-IsFaithful slow_pods slow_services egress web_key
      slow_start no_failures not_wanted schedule

reconcile_by_returns_example :
    (reply : Reply) × ((run memory (reconcile_by egress empty_env web_key) start).0
      ≡ returned reply)
    × (reply.0 ≡ no_requeue)
    × (map root (failures memory (reconcile_by egress empty_env web_key) start)
        ≡ map root (errors_of reply.1))
    × (length (calls memory (reconcile_by egress empty_env web_key) start) ≤ 9)
reconcile_by_returns_example = reconcile_by_returns egress empty_env memory web_key start

reconcile_by-Confined_example :
    All
      (Confined egress empty_env web_key)
      (calls memory (reconcile_by egress empty_env web_key) start)
reconcile_by-Confined_example =
    reconcile_by-Confined egress empty_env memory web_key start memory-IsFaithful
