-- ===== src/Controllers/Cases.antt =====
-- The theorems on overlapping reconciliations and on commands, in the same small cluster.
use netmaker_k8s_ops.Base.{
  ◌≡◌, ◌≢◌, ◌⊎◌, refl, none, some, List, [], ◌∷◌, All, Option, lookup, arith, ◌++◌,
}
use netmaker_k8s_ops.Kube.{Service}
use netmaker_k8s_ops.Kube.Client.{Prog, ret, Reply, calls}
use netmaker_k8s_ops.Kube.Cluster.{Creates}
use netmaker_k8s_ops.Kube.Memory.{Objects, memory, memory-IsFaithful, memory_pods, memory_services}
use netmaker_k8s_ops.Kube.Beside.{Turn, mine, theirs, race}
use netmaker_k8s_ops.Ingress.Build.{get_ingress_config}
use netmaker_k8s_ops.Controllers.{egress, ingress, reconcile_by, pod_of, want, Meets}
use netmaker_k8s_ops.Controllers.Injected.{Runs, reconcile_by-Runs}
use netmaker_k8s_ops.Controllers.Workers.{work}
use netmaker_k8s_ops.Controllers.Concurrent.{race-Meets}
use netmaker_k8s_ops.Controllers.Overlap.{overlap-IsSettled}
use netmaker_k8s_ops.Controllers.Examples.{
  empty_env, db, db_key, web_key, start, finished, db_is_wanted,
}

-- A service whose bind address has a line of its own.
abbrev tricky : Service
tricky = record db {
  annotations = some (
      ("netmaker.io/ingress", "enabled")
      ∷ ("netmaker.io/ingress-bind-ip", "10.0.0.1\nreboot\n")
      ∷ []);
}

abbrev before_tricky : Objects
before_tricky = record start { services = tricky ∷ [] }

reconcile_by-Runs_example :
    All
      (Creates (Runs "reboot"))
      (calls memory (reconcile_by ingress empty_env db_key) before_tricky)
unfolding get_ingress_config lookup
reconcile_by-Runs_example =
    reconcile_by-Runs ingress empty_env memory db_key before_tricky tricky "reboot"
      memory-IsFaithful refl ("10.0.0.1", "", refl)

abbrev alternating : List Turn
alternating =
    theirs ∷ mine ∷ theirs ∷ mine ∷ theirs ∷ mine ∷ theirs ∷ mine ∷ theirs ∷ mine ∷ theirs ∷ mine
    ∷ theirs ∷ []

-- Ingress makes the pod of "db" while egress clears "web" away and looks at "db".
abbrev both : Prog Reply × Prog (Option Reply) × Objects
both =
    race memory alternating (reconcile_by ingress empty_env db_key)
      (work egress empty_env (web_key ∷ db_key ∷ [])) start

race-Meets_example :
    (reply : Reply) × (both.0 ≡ ret reply)
    × ((reply.1 ≢ none)
        ⊎ Meets
            (want ingress (memory_services.services both.2 db_key))
            (memory_pods.pods both.2 (pod_of ingress db_key)))
race-Meets_example =
    race-Meets empty_env memory memory-IsFaithful memory_pods memory_services ingress egress
      (λ e. absurd (cc e)) db_key (web_key ∷ db_key ∷ []) alternating start (omega arith) λ _. refl

-- Both workers go round where the pod of "db" is there.
abbrev rounds : Prog (Option Reply) × Prog (Option Reply) × Objects
rounds =
    race memory (alternating ++ alternating) (work ingress empty_env (web_key ∷ db_key ∷ []))
      (work egress empty_env (db_key ∷ web_key ∷ [])) finished

overlap-IsSettled_example :
    Meets
      (want ingress (memory_services.services rounds.2 db_key))
      (memory_pods.pods rounds.2 (pod_of ingress db_key))
overlap-IsSettled_example =
    overlap-IsSettled empty_env memory memory-IsFaithful memory_pods memory_services ingress egress
      (λ e. absurd (cc e)) db_key (web_key ∷ db_key ∷ []) (db_key ∷ web_key ∷ [])
      (alternating ++ alternating) finished (omega arith) db_is_wanted
