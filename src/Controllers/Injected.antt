-- ===== src/Controllers/Injected.antt =====
-- On internal/controller/egress_proxy_controller.go and internal/controller/ingress_proxy_controller.go.
-- What an annotation puts into the commands of the pods that are created.
use netmaker_k8s_ops.Base.{String, ◌≡◌, ◌≢◌, refl, sym, subst, [], ◌∷◌, All, Env, HasLine}
use netmaker_k8s_ops.Kube.{Key, Service, Pod, Container}
use netmaker_k8s_ops.Kube.Client.{Client, Prog, calls, get_service, ok, Reply}
use netmaker_k8s_ops.Kube.Calls.{IsFaithful, Anything, Always, Always-weaken, calls-All}
use netmaker_k8s_ops.Kube.Cluster.{Creates}
use netmaker_k8s_ops.Kube.Creates.{Creates-mono}
use netmaker_k8s_ops.Egress
use netmaker_k8s_ops.Egress.{get_egress_target}
use netmaker_k8s_ops.Egress.Build.{proxy_pod as egress_pod, target_address}
use netmaker_k8s_ops.Egress.Creates.{IsBuilt as EgressBuilt, on_service-Creates as egress-Creates}
use netmaker_k8s_ops.Egress.Lines.{command-HasLine as egress-HasLine}
use netmaker_k8s_ops.Ingress
use netmaker_k8s_ops.Ingress.Build.{proxy_pod as ingress_pod, get_ingress_config}
use netmaker_k8s_ops.Ingress.Creates.{
  IsBuilt as IngressBuilt, on_service-Creates as ingress-Creates,
}
use netmaker_k8s_ops.Ingress.Lines.{command-HasLine as ingress-HasLine}
use netmaker_k8s_ops.Controllers.{Controller, egress, ingress, reconcile_by}

-- An address among the annotations of the service has the text as a line of its own, and the proxy
-- has the address in its script.
abbrev pub Gives : Controller → Service → String → Type 0
Gives egress service command =
    let (ip, dns) = get_egress_target service in
    HasLine command (target_address ip dns) × (service.ports ≢ [])
Gives ingress service command = HasLine command (get_ingress_config service).0

-- The second container of the pod hands a script that has the line to a shell.
abbrev pub Runs : String → Pod → Type 0
Runs command pod =
    (netclient : Container) × (proxy : Container) × (script : String) × (pod.spec.containers
      ≡ netclient ∷ proxy ∷ [])
    × (proxy.command ≡ "/bin/sh" ∷ "-c" ∷ script ∷ [])
    × HasLine command script

-- Of the pods that the program creates, each runs the line.
module _ (C : Client) (faithful : IsFaithful C) (command : String) where
  Creates-Runs :
      (R : Pod → Type 0)
      → ((p : Pod) → R p → Runs command p)
      → (m : Prog Reply) (s : C.State) → Always (Creates R) Anything m
      → All (Creates (Runs command)) (calls C m s)
  Creates-Runs R runs m s h = calls-All (Creates (Runs command)) Anything C m s faithful (
      Always-weaken (Creates R) (Creates (Runs command)) (Creates-mono R (Runs command) runs)
        Anything m h)

module _ (env : Env) (service : Service) (command : String) where
  egress_built-Runs :
      (let (ip, dns) = get_egress_target service in HasLine command (target_address ip dns))
      → (service.ports ≢ [])
      → (p : Pod) → (let (ip, dns) = get_egress_target service in EgressBuilt env service ip dns p)
      → Runs command p
  unfolding egress_pod
  egress_built-Runs h some_port p (env_vars, built) =
      let (ip, dns) = get_egress_target service in
      let (script, shell, line) = egress-HasLine command ip dns service.ports h some_port in
      subst (Runs command) (sym built) (_, _, script, refl, shell, line)

  ingress_built-Runs :
      HasLine command (get_ingress_config service).0
      → (p : Pod) → IngressBuilt env service p
      → Runs command p
  unfolding ingress_pod
  ingress_built-Runs h p (env_vars, built) =
      let (script, shell, line) =
        ingress-HasLine command (get_ingress_config service).0 service h in
      subst (Runs command) (sym built) (_, _, script, refl, shell, line)

-- Whatever else a server answers that returns the objects that it is asked for: if the service that
-- is read has an address among its annotations with a text as a line of its own (for egress the
-- target, of a service with ports, and for ingress the bind address), then every pod that either
-- controller creates in that reconciliation hands a script with that line to a shell.
pub reconcile_by-Runs :
    (c : Controller) (env : Env) (C : Client) (k : Key) (s : C.State) (service : Service)
    (command : String)
    → IsFaithful C
    → ((C.serve (get_service k) s).0 ≡ ok service)
    → Gives c service command
    → All (Creates (Runs command)) (calls C (reconcile_by c env k) s)
unfolding Egress.reconcile Egress.dispatch Ingress.reconcile Ingress.dispatch
reconcile_by-Runs egress env C k s service command faithful found (given, some_port) = (
  tt,
  let (ip, dns) = get_egress_target service in
      let after = (C.serve (get_service k) s).1 in
      subst (λ r. All (Creates (Runs command)) (calls C (Egress.dispatch env k r) after))
        (sym found)
        (Creates-Runs C faithful command (EgressBuilt env service ip dns)
          (egress_built-Runs env service command given some_port) (Egress.on_service env k service)
          after (egress-Creates env service k)),
)
reconcile_by-Runs ingress env C k s service command faithful found given = (
  tt,
  let after = (C.serve (get_service k) s).1 in
      subst (λ r. All (Creates (Runs command)) (calls C (Ingress.dispatch env k r) after))
        (sym found)
        (Creates-Runs C faithful command (IngressBuilt env service)
          (ingress_built-Runs env service command given) (Ingress.on_service env k service) after
          (ingress-Creates env service k)),
)
