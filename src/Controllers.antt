-- ===== src/Controllers.antt =====
-- The two controllers side by side: the manager runs the reconcilers of
-- internal/controller/egress_proxy_controller.go and internal/controller/ingress_proxy_controller.go
-- on the same services, in any order.
pub mod Apart
pub mod Settled
pub mod Quiet
pub mod Idle
pub mod Kept
pub mod Schedule
pub mod Errors
pub mod Confined
pub mod Injected
pub mod Workers
pub mod Concurrent
pub mod Overlap
mod Examples
mod Cases
use netmaker_k8s_ops.Base.{
  String, Bool, ◌≡◌, ◌≢◌, ◌==◌, ◌&&◌, Option, none, some, Env, if◌then◌else◌, index,
}
use netmaker_k8s_ops.Kube.{Key, Service, Pod}
use netmaker_k8s_ops.Kube.Client.{Prog, ret, Reply, no_requeue}
use netmaker_k8s_ops.Egress
use netmaker_k8s_ops.Egress.{is_egress_enabled, get_egress_target}
use netmaker_k8s_ops.Ingress
use netmaker_k8s_ops.Ingress.{is_ingress_enabled}

-- The reconciler of internal/controller/netmakerops_controller.go, which does nothing yet.
abbrev pub netmaker_ops_reconcile : Key → Prog Reply
netmaker_ops_reconcile k = ret (no_requeue, none)

pub data Controller : Type 0 where
  egress : Controller
  ingress : Controller

abbrev pub reconcile_by : Controller → Env → Key → Prog Reply
reconcile_by egress = Egress.reconcile
reconcile_by ingress = Ingress.reconcile

-- The key of the proxy pod that the controller keeps for the service `k`.
abbrev pub pod_of : Controller → Key → Key
pod_of egress = Egress.pod_key
pod_of ingress = Ingress.pod_key

-- What the annotations of a service ask of the controller: that the pod is there, that it is not,
-- or nothing.
pub data Want : Type 0 where
  present : Want
  absent : Want
  either : Want

-- The annotation that has the controller work for the service.
abbrev pub is_enabled : Controller → Service → Bool
is_enabled egress service = is_egress_enabled service
is_enabled ingress service = is_ingress_enabled service

-- Egress without a target, and ingress beside egress, are passed over.
abbrev pub is_passed_over : Controller → Service → Bool
is_passed_over egress service =
    (get_egress_target service).0 == "" && (get_egress_target service).1 == ""
is_passed_over ingress service = index service.annotations "netmaker.io/egress" == "enabled"

abbrev pub want : Controller → Option Service → Want
want c none = absent
want c (some service) =
    if is_enabled c service then if is_passed_over c service then either else present else absent

abbrev pub Meets : Want → Option Pod → Type 0
Meets present pod = pod ≢ none
Meets absent pod = pod ≡ none
Meets either pod = Unit
