-- ===== src/Controllers/Confined.antt =====
-- On internal/controller/egress_proxy_controller.go and internal/controller/ingress_proxy_controller.go.
-- The objects that a reconciliation calls for.
use netmaker_k8s_ops.Base.{All, Env}
use netmaker_k8s_ops.Kube.{Key}
use netmaker_k8s_ops.Kube.Client.{Client, Call, calls}
use netmaker_k8s_ops.Kube.Calls.{IsFaithful}
use netmaker_k8s_ops.Egress.Safety.{Confined as EgressConfined, reconcile-Confined}
use netmaker_k8s_ops.Ingress.Safety.{Confined as IngressConfined, reconcile_ingress-Confined}
use netmaker_k8s_ops.Controllers.{Controller, egress, ingress, reconcile_by}

-- The calls that the controller may make for the service `k`.
abbrev pub Confined : Controller → Env → Key → Call → Type 0
Confined egress = EgressConfined
Confined ingress = IngressConfined

-- On a server that returns the objects that it is asked for: a reconciliation by either controller,
-- however it ends, calls for nothing but the service, the pod that the controller names after it, for
-- egress its endpoints, and secrets in its namespace or the operator's.
pub reconcile_by-Confined :
    (c : Controller) (env : Env) (C : Client) (k : Key) (s : C.State)
    → IsFaithful C
    → All (Confined c env k) (calls C (reconcile_by c env k) s)
reconcile_by-Confined egress = reconcile-Confined
reconcile_by-Confined ingress = reconcile_ingress-Confined
