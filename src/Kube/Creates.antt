-- ===== src/Kube/Creates.antt =====
-- What the pods that a program creates have in common.
use netmaker_k8s_ops.Kube.{Pod}
use netmaker_k8s_ops.Kube.Client.{
  Call, get_service, get_pod, get_endpoints, get_secret, get_volume_claim, create_pod,
  create_endpoints, create_volume_claim, update_endpoints, delete_pod,
}
use netmaker_k8s_ops.Kube.Cluster.{KeepsPods, Creates}

pub KeepsPods-Creates : (R : Pod → Type 0) (c : Call) → KeepsPods c → Creates R c
KeepsPods-Creates R (get_service _) h = tt
KeepsPods-Creates R (get_pod _) h = tt
KeepsPods-Creates R (get_endpoints _) h = tt
KeepsPods-Creates R (get_secret _) h = tt
KeepsPods-Creates R (get_volume_claim _) h = tt
KeepsPods-Creates R (create_pod _) h = absurd h
KeepsPods-Creates R (create_endpoints _) h = tt
KeepsPods-Creates R (create_volume_claim _) h = tt
KeepsPods-Creates R (update_endpoints _) h = tt
KeepsPods-Creates R (delete_pod _) h = absurd h

pub Creates-mono :
    (R S : Pod → Type 0) → ((p : Pod) → R p → S p) → (c : Call) → Creates R c → Creates S c
Creates-mono R S f (get_service _) h = tt
Creates-mono R S f (get_pod _) h = tt
Creates-mono R S f (get_endpoints _) h = tt
Creates-mono R S f (get_secret _) h = tt
Creates-mono R S f (get_volume_claim _) h = tt
Creates-mono R S f (create_pod p) h = f p h
Creates-mono R S f (create_endpoints _) h = tt
Creates-mono R S f (create_volume_claim _) h = tt
Creates-mono R S f (update_endpoints _) h = tt
Creates-mono R S f (delete_pod _) h = tt
