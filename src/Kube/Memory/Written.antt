-- ===== src/Kube/Memory/Written.antt =====
-- The server in memory keeps the endpoints that are written.
use netmaker_k8s_ops.Base.{◌≡◌, some, List, ◌∷◌, arith, eq_iff}
use netmaker_k8s_ops.Kube.{Endpoints}
use netmaker_k8s_ops.Kube.Cluster.{EndpointsMap, key_of_endpoints}
use netmaker_k8s_ops.Kube.Memory.{memory, find_at}

pub head-found :
    (e : Endpoints) (rest : List Endpoints)
    → find_at (λ x. x.name) (λ x. x.namespace) (key_of_endpoints e) (e ∷ rest) ≡ some e
head-found e rest = ground (arith, eq_iff e.name e.name, eq_iff e.namespace e.namespace)

abbrev pub memory_endpoints : EndpointsMap memory
memory_endpoints = record {
  endpoints = λ s k. find_at (λ x. x.name) (λ x. x.namespace) k s.endpoints;
  created_endpoints = λ e s _. head-found e _;
  updated_endpoints = λ e s _. head-found e _;
}
