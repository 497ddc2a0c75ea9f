-- ===== src/Egress/Ports.antt =====
-- On internal/controller/egress_proxy_controller.go.
-- The ports of the forwarding pod: what socat listens on, what the container declares, and what
-- the endpoints name.
use netmaker_k8s_ops.Base.{◌≡◌, refl, ◌↔◌, ◌⊎◌, List, [], ◌∷◌, map, All, arith}
use netmaker_k8s_ops.Kube.{ServicePort, ContainerPort, EndpointPort}
use netmaker_k8s_ops.Egress.{endpoint_ports}
use netmaker_k8s_ops.Egress.Build.{listen_port, netmaker_port, build_proxy_ports}

-- socat listens on the ports that the container declares, in order, and forwards each to the
-- same port of the target.
pub listen_ports-eq-container_ports :
    (ports : List ServicePort)
    → (map listen_port ports
        ≡ map (λ (p : ContainerPort). p.container_port) (build_proxy_ports ports))
      × (map netmaker_port ports ≡ map listen_port ports)
unfolding listen_port netmaker_port build_proxy_ports
listen_ports-eq-container_ports [] = (refl, refl)
listen_ports-eq-container_ports (p ∷ ports) =
    let (h, g) = listen_ports-eq-container_ports ports in (ground arith, ground arith)

-- The port that the service forwards to is the service's own.
abbrev pub SamePort : ServicePort → Type 0
SamePort p = (p.target_port.int_val ≡ 0) ⊎ (p.target_port.int_val ≡ p.port)

-- The ports that the endpoints name are those that socat listens on exactly when every port of
-- the service has no numeric target port, or one equal to its port.
pub endpoint_ports-eq-listen_ports_iff :
    (ports : List ServicePort)
    → (map (λ (e : EndpointPort). e.port) (endpoint_ports ports) ≡ map listen_port ports)
      ↔ All SamePort ports
unfolding listen_port endpoint_ports
endpoint_ports-eq-listen_ports_iff [] = (λ _. tt, λ _. refl)
endpoint_ports-eq-listen_ports_iff (p ∷ ports) =
    let (to, from) = endpoint_ports-eq-listen_ports_iff ports in
    (λ e. (ground arith, to (ground arith)), λ (h, hs). ground (arith, from hs))
