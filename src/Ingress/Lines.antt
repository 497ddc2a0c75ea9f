-- ===== src/Ingress/Lines.antt =====
-- On `buildIngressSocatCommand` of internal/controller/ingress_proxy_controller.go.
-- The lines of the bind address in the script of the pod's proxy.
use netmaker_k8s_ops.Base.{
  String, ◌≡◌, refl, sym, subst, List, [], ◌∷◌, HasLine, HasLine-left, HasLine-right,
  HasLine-ne-empty, ◌<>◌, ◌==◌, false, eq_iff, arith, if◌then◌else◌,
}
use netmaker_k8s_ops.Kube.{ServicePort, Service}
use netmaker_k8s_ops.Ingress.Script.{detect_script}
use netmaker_k8s_ops.Ingress.Build.{
  bind_lines, service_address, socat_line, socat_lines, build_ingress_socat_command,
}

bind-HasLine :
    (command bind_ip : String) → HasLine command bind_ip → HasLine command (bind_lines bind_ip)
unfolding bind_lines
bind-HasLine command bind_ip h =
    let told : String = "\necho \"Using configured bind IP: $WG_IP\"\n" in
    let configured =
      HasLine-left command "WG_IP=" (bind_ip <> told) (HasLine-right command bind_ip told h) in
    let given : (bind_ip == "") ≡ false =
      ground (arith, eq_iff bind_ip "", HasLine-ne-empty command bind_ip h) in
    subst (λ b. HasLine command (if b then detect_script else "WG_IP=" <> (bind_ip <> told)))
      (sym given) configured

lines_keep :
    (command address cmds : String) (ports : List ServicePort)
    → HasLine command cmds
    → HasLine command (socat_lines address cmds ports)
unfolding socat_lines
lines_keep command address cmds [] h = h
lines_keep command address cmds (port ∷ ports) h =
    lines_keep command address (cmds <> socat_line address port) ports
      (HasLine-right command cmds (socat_line address port) h)

pub command-HasLine :
    (command bind_ip : String) (service : Service)
    → HasLine command bind_ip
    → (script : String) × (build_ingress_socat_command service bind_ip
        ≡ "/bin/sh" ∷ "-c" ∷ script ∷ [])
      × HasLine command script
unfolding build_ingress_socat_command
command-HasLine command bind_ip service h = (
  _,
  refl,
  HasLine-right command _ "wait\n" (
      lines_keep command (service_address service) (bind_lines bind_ip) service.ports
        (bind-HasLine command bind_ip h)),
)
