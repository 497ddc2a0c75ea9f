-- ===== src/Egress/Lines.antt =====
-- On `buildSocatCommand` of internal/controller/egress_proxy_controller.go.
-- The lines of the target in the script of the pod's proxy.
use netmaker_k8s_ops.Base.{
  String, ◌≡◌, ◌≢◌, refl, List, [], ◌∷◌, HasLine, HasLine-left, HasLine-right, ◌<>◌, decimal,
}
use netmaker_k8s_ops.Kube.{ServicePort}
use netmaker_k8s_ops.Egress.Build.{
  target_address, listen_port, netmaker_port, socat_line, socat_lines, build_socat_command,
}

line-HasLine :
    (command address : String) (port : ServicePort)
    → HasLine command address
    → HasLine command (socat_line address port)
unfolding socat_line listen_port netmaker_port
line-HasLine command address port h = HasLine-left command "socat TCP-LISTEN:" _ (
    HasLine-left command (decimal (listen_port port)) _
      (HasLine-left command ",fork,reuseaddr TCP:" _ (HasLine-right command address _ h)))

-- What the script has is still in it at the end of the loop.
lines_keep :
    (command address cmds : String) (ports : List ServicePort)
    → HasLine command cmds
    → HasLine command (socat_lines address cmds ports)
unfolding socat_lines
lines_keep command address cmds [] h = h
lines_keep command address cmds (port ∷ ports) h =
    lines_keep command address (cmds <> socat_line address port) ports
      (HasLine-right command cmds (socat_line address port) h)

lines-HasLine :
    (command address cmds : String) (ports : List ServicePort)
    → HasLine command address
    → ports ≢ []
    → HasLine command (socat_lines address cmds ports)
unfolding socat_lines
lines-HasLine command address cmds [] h some_port = absurd (some_port refl)
lines-HasLine command address cmds (port ∷ ports) h some_port =
    lines_keep command address (cmds <> socat_line address port) ports
      (HasLine-left command cmds _ (line-HasLine command address port h))

pub command-HasLine :
    (command ip dns : String) (ports : List ServicePort)
    → HasLine command (target_address ip dns)
    → ports ≢ []
    → (script : String) × (build_socat_command ip dns ports ≡ "/bin/sh" ∷ "-c" ∷ script ∷ [])
      × HasLine command script
unfolding build_socat_command
command-HasLine command ip dns ports h some_port = (
  _,
  refl,
  HasLine-right command _ "wait\n"
      (lines-HasLine command (target_address ip dns) "" ports h some_port),
)
