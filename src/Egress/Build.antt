-- ===== src/Egress/Build.antt =====
-- internal/controller/egress_proxy_controller.go: the pod that forwards the ports of a service.
use netmaker_k8s_ops.Base.{
  ℕ, String, ◌<>◌, ◌==◌, none, some, List, [], ◌∷◌, map, Env, decimal, nat_eq, if◌then◌else◌,
}
use netmaker_k8s_ops.Kube.{
  ContainerPort, Container, EnvVar, ServicePort, Resources, VolumeMount, Volume, empty_dir, Pod,
  Service, OwnerReference,
}
use netmaker_k8s_ops.Kube.Client.{Prog, ret, ◌>>=◌}
use netmaker_k8s_ops.Egress.Token.{
  get_env_or_default, get_netclient_token, build_netclient_env_vars,
}

-- The address that socat forwards to.
abbrev pub target_address : String → String → String
target_address target_ip target_dns = if target_dns == "" then target_ip else target_dns

-- `listenPort` and `netmakerPort` of one round of the loop in `buildSocatCommand`.
unfoldable pub listen_port : ServicePort → ℕ
listen_port port =
    if nat_eq port.target_port.int_val 0
    then if port.target_port.str_val == "" then port.port else port.port
    else port.target_port.int_val

unfoldable pub netmaker_port : ServicePort → ℕ
netmaker_port port =
    if nat_eq port.target_port.int_val 0
    then if port.target_port.str_val == "" then port.port else port.port
    else port.target_port.int_val

unfoldable pub socat_line : String → ServicePort → String
socat_line address port =
    "socat TCP-LISTEN:"
    <> (decimal (listen_port port)
        <> (",fork,reuseaddr TCP:"
            <> (address <> (":" <> (decimal (netmaker_port port) <> " &\n")))))

-- The loop, over the text so far.
unfoldable pub socat_lines : String → String → List ServicePort → String
socat_lines address cmds [] = cmds
socat_lines address cmds (port ∷ ports) =
    socat_lines address (cmds <> socat_line address port) ports

unfoldable pub build_socat_command : String → String → List ServicePort → List String
unfolding socat_lines socat_line listen_port netmaker_port
build_socat_command target_ip target_dns ports =
    "/bin/sh" ∷ "-c" ∷ (socat_lines (target_address target_ip target_dns) "" ports <> "wait\n") ∷ []

unfoldable pub container_port : ServicePort → ℕ
container_port port =
    if nat_eq port.target_port.int_val 0 then port.port else port.target_port.int_val

unfoldable pub build_proxy_ports : List ServicePort → List ContainerPort
unfolding container_port
build_proxy_ports = map λ port. record {
  name = port.name;
  container_port = container_port port;
  protocol = port.protocol;
}

abbrev pub resources : String → String → String → String → Resources
resources limit_cpu limit_memory cpu memory = record {
  limits = ("cpu", limit_cpu) ∷ ("memory", limit_memory) ∷ [];
  requests = ("cpu", cpu) ∷ ("memory", memory) ∷ [];
}

abbrev pub owner_of : Service → OwnerReference
owner_of service = record {
  api_version = "v1";
  kind = "Service";
  name = service.name;
  uid = service.uid;
}

abbrev pub netclient_volumes : List Volume
netclient_volumes =
    record { name = "etc-netclient"; source = empty_dir "" }
    ∷ record { name = "log-netclient"; source = empty_dir "Memory" }
    ∷ []

abbrev pub netclient_mounts : List VolumeMount
netclient_mounts =
    record { name = "etc-netclient"; mount_path = "/etc/netclient" }
    ∷ record { name = "log-netclient"; mount_path = "/var/log" }
    ∷ []

-- The netclient container of a proxy pod.
abbrev pub netclient_container : String → List EnvVar → Container
netclient_container image env_vars = record {
  name = "netclient";
  image = image;
  command = [];
  ports = [];
  env = env_vars;
  volume_mounts = netclient_mounts;
  capabilities = "NET_ADMIN" ∷ "SYS_MODULE" ∷ [];
  resources = resources "200m" "128Mi" "50m" "64Mi";
  readiness_probe = none;
}

abbrev pub proxy_container : String → Service → String → String → Container
proxy_container image service target_ip target_dns = record {
  name = "proxy";
  image = image;
  command = build_socat_command target_ip target_dns service.ports;
  ports = build_proxy_ports service.ports;
  env = [];
  volume_mounts = [];
  capabilities = [];
  resources = resources "50m" "32Mi" "10m" "16Mi";
  readiness_probe = none;
}

module _ (env : Env) where
  -- The object of `buildProxyPod`, given the environment of its netclient container.
  unfoldable pub proxy_pod : Service → String → String → String → List EnvVar → Pod
  proxy_pod service pod_name target_ip target_dns env_vars = record {
    name = pod_name;
    namespace = service.namespace;
    uid = "";
    labels = some (
        ("app", "netmaker-egress-proxy")
        ∷ ("service-name", service.name)
        ∷ ("managed-by", "netmaker-k8s-ops")
        ∷ ("netmaker.io/egress", "enabled")
        ∷ []);
    annotations = none;
    owner_references = owner_of service ∷ [];
    spec = record {
      containers =
          netclient_container (get_env_or_default env "NETCLIENT_IMAGE" "gravitl/netclient:v1.4.0")
            env_vars
          ∷ proxy_container (get_env_or_default env "EGRESS_PROXY_IMAGE" "alpine/socat:latest")
              service target_ip target_dns
          ∷ [];
      volumes = netclient_volumes;
      untouched = "";
    };
    phase = "";
    pod_ip = "";
  }

  unfoldable pub build_proxy_pod : Service → String → String → String → Prog Pod
  build_proxy_pod service pod_name target_ip target_dns = do
    token ← get_netclient_token env service
    env_vars ← build_netclient_env_vars env service token
    ret (proxy_pod service pod_name target_ip target_dns env_vars)
