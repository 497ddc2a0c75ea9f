-- ===== src/Ingress/Build.antt =====
-- internal/controller/ingress_proxy_controller.go: the pod that forwards from the Netmaker network
-- to a service.
use netmaker_k8s_ops.Base.{
  String, ◌<>◌, ◌==◌, ◌||◌, some, List, [], ◌∷◌, map, Env, index, decimal, if◌then◌else◌,
}
use netmaker_k8s_ops.Kube.{ContainerPort, Container, EnvVar, Probe, ServicePort, Pod, Service}
use netmaker_k8s_ops.Kube.Client.{Prog, ret, ◌>>=◌}
use netmaker_k8s_ops.Egress.Token.{literal}
use netmaker_k8s_ops.Egress.Build.{resources, owner_of, netclient_volumes, netclient_container}
use netmaker_k8s_ops.Ingress.Token.{
  get_env_or_default_ingress, get_netclient_token, build_netclient_env_vars,
}
use netmaker_k8s_ops.Ingress.Script.{detect_script}

-- `(bindIP, dnsName)`
unfoldable pub get_ingress_config : Service → String × String
get_ingress_config service = (
  index service.annotations "netmaker.io/ingress-bind-ip",
  index service.annotations "netmaker.io/ingress-dns-name",
)

-- The cluster address of the service, or its DNS name where it is headless.
unfoldable pub service_address : Service → String
service_address service =
    if service.cluster_ip == "" || service.cluster_ip == "None"
    then service.name <> ("." <> (service.namespace <> ".svc.cluster.local"))
    else service.cluster_ip

unfoldable pub bind_lines : String → String
bind_lines bind_ip =
    if bind_ip == ""
    then detect_script
    else "WG_IP=" <> (bind_ip <> "\necho \"Using configured bind IP: $WG_IP\"\n")

unfoldable pub socat_line : String → ServicePort → String
socat_line address port =
    let number = decimal port.port in
    "echo \"Starting socat proxy: $WG_IP:"
    <> (number
        <> (" -> "
            <> (address
                <> (":"
                    <> (number
                        <> ("\"\nsocat TCP-LISTEN:"
                            <> (number
                                <> (",bind=$WG_IP,fork,reuseaddr TCP:"
                                    <> (address <> (":" <> (number <> " &\n")))))))))))

-- The loop, over the text so far.
unfoldable pub socat_lines : String → String → List ServicePort → String
socat_lines address cmds [] = cmds
socat_lines address cmds (port ∷ ports) =
    socat_lines address (cmds <> socat_line address port) ports

unfoldable pub build_ingress_socat_command : Service → String → List String
unfolding socat_lines socat_line bind_lines service_address
build_ingress_socat_command service bind_ip =
    "/bin/sh"
    ∷ "-c"
    ∷ (socat_lines (service_address service) (bind_lines bind_ip) service.ports <> "wait\n")
    ∷ []

unfoldable pub build_ingress_proxy_ports : List ServicePort → List ContainerPort
build_ingress_proxy_ports =
    map λ port. record { name = port.name; container_port = port.port; protocol = port.protocol }

abbrev pub address_probe : Probe
address_probe = record {
  command =
      "/bin/sh" ∷ "-c"
      ∷ "ip addr show | grep -E 'inet.*(10\\.|172\\.(1[6-9]|2[0-9]|3[01])\\.|192\\.168\\.)' | grep -v '127.0.0.1' || exit 1"
      ∷ [];
  initial_delay_seconds = 10;
  period_seconds = 5;
  timeout_seconds = 2;
  failure_threshold = 3;
}

abbrev pub proxy_container : String → Service → String → Container
proxy_container image service bind_ip = record {
  name = "proxy";
  image = image;
  command = build_ingress_socat_command service bind_ip;
  ports = build_ingress_proxy_ports service.ports;
  env = literal "SERVICE_NAME" service.name ∷ literal "SERVICE_NAMESPACE" service.namespace ∷ [];
  volume_mounts = [];
  capabilities = [];
  resources = resources "50m" "32Mi" "10m" "16Mi";
  readiness_probe = some address_probe;
}

module _ (env : Env) where
  -- The object of `buildProxyPod`, given the environment of its netclient container.
  unfoldable pub proxy_pod : Service → String → List EnvVar → Pod
  proxy_pod service pod_name env_vars = record {
    name = pod_name;
    namespace = service.namespace;
    uid = "";
    labels = some (
        ("app", "netmaker-ingress-proxy")
        ∷ ("service-name", service.name)
        ∷ ("managed-by", "netmaker-k8s-ops")
        ∷ ("netmaker.io/ingress", "enabled")
        ∷ []);
    annotations = some (("netmaker.io/ingress-dns-name", (get_ingress_config service).1) ∷ []);
    owner_references = owner_of service ∷ [];
    spec = record {
      containers =
          netclient_container
            (get_env_or_default_ingress env "NETCLIENT_IMAGE" "gravitl/netclient:v1.4.0") env_vars
          ∷ proxy_container
              (get_env_or_default_ingress env "INGRESS_PROXY_IMAGE" "alpine/socat:latest") service
              (get_ingress_config service).0
          ∷ [];
      volumes = netclient_volumes;
      untouched = "";
    };
    phase = "";
    pod_ip = "";
  }

  unfoldable pub build_proxy_pod : Service → String → Prog Pod
  build_proxy_pod service pod_name = do
    token ← get_netclient_token env service
    env_vars ← build_netclient_env_vars env service token
    ret (proxy_pod service pod_name env_vars)
