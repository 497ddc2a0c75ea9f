-- ===== src/Process/Operator.antt =====
-- cmd/main.go, internal/proxy/proxy.go and internal/proxy/api.go: what the goroutines of the operator do
-- before they serve, in an environment.
use netmaker_k8s_ops.Base.{
  ℕ, String, ◌==◌, not, Option, List, [], ◌∷◌, map, Env, seconds, pos, if◌then◌else◌,
}
use netmaker_k8s_ops.Proxy.Config.{get_nm_api_config}
use netmaker_k8s_ops.Proxy.Interfaces.{Interface, get_wire_guard_interface_ip}
use netmaker_k8s_ops.Proxy.Server.{ClusterConfig, Start, exited, serving, start_k8s_proxy}
use netmaker_k8s_ops.Setup.{Goroutine, api_server, k8s_proxy, manager}
use netmaker_k8s_ops.Process.State.{Stage, sleep, go_sync, exit, Program}

-- Each server searches for itself, at its own time: `scans g` is what the attempts of `g` see.
module _ (env : Env) (scans : Goroutine → ℕ → Option (List Interface)) where
  -- The waits of the search for the address to listen on.
  unfoldable pub bind_stages : Goroutine → String → List Stage
  bind_stages g ip_variable =
      if env ip_variable == "" then map sleep (get_wire_guard_interface_ip env (scans g)).1 else []

  abbrev pub configured_stages : Start → List Stage
  configured_stages (exited message) = exit ∷ []
  configured_stages (serving server) = bind_stages k8s_proxy "PROXY_BIND_IP"

  -- `configured` is what reading the configuration of the cluster gives.
  abbrev pub stages_of : Start → Goroutine → List Stage
  stages_of configured api_server = bind_stages api_server "API_BIND_IP"
  stages_of configured k8s_proxy = go_sync ∷ sleep (seconds (pos 5)) ∷ configured_stages configured
  stages_of configured manager = []

  unfoldable pub program :
      Option ClusterConfig → (String → Option ClusterConfig) → (String → Option String) → Program
  unfolding bind_stages
  program in_cluster from_file parse = record {
    proxy_enabled = not (env "PROXY_MODE" == "");
    stages = stages_of (start_k8s_proxy in_cluster from_file parse env (scans k8s_proxy));
    api_config = get_nm_api_config env;
  }
