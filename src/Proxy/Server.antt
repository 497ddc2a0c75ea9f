-- ===== src/Proxy/Server.antt =====
-- internal/proxy/proxy.go, internal/proxy/api.go and conf/conf.go: what the two servers are started with,
-- and the routes of the API server. Reading the configuration of the cluster and parsing its address
-- are parameters.
use netmaker_k8s_ops.Base.{
  ℕ, String, ◌<>◌, ◌==◌, Bool, not, ◌&&◌, Option, none, some, List, [], ◌∷◌, Env, if◌then◌else◌,
  Dict, ℤ, pos, seconds,
}
use netmaker_k8s_ops.Proxy.Users.{ExternalApiConfig}
use netmaker_k8s_ops.Proxy.Config.{ProxyConfig, get_proxy_config, get_nm_api_config}
use netmaker_k8s_ops.Proxy.Auth.{RestConfig}
use netmaker_k8s_ops.Proxy.Interfaces.{Interface, proxy_address, api_address}

unfoldable pub in_cluster_cfg : Env → Bool
in_cluster_cfg env = env "IN_CLUSTER" == "true"

-- `rest.Config`: the address of the API server and the credentials.
pub record ClusterConfig : Type 0 where
  pub host : String
  pub credentials : RestConfig

abbrev pub kubeconfig_path : Env → String
kubeconfig_path env =
    if env "KUBECONFIG" == "" then env "HOME" <> "/.kube/config" else env "KUBECONFIG"

-- The timeouts of `http.Server`, in nanoseconds. A response is cut off when the time to write it is up.
pub record Timeouts : Type 0 where
  pub read_timeout : ℤ
  pub write_timeout : ℤ
  pub idle_timeout : ℤ

-- Both servers have the same.
abbrev pub server_timeouts : Timeouts
server_timeouts = record {
  read_timeout = seconds (pos 30);
  write_timeout = seconds (pos 30);
  idle_timeout = seconds (pos 120);
}

-- What a server is started with. `skip_tls_verify` is of its connection to the API server of the
-- cluster, and `target` the address of that one.
pub record ProxyServer : Type 0 where
  pub proxy_config : ProxyConfig
  pub api_config : ExternalApiConfig
  pub credentials : RestConfig
  pub target : String
  pub skip_tls_verify : Bool
  pub release_mode : Bool
  pub address : String
  pub timeouts : Timeouts

-- Either the program exits with status 1 and this message in its log, or the server is started.
pub data Start : Type 0 where
  exited : String → Start
  serving : ProxyServer → Start

-- `in_cluster` is what the library reads from inside the cluster, `from_file` what it reads from a
-- file, and `parse` how it reads an address. `scans` is what the search for an address sees.
module _ (in_cluster : Option ClusterConfig) (from_file : String → Option ClusterConfig)
    (parse : String → Option String) (env : Env) (scans : ℕ → Option (List Interface)) where
  unfoldable pub cluster_config : Option ClusterConfig
  unfolding in_cluster_cfg
  cluster_config = if in_cluster_cfg env then in_cluster else from_file (kubeconfig_path env)

  unfoldable pub proxy_server : ClusterConfig → String → ProxyServer
  proxy_server config target = record {
    proxy_config = get_proxy_config env;
    api_config = get_nm_api_config env;
    credentials = config.credentials;
    target = target;
    skip_tls_verify = not (env "PROXY_SKIP_TLS_VERIFY" == "false");
    release_mode = env "GIN_MODE" == "release";
    address = proxy_address env scans;
    timeouts = server_timeouts;
  }

  abbrev pub on_target : ClusterConfig → Option String → Start
  on_target config none = exited "Failed to parse API server URL"
  on_target config (some target) = serving (proxy_server config target)

  abbrev pub on_config : Option ClusterConfig → Start
  on_config none = exited "Failed to get cluster config"
  on_config (some config) = on_target config (parse config.host)

  unfoldable pub start_k8s_proxy : Start
  unfolding cluster_config proxy_server
  start_k8s_proxy = on_config cluster_config

-- The routes of the API server: what is answered with status 200, `none` where the router answers.
unfoldable pub api_reply : String → String → Option (Dict String)
api_reply method path =
    if method == "GET" && path == "/health"
    then some (("status", "healthy") ∷ ("api", "netmaker-k8s-api") ∷ [])
    else if method == "GET" && path == "/ready"
    then some (("status", "ready") ∷ ("api", "netmaker-k8s-api") ∷ [])
    else none

pub record ApiServer : Type 0 where
  pub release_mode : Bool
  pub address : String
  pub timeouts : Timeouts

unfoldable pub start_api_server : Env → (ℕ → Option (List Interface)) → ApiServer
start_api_server env scans = record {
  release_mode = env "GIN_MODE" == "release";
  address = api_address env scans;
  timeouts = server_timeouts;
}
