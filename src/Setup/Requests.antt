-- ===== src/Setup/Requests.antt =====
-- On cmd/main.go and internal/proxy/proxy.go.
-- From the set-up to a request: what the API server is sent by the proxy that `main` started.
use netmaker_k8s_ops.Base.{
  ℕ, String, ◌==◌, ◌≡◌, ◌∙◌, ap, Bool, if◌then◌else◌, true, false, Option, none, some, List, Env,
  lookup,
}
use netmaker_k8s_ops.Proxy.Users.{UserIpMap, HttpAnswer}
use netmaker_k8s_ops.Proxy.Config.{get_proxy_config, no_auth_mode, proxy_mode}
use netmaker_k8s_ops.Proxy.Credentials.{IsOwn}
use netmaker_k8s_ops.Proxy.Defaults.{mode_of}
use netmaker_k8s_ops.Proxy.Interfaces.{Interface}
use netmaker_k8s_ops.Proxy.Routes.{Request, Outside}
use netmaker_k8s_ops.Proxy.Onward.{IsReverseProxy, is_listed, is_its_own}
use netmaker_k8s_ops.Proxy.Identified.{sent, sent-lookup}
use netmaker_k8s_ops.Proxy.Server.{
  ClusterConfig, ProxyServer, Start, serving, on_target, on_config, cluster_config, proxy_server,
  start_k8s_proxy,
}
use netmaker_k8s_ops.Proxy.Startup.{
  StatusBody, is_pro, check_server_pro_status, check_proxy_mode, started_mode, start,
  started_mode_auth,
}

module _ (in_cluster : Option ClusterConfig) (from_file : String → Option ClusterConfig)
    (parse : String → Option String) (env : Env) (scans : ℕ → Option (List Interface)) where
  abbrev StartsWith : Start → Type 0
  StartsWith started =
      (server : ProxyServer) → started ≡ serving server → server.proxy_config ≡ get_proxy_config env

  target-StartsWith :
      (config : ClusterConfig) (target : Option String)
      → StartsWith (on_target in_cluster from_file parse env scans config target)
  unfolding proxy_server
  target-StartsWith config none server e = cc e
  target-StartsWith config (some target) server e = cc e

  config-StartsWith :
      (config : Option ClusterConfig)
      → StartsWith (on_config in_cluster from_file parse env scans config)
  config-StartsWith none server e = cc e
  config-StartsWith (some config) server e = target-StartsWith config (parse config.host) server e

  pub start_k8s_proxy-StartsWith : StartsWith (start_k8s_proxy in_cluster from_file parse env scans)
  unfolding start_k8s_proxy
  start_k8s_proxy-StartsWith =
      config-StartsWith (cluster_config in_cluster from_file parse env scans)

start_mode :
    (env : Env) (mode : String) → start env ≡ some mode → (get_proxy_config env).mode ≡ mode
unfolding start
start_mode env mode e = mode_of env ∙ started (env "PROXY_MODE" == "") e
  where
    started :
        (unset : Bool)
        → (if unset then none else some (proxy_mode env)) ≡ some mode
        → proxy_mode env ≡ mode
    started true h = cc h
    started false h = cc h

module _ (decode : String → StatusBody) (ask : String → HttpAnswer)
    (in_cluster : Option ClusterConfig) (from_file : String → Option ClusterConfig)
    (parse : String → Option String) (env : Env) (scans : ℕ → Option (List Interface))
    (server : ProxyServer) (outside : Outside) (proxied : IsReverseProxy outside)
    (users : UserIpMap) (request : Request) where
  -- The proxy is served with this configuration, in the environment that the check leaves.
  abbrev pub IsServed : Type 0
  IsServed =
      start_k8s_proxy in_cluster from_file parse (check_proxy_mode decode ask env) scans
      ≡ serving server

  -- What the API server is sent by this proxy.
  abbrev pub sent_by_server : Option Request
  sent_by_server = sent outside proxied server.credentials server.proxy_config users request

  served_mode :
      (mode : String)
      → started_mode decode ask env ≡ some mode
      → IsServed
      → server.proxy_config.mode ≡ mode
  unfolding started_mode
  served_mode mode started served =
      ap (λ c. c.mode)
        (start_k8s_proxy-StartsWith in_cluster from_file parse (check_proxy_mode decode ask env)
          scans server served)
      ∙ start_mode (check_proxy_mode decode ask env) mode started

  -- With PROXY_MODE "auth" and a server that is not a pro server, and a reverse proxy as `IsReverseProxy` describes
  -- it: the proxy that is then served sends the caller's own headers on, those that ask to
  -- impersonate among them: all but authorization, agent, those that the caller's header Connection lists, and
  -- those that the reverse proxy sets.
  pub served-lookup :
      {onward : Request} (name : String)
      → env "PROXY_MODE" ≡ "auth"
      → check_server_pro_status decode ask env ≡ is_pro false
      → IsServed
      → sent_by_server ≡ some onward
      → IsOwn name
      → is_its_own name ≡ false
      → is_listed outside name request.headers ≡ false
      → lookup name onward.headers ≡ lookup name request.headers
  served-lookup name auth not_pro served e own other unlisted =
      let started = started_mode_auth decode ask env auth in
      let mode = served_mode no_auth_mode (rw not_pro at started) served in
      sent-lookup outside proxied server.credentials server.proxy_config users request name mode e
        own other unlisted
