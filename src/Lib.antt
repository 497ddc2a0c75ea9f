-- ===== src/Lib.antt =====
-- netmaker-k8s-ops: an operator that connects Kubernetes workloads to a Netmaker (WireGuard)
-- network. Its parts, and the files that model them:
--
-- The egress controller (internal/controller/egress_proxy_controller.go) keeps, for each service
-- annotated netmaker.io/egress, a pod that forwards to an address of the network, and endpoints
-- that lead to the pod. Egress.antt has Reconcile (`reconcile`) and ensureProxyPod,
-- updateServiceEndpoints and cleanupProxyPod; Egress/Token.antt the secrets with the netclient
-- token; Egress/Build.antt the pod and the socat command. The code after each answer of the API
-- server is a function of its own by clauses on that answer (`dispatch`, `on_existing`, `publish`).
--
-- The ingress controller (internal/controller/ingress_proxy_controller.go) keeps a pod that
-- forwards from the network to a service. Ingress.antt, Ingress/Token.antt, Ingress/Script.antt
-- (the shell text that finds the address) and Ingress/Build.antt are laid out as for egress.
--
-- The admission webhook (internal/webhook/mutating_webhook.go) adds a netclient container to
-- labelled pods and workloads. Webhook.antt has Handle and the handlers by kind,
-- Webhook/Config.antt labels, annotations and variables, Webhook/Inject.antt the injection with
-- its secret and its volume claim. What the five kinds of workload have in common is
-- `handle_workload`; the message is an argument.
--
-- The proxy (internal/proxy/proxy.go) stands before the Kubernetes API and sends requests under
-- the identity of the peer. Proxy/Users.antt has the map from addresses to users and its
-- synchronisation with the Netmaker API, Proxy/Locking.antt the accesses of both to the map
-- under its mutex, Proxy/Lifetime.antt all fetches and requests of a life of the proxy, where a write and a
-- look-up are one step each,
-- Proxy/Config.antt the configuration, Proxy/Auth.antt the middleware, and
-- Proxy/Startup.antt the choice of the mode at the start (cmd/main.go and
-- CheckServerProStatus). Proxy/Interfaces.antt has the search for the WireGuard interface and the
-- addresses that the servers of internal/proxy/proxy.go and internal/proxy/api.go listen on.
--
-- Proxy/Routes.antt has what a request goes through: the middleware, the routes with their CORS
-- answers, the reverse proxy and the errors of its transport. Proxy/Server.antt has what the two
-- servers are started with (StartK8sProxy, StartAPIServer, and InClusterCfg of conf/conf.go), and
-- Proxy/Netclient.antt checkNetclientContainer.
--
-- Setup.antt has main of cmd/main.go: the flags, the options of the manager, the steps at whose
-- error the program exits, and the goroutines. Controllers.antt has both controllers side by side,
-- with what the annotations of a service ask of each; Controllers/Schedule.antt is a step relation
-- for runs of both with what others do in between, and Controllers/Workers.antt, Concurrent.antt
-- and Overlap.antt beside it have both at work at once: the manager gives each controller a worker, and `race` (Kube/Beside.antt) lets the calls of
-- the two come in any order. The Reconcile of
-- internal/controller/netmakerops_controller.go does nothing.
--
-- Process.antt has the running operator: main after its set-up, both servers, the manager and the
-- synchronisation, as a step function over the events of their libraries and the signals, with the
-- WaitGroup, the context and the channel of signals as state (Process/State.antt). Process/Operator.antt says what the
-- goroutines do before they serve.
--
-- Kube.antt has the objects, with the fields that the program reads or writes. The Kubernetes API
-- server is not part of the program: a handler is a tree of calls (Kube/Client.antt, `Prog`), and
-- `run` and `calls` answer it by a `Client`, which is a parameter and may answer anything. Theorems
-- that need more of it name it: `IsFaithful` (Kube/Calls.antt), an answer names the object that was
-- asked for; `Pods` (Kube/Cluster.antt), calls on pods read and write a map from keys to the pods that
-- are not being deleted, each the pod it names, where a deletion only marks the pod, which can be read
-- until it has terminated; `Services`, reading a service reads a map that no call of the program changes; `EndpointsMap`,
-- endpoints that are written are there.
-- Kube/Memory.antt and Kube/Memory/Graceful.antt are such servers in memory, for the examples. Kube/Reports.antt says which calls
-- of a run failed. Also parameters: the router (with its redirections for a slash at the end of a path) and gin's ClientIP, the headers that
-- httputil.ReverseProxy sends on (`IsReverseProxy` in Proxy/Onward.antt states what it documents), the decoder of
-- admission requests, the quantities that resource.MustParse accepts, the HTTP answers and the JSON
-- decoders, the interfaces that each attempt sees, and the encoding of basic authentication.
--
-- Base.antt has what all share: Go maps as association lists (Base/Map.antt), variables and labels
-- (Base/Config.antt), strings and strconv (Base/Text.antt), int64 (Base/Int64.antt). A nil map is
-- `none`. Numbers of ports are natural numbers. time.Duration is an int64 that wraps around.
-- os.Unsetenv is setting to "", since the program only uses os.Getenv.
--
-- ensureProxyPod and updateProxyPod call each other; `ensure_proxy_pod` bounds that by fuel, and
-- the fuel 1 that Reconcile gives is enough, since the recursion is never taken. All other loops
-- are structural.
--
-- The manager's client reads from a cache; that its reads are up to date is part of `Pods` and
-- `Services`, and theorems without them hold for stale reads too. The status of a pod is what the server
-- answers.
--
-- Not modelled: log lines, certificates, what the timeouts cut off, how long a shutdown takes, the
-- registration of the reconcilers with the manager, the registration of the webhook (commented out in
-- cmd/main.go), and the API types with their generated copying.
pub mod Base
pub mod Kube
pub mod Egress
pub mod Ingress
pub mod Controllers
pub mod Webhook
pub mod Proxy
pub mod Setup
pub mod Process
pub mod Examples
