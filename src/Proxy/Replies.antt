-- ===== src/Proxy/Replies.antt =====
-- The theorems on what a caller is answered, and on the configuration, at requests of a small network.
use netmaker_k8s_ops.Base.{
  ap, String, ◌==◌, ◌≡◌, refl, false, none, some, [], ◌∷◌, lookup, insert, if◌then◌else◌, Env,
  trim_space, join_comma, map, lowers_to,
}
use netmaker_k8s_ops.Proxy.Users.{UserIpMap, set_user_mapping, get_user_mapping, Decoded, mappings}
use netmaker_k8s_ops.Proxy.Lifetime.{
  Life, Reach, birth, later, fetch, write, serve, AllProvided, Reach-AllProvided,
}
use netmaker_k8s_ops.Proxy.Config.{get_proxy_config, ProxyConfig}
use netmaker_k8s_ops.Proxy.Auth.{Headers, auth_middleware, identity}
use netmaker_k8s_ops.Proxy.Credentials.{expected_authorization}
use netmaker_k8s_ops.Proxy.Routes.{Request, replied, preflight, serve_request}
use netmaker_k8s_ops.Proxy.Identified.{bearer_sent}
use netmaker_k8s_ops.Proxy.Groups.{get_proxy_config-groups}
use netmaker_k8s_ops.Proxy.Netclient.{check_netclient_container, is_wire_guard}
use netmaker_k8s_ops.Proxy.Answers.{HasCors, IsFrom, serve_request-HasCors, sent-Authorized}
use netmaker_k8s_ops.Proxy.Exchanges.{
  outside, sent_on, sent_on-IsReverseProxy, rest, users, own, is_routed, alice,
}

abbrev empty_env : Env
empty_env _ = ""

abbrev options : Request
options = record own { method = "OPTIONS"; path = "/api/v1/pods" }

options_reply :
    (serve_request outside rest (get_proxy_config empty_env) users options).1 ≡ replied preflight
unfolding serve_request auth_middleware get_proxy_config lowers_to
options_reply = refl

serve_request-HasCors_example :
    HasCors preflight.headers
    × IsFrom outside options
        (serve_request outside rest (get_proxy_config empty_env) users options).0
        preflight
serve_request-HasCors_example =
    serve_request-HasCors outside rest empty_env users options preflight options_reply

by_default :
    (after : Headers) × (serve_request outside rest (get_proxy_config empty_env) users own).0
      ≡ some (record own { headers = sent_on after })
unfolding get_proxy_config lowers_to
by_default =
    let (after, _, _, goes_on) =
      bearer_sent outside sent_on-IsReverseProxy rest (get_proxy_config empty_env) users own refl
        refl is_routed refl in
    (after, goes_on)

sent-Authorized_example :
    lookup "Authorization" (sent_on by_default.0)
    ≡ expected_authorization outside.basic_auth rest own.headers
unfolding lookup
sent-Authorized_example =
    sent-Authorized outside rest empty_env users own sent_on-IsReverseProxy refl by_default.1

abbrev groups_env : Env
groups_env name = if name == "PROXY_IMPERSONATE_GROUPS" then "operators, dev" else ""

get_proxy_config-groups_example :
    (identity (get_proxy_config groups_env) [] "100.64.0.9").1
    ≡ map trim_space ("operators" ∷ " dev" ∷ [])
unfolding join_comma get_proxy_config lowers_to lookup
get_proxy_config-groups_example =
    get_proxy_config-groups groups_env "operators" (" dev" ∷ []) [] "100.64.0.9" (refl, (refl, tt))
      refl (λ e. cc (ap (λ (s : String). s == "") e)) refl refl

two_groups : map trim_space ("operators" ∷ " dev" ∷ []) ≡ "operators" ∷ "dev" ∷ []
unfolding trim_space
two_groups = refl

-- An interface with a name of one letter.
check_panics : check_netclient_container (λ path. false) (some ("lo" ∷ "a" ∷ [])) ≡ none
unfolding check_netclient_container is_wire_guard
check_panics = refl

abbrev mapped : UserIpMap
mapped = ("100.64.0.2", alice) ∷ []

abbrev reads : String → Decoded
reads body = mappings mapped

abbrev defaults : ProxyConfig
defaults = record { mode = "auth"; impersonate_user = "wireguard-peer"; impersonate_groups = [] }

-- One request comes before the mapping is written, and one after it.
abbrev two_served : Life
two_served = record {
  users = mapped;
  pending = [];
  answered = mapped ∷ [];
  seen = ("100.64.0.2", (alice.user, alice.groups)) ∷ ("100.64.0.2", ("wireguard-peer", [])) ∷ [];
}

serves_two : Reach reads defaults two_served
unfolding lookup identity get_user_mapping set_user_mapping insert
serves_two =
    later
      (later
        (later (later birth (fetch "" mapped mapped refl refl (λ ip v. (λ h. h, λ h. h))))
          (serve "100.64.0.2"))
        (write "100.64.0.2" alice [] refl))
      (serve "100.64.0.2")

Reach-AllProvided_example : AllProvided reads defaults two_served.answered two_served.seen
Reach-AllProvided_example = Reach-AllProvided reads defaults serves_two
