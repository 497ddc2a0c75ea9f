-- ===== src/Proxy/Exchanges.antt =====
-- The theorems on what the API server is sent, at requests of a small network.
use netmaker_k8s_ops.Base.{
  String, ◌<>◌, ◌==◌, ◌≡◌, ◌≢◌, refl, Bool, true, false, ◌||◌, not, none, some, [], ◌∷◌, lookup,
  if◌then◌else◌, arith, eq_iff, pos, trim_space, split_comma, List, Option,
}
use netmaker_k8s_ops.Proxy.Users.{
  UserMapping, UserIpMap, ExternalApiConfig, answer, Decoded, mappings, get_user_mapping,
}
use netmaker_k8s_ops.Proxy.Config.{ProxyConfig}
use netmaker_k8s_ops.Proxy.Auth.{Headers, RestConfig, get_header, identity}
use netmaker_k8s_ops.Proxy.Identity.{Impersonates}
use netmaker_k8s_ops.Proxy.Routes.{Request, Route, api_path, version, no_route, responded, Outside}
use netmaker_k8s_ops.Proxy.Onward.{IsReverseProxy, is_listed, named_in, is_its_own, ForIdentity}
use netmaker_k8s_ops.Proxy.Identified.{sent, bearer_sent, sent-Impersonates, sent-Unidentified}
use netmaker_k8s_ops.Proxy.Spoofing.{
  TrustsForwarded, IsSentAs, fetched, sent-Forwarded, fetch-IsSentAs,
}

-- A reverse proxy that removes what is listed and what is its own, and sets nothing.
abbrev pub without : (String → Bool) → Headers → Headers
without drops [] = []
without drops ((name, values) ∷ h) =
    let rest = without drops h in if drops name then rest else (name, values) ∷ rest

lookup-without :
    (drops : String → Bool) (name : String) (h : Headers)
    → lookup name (without drops h) ≡ (if drops name then none else lookup name h)
unfolding lookup
lookup-without drops name [] = ground arith
lookup-without drops name ((other, values) ∷ h) =
    ground (arith, lookup-without drops name h, eq_iff other name)

abbrev names : String → List String → Bool
names name [] = false
names name (part ∷ parts) = trim_space part == name || names name parts

-- One way to read the values of the header Connection: lists of names between commas.
abbrev pub named_by : String → List String → Bool
named_by name [] = false
named_by name (value ∷ values) = names name (split_comma value) || named_by name values

abbrev pub named_in_values : String → Option (List String) → Bool
named_in_values name none = false
named_in_values name (some values) = named_by name values

abbrev pub drops : Headers → String → Bool
drops h name = is_its_own name || named_in_values name (lookup "Connection" h)

abbrev pub sent_on : Headers → Headers
sent_on h = without (drops h) h

abbrev pub route_of : String → String → Route
route_of method path =
    if path == "/version" then version else if path == "/api/v1/pods" then api_path else no_route

abbrev pub or_remote : String → String → String
or_remote remote forwarded = if forwarded == "" then remote else forwarded

abbrev pub outside : Outside
outside = record {
  match = route_of;
  redirects = λ _ path. path == "/version/";
  client_ip = λ remote h. or_remote remote (get_header "X-Forwarded-For" h);
  basic_auth = λ user password. "Basic " <> user;
  is_named = named_by;
  sent_on = sent_on;
  upstream = λ request. responded (record { status = 200; headers = []; body = request.path });
}

named_same :
    (name : String) (values : Option (List String))
    → named_in_values name values ≡ named_in outside name values
named_same name none = refl
named_same name (some values) = refl

pub sent_on-IsReverseProxy : IsReverseProxy outside
sent_on-IsReverseProxy = record {
  removes = λ name h other listed.
      rw (lookup-without, other, named_same name (lookup "Connection" h), listed) refl;
  keeps = λ name h other unlisted.
      rw (lookup-without, other, named_same name (lookup "Connection" h), unlisted) refl;
}

trusts_forwarded : TrustsForwarded (λ ip. not (ip == "")) outside.client_ip
trusts_forwarded ip remote h valid forwarded =
    let there : (ip == "") ≡ false = ground arith in rw (forwarded, there) refl

abbrev pub rest : RestConfig
rest = record { bearer_token = "t1"; cert_file = ""; key_file = ""; username = ""; password = "" }

abbrev pub no_credentials : RestConfig
no_credentials = record rest { bearer_token = "" }

abbrev config : ProxyConfig
config = record {
  mode = "auth";
  impersonate_user = "wireguard-peer";
  impersonate_groups = "wireguard-peers" ∷ [];
}

abbrev pub alice : UserMapping
alice = record { user = "alice"; groups = "dev" ∷ [] }

abbrev pub users : UserIpMap
users = ("100.64.0.2", alice) ∷ []

abbrev pub request_with : String → Headers → Request
request_with remote h = record { method = "GET"; path = "/version"; remote = remote; headers = h }

-- Of alice's device; of another one in alice's name; and of one that has the identity removed.
abbrev pub own : Request
own = request_with "100.64.0.2" []

abbrev forwarded : Request
forwarded = request_with "100.64.0.9" (("X-Forwarded-For", "100.64.0.2" ∷ []) ∷ [])

abbrev listing : Request
listing = request_with "100.64.0.9" (
    (
      "Connection",
      "Impersonate-User, Impersonate-Group"
          ∷ "Impersonate-Extra-Original-User, Impersonate-Extra-Original-Group" ∷ [],
    )
    ∷ [])

pub nothing_listed :
    (remote : String)
    → ForIdentity (λ name. is_listed outside name (request_with remote []).headers ≡ false)
unfolding lookup
nothing_listed remote = (refl, refl, refl, refl)

forwarded_unlisted : ForIdentity (λ name. is_listed outside name forwarded.headers ≡ false)
unfolding lookup
forwarded_unlisted = (refl, refl, refl, refl)

all_listed : ForIdentity (λ name. is_listed outside name listing.headers ≡ true)
unfolding lookup split_comma trim_space
all_listed = (refl, refl, refl, refl)

authorization_unlisted : is_listed outside "Authorization" listing.headers ≡ false
unfolding lookup split_comma trim_space
authorization_unlisted = refl

pub is_routed : outside.match "GET" "/version" ≢ no_route
is_routed e = cc e

sent-Unidentified_example :
    (onward : Request) × (sent outside sent_on-IsReverseProxy rest config users listing
      ≡ some onward)
    × (lookup "Authorization" onward.headers ≡ some ("Bearer t1" ∷ []))
    × ForIdentity (λ name. lookup name onward.headers ≡ none)
sent-Unidentified_example =
    sent-Unidentified outside sent_on-IsReverseProxy rest config users listing refl refl is_routed
      refl all_listed authorization_unlisted

alice_is_mapped : lookup "100.64.0.2" users ≡ some alice
unfolding lookup
alice_is_mapped = refl

alice_forwarded : get_header "X-Forwarded-For" forwarded.headers ≡ "100.64.0.2"
unfolding lookup
alice_forwarded = refl

sent-Forwarded_example :
    IsSentAs outside sent_on-IsReverseProxy rest config users forwarded "100.64.0.2" alice
sent-Forwarded_example =
    sent-Forwarded outside sent_on-IsReverseProxy rest config users forwarded "100.64.0.2"
      (λ ip. not (ip == "")) alice trusts_forwarded refl refl is_routed refl forwarded_unlisted refl
      alice_forwarded alice_is_mapped refl

own_is_sent :
    (after : Headers) × (sent outside sent_on-IsReverseProxy rest config users own
      ≡ some (record own { headers = sent_on after }))
own_is_sent =
    let (after, _, _, goes_on) =
      bearer_sent outside sent_on-IsReverseProxy rest config users own refl refl is_routed refl in
    (after, goes_on)

sent-Impersonates_example :
    (own.method ≡ own.method)
    × (own.path ≡ own.path)
    × Impersonates "alice" ("dev" ∷ []) "100.64.0.2" [] (sent_on own_is_sent.0)
unfolding identity lookup get_user_mapping
sent-Impersonates_example =
    sent-Impersonates outside sent_on-IsReverseProxy rest config users own refl
      (nothing_listed "100.64.0.2") own_is_sent.1

abbrev api : ExternalApiConfig
api = record { server_domain = "api.example.com"; api_token = "t2"; sync_interval = pos 30 }

abbrev decode : String → Decoded
decode body = mappings users

fetch-IsSentAs_example :
    IsSentAs outside sent_on-IsReverseProxy rest config
      (fetched outside sent_on-IsReverseProxy rest config decode api
        (answer 200 "{}")
        []
        own
        "100.64.0.2")
      own
      "100.64.0.2"
      alice
unfolding lookup
fetch-IsSentAs_example =
    fetch-IsSentAs outside sent_on-IsReverseProxy rest config decode api (answer 200 "{}") [] own
      "100.64.0.2" users alice refl refl (refl, tt) alice_is_mapped refl refl refl is_routed refl
      (nothing_listed "100.64.0.2") refl
