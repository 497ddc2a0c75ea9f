-- ===== src/Proxy/Credentials.antt =====
-- On internal/proxy/proxy.go.
-- With which credentials a proxied request goes on.
use netmaker_k8s_ops.Base.{
  String, ◌<>◌, ◌==◌, ◌≡◌, ◌∙◌, sym, refl, ◌⊎◌, inl, inr, Bool, true, false, ◌&&◌, not, Option,
  some, List, [], ◌∷◌, lookup, lookup-insert, Bool-cases, if◌then◌else◌,
}
use netmaker_k8s_ops.Proxy.Auth.{
  Headers, set_header, get_header, RestConfig, next, aborted, authenticate,
}

pub lookup-set_header :
    (name other value : String) (h : Headers)
    → lookup other (set_header name value h)
      ≡ (if name == other then some (value ∷ []) else lookup other h)
unfolding set_header
lookup-set_header name other value h = lookup-insert name other (value ∷ []) h

-- What the caller cannot set: these two headers are the proxy's.
abbrev pub IsOwn : String → Type 0
IsOwn name = (("Authorization" == name) ≡ false) × (("User-Agent" == name) ≡ false)

-- The headers `after` are those of `h` with this authorization and the proxy's agent.
abbrev pub IsSent : Option (List String) → Headers → Headers → Type 0
IsSent authorization h after =
    (lookup "Authorization" after ≡ authorization)
    × (lookup "User-Agent" after ≡ some ("netmaker-k8s-proxy/1.0" ∷ []))
    × ((name : String) → IsOwn name → lookup name after ≡ lookup name h)

passed-IsSent :
    (h : Headers)
    → IsSent (lookup "Authorization" h) h (set_header "User-Agent" "netmaker-k8s-proxy/1.0" h)
passed-IsSent h = (
  lookup-set_header "User-Agent" "Authorization" _ h,
  lookup-set_header "User-Agent" "User-Agent" _ h,
  λ name (a, u). rw (lookup-set_header, u),
)

set-IsSent :
    (value : String) (h : Headers)
    → IsSent
        (some (value ∷ []))
        h
        (set_header "User-Agent" "netmaker-k8s-proxy/1.0" (set_header "Authorization" value h))
set-IsSent value h = (
  rw (lookup-set_header, lookup-set_header) refl,
  rw lookup-set_header refl,
  λ name (a, u). rw (lookup-set_header, u, lookup-set_header, a),
)

next_injective : {h k : Headers} → next h ≡ next k → h ≡ k
next_injective e = cc e

module _ (basic_auth : String → String → String) (config : RestConfig) where
  abbrev pub has_certificate : Bool
  has_certificate = not (config.cert_file == "") && not (config.key_file == "")

  abbrev pub has_password : Bool
  has_password = not (config.username == "") && not (config.password == "")

  -- What is sent as authorization: the proxy's token or password where it has one, the caller's
  -- header where the transport has a certificate or the proxy has nothing.
  abbrev pub expected_authorization : Headers → Option (List String)
  expected_authorization h =
      if not (config.bearer_token == "")
      then some (("Bearer " <> config.bearer_token) ∷ [])
      else if has_certificate
      then lookup "Authorization" h
      else if has_password
      then some (basic_auth config.username config.password ∷ [])
      else lookup "Authorization" h

  abbrev pub is_refused : Headers → Bool
  is_refused h =
      config.bearer_token == ""
      && not has_certificate
      && not has_password
      && get_header "Authorization" h == ""

  pub refused_or_IsSent :
      (h : Headers)
      → ((is_refused h ≡ true)
          × (authenticate basic_auth config h ≡ aborted 401 "Proxy authentication required"))
        ⊎ ((is_refused h ≡ false)
            × ((after : Headers) × (authenticate basic_auth config h ≡ next after)
                × IsSent (expected_authorization h) h after))
  unfolding authenticate
  refused_or_IsSent h = elim (Bool-cases (config.bearer_token == "")) [
    | inr bearer ↦ rw bearer (inr (refl, (_, refl, set-IsSent _ h)))
    | inl no_bearer ↦ elim (Bool-cases has_certificate) [
      | inl certificate ↦ rw (no_bearer, certificate) (inr (refl, (_, refl, passed-IsSent h)))
      | inr no_certificate ↦ elim (Bool-cases has_password) [
        | inl password ↦
            rw (no_bearer, no_certificate, password) (inr (refl, (_, refl, set-IsSent _ h)))
        | inr no_password ↦ elim (Bool-cases (get_header "Authorization" h == "")) [
          | inl refused ↦ rw (no_bearer, no_certificate, no_password, refused) (inl (refl, refl))
          | inr own ↦
              rw (no_bearer, no_certificate, no_password, own)
                (inr (refl, (_, refl, passed-IsSent h)))
        ]
      ]
    ]
  ]

  pub authenticate-lookup :
      (name : String) (h after : Headers)
      → IsOwn name
      → authenticate basic_auth config h ≡ next after
      → lookup name after ≡ lookup name h
  authenticate-lookup name h after own e = elim (refused_or_IsSent h) [
    | inl (_, refused) ↦ cc (e, refused)
    | inr (_, (sent, same, kept)) ↦ rw (next_injective (sym e ∙ same)) (kept.2 name own)
  ]

  pub bearer-next :
      (h : Headers)
      → (config.bearer_token == "") ≡ false
      → (after : Headers) × (authenticate basic_auth config h ≡ next after)
        × (lookup "Authorization" after ≡ some (("Bearer " <> config.bearer_token) ∷ []))
  unfolding authenticate
  bearer-next h bearer = rw bearer (_, refl, (set-IsSent ("Bearer " <> config.bearer_token) h).0)
