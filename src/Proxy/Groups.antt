-- ===== src/Proxy/Groups.antt =====
-- On internal/proxy/proxy.go.
-- The default groups, from the environment variable to the header.
use Prim.Native.Char.{Char, code}
use text.Mathlib.TextLemmas.{append_assoc, append-nil, nil-append, cons-append}
use netmaker_k8s_ops.Base.{
  String, ◌<>◌, ◌==◌, ◌≡◌, ◌≢◌, refl, ap, ◌∙◌, sym, Bool, true, false, ◌&&◌, not, List, [], ◌∷◌,
  map, All, Env, nat_eq, split_comma, split_from, join_comma, trim_space, arith, eq_iff, none,
  lookup,
}
use netmaker_k8s_ops.Proxy.Users.{UserIpMap, get_user_mapping}
use netmaker_k8s_ops.Proxy.Auth.{identity}
use netmaker_k8s_ops.Proxy.Config.{get_proxy_config, auth_mode, proxy_mode}
use netmaker_k8s_ops.Proxy.Defaults.{mode_of}

abbrev pub has_no_comma : String → Bool
has_no_comma String.[] = true
has_no_comma (String.◌∷◌ c s) = not (nat_eq (code c) b',') && has_no_comma s

split_from_other :
    (part s : String) (c : Char)
    → nat_eq (code c) b',' ≡ false
    → split_from part (String.◌∷◌ c s) ≡ split_from (part <> String.◌∷◌ c "") s
unfolding split_from
split_from_other part s c other = rw other refl

-- A character that is put behind the part, and the rest.
part_moves : (part g : String) (c : Char) → (part <> String.◌∷◌ c "") <> g ≡ part <> String.◌∷◌ c g
part_moves part g c =
    append_assoc part (String.◌∷◌ c "") g
    ∙ ap (λ s. part <> s) (cons-append c "" g ∙ ap (λ s. String.◌∷◌ c s) (nil-append g))

split_from-append :
    (part g rest : String)
    → has_no_comma g ≡ true
    → split_from part (g <> rest) ≡ split_from (part <> g) rest
split_from-append part String.[] rest h = rw (nil-append, append-nil) refl
split_from-append part (String.◌∷◌ c g) rest h =
    ap (split_from part) (cons-append c g rest)
    ∙ split_from_other part (g <> rest) c (ground arith)
    ∙ split_from-append (part <> String.◌∷◌ c "") g rest (ground arith)
    ∙ ap (λ s. split_from s rest) (part_moves part g c)

abbrev comma : Char
comma = ","

split_from_at_comma :
    (part s : String) → split_from part (String.◌∷◌ comma s) ≡ part ∷ split_from "" s
unfolding split_from
split_from_at_comma part s = refl

split_from-comma : (part s : String) → split_from part ("," <> s) ≡ part ∷ split_from "" s
split_from-comma part s =
    ap (split_from part) (cons-append comma "" s ∙ ap (λ t. String.◌∷◌ comma t) (nil-append s))
    ∙ split_from_at_comma part s

-- Splitting takes a joined list apart, if no part has a comma.
split_from-join_comma :
    (part g : String) (gs : List String)
    → All (λ x. has_no_comma x ≡ true) (g ∷ gs)
    → split_from part (join_comma (g ∷ gs)) ≡ (part <> g) ∷ gs
unfolding join_comma split_from
split_from-join_comma part g [] (h, _) =
    ap (split_from part) (sym (append-nil g)) ∙ split_from-append part g "" h
split_from-join_comma part g (k ∷ gs) (h, hs) =
    split_from-append part g ("," <> join_comma (k ∷ gs)) h
    ∙ split_from-comma (part <> g) (join_comma (k ∷ gs))
    ∙ ap (λ l. (part <> g) ∷ l) (split_from-join_comma "" k gs hs ∙ ap (λ x. x ∷ gs) (nil-append k))

-- The parts come out of the joined list, without the spaces around them.
split_comma-join_comma :
    (g : String) (gs : List String)
    → All (λ x. has_no_comma x ≡ true) (g ∷ gs)
    → map trim_space (split_comma (join_comma (g ∷ gs))) ≡ map trim_space (g ∷ gs)
unfolding split_comma
split_comma-join_comma g gs h =
    ap (map trim_space) (split_from-join_comma "" g gs h ∙ ap (λ x. x ∷ gs) (nil-append g))

read_groups :
    (env : Env)
    → env "PROXY_IMPERSONATE_GROUPS" ≢ ""
    → (get_proxy_config env).mode ≡ auth_mode
    → (get_proxy_config env).impersonate_groups
      ≡ map trim_space (split_comma (env "PROXY_IMPERSONATE_GROUPS"))
unfolding get_proxy_config
read_groups env set mode =
    let on : (proxy_mode env == auth_mode) ≡ true = rw (sym (mode_of env) ∙ mode) refl in
    let is_set : (env "PROXY_IMPERSONATE_GROUPS" == "") ≡ false =
      ground (arith, eq_iff (env "PROXY_IMPERSONATE_GROUPS") "") in
    rw (on, is_set) refl

-- In auth mode, with PROXY_IMPERSONATE_GROUPS set to parts joined by commas, none of them with a comma:
-- the default groups are these parts without the spaces around them, in their order, and an address that
-- is not mapped has them.
pub get_proxy_config-groups :
    (env : Env) (g : String) (gs : List String) (users : UserIpMap) (ip : String)
    → All (λ x. has_no_comma x ≡ true) (g ∷ gs)
    → env "PROXY_IMPERSONATE_GROUPS" ≡ join_comma (g ∷ gs)
    → env "PROXY_IMPERSONATE_GROUPS" ≢ ""
    → (get_proxy_config env).mode ≡ auth_mode
    → lookup ip users ≡ none
    → (identity (get_proxy_config env) users ip).1 ≡ map trim_space (g ∷ gs)
unfolding identity get_user_mapping
get_proxy_config-groups env g gs users ip parts written set mode unmapped =
    rw unmapped (read_groups env set mode ∙ rw written (split_comma-join_comma g gs parts))
