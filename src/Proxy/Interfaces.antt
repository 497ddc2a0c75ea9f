-- ===== src/Proxy/Interfaces.antt =====
-- internal/proxy/proxy.go and internal/proxy/api.go: the search for the address of the WireGuard
-- interface, and the addresses that the servers listen on.
use netmaker_k8s_ops.Base.{
  ℕ, zero, suc, ◌+◌, String, ◌<>◌, ◌==◌, Bool, ◌&&◌, not, Option, none, some, List, [], ◌∷◌, Env, ℤ,
  pos, negsuc, lt_int, mul_int64, seconds, if◌then◌else◌,
}
use netmaker_k8s_ops.Proxy.Config.{get_env_int}

-- `net.Addr`, as far as it is looked at.
pub record Address : Type 0 where
  pub is_ip_net : Bool
  pub is_ipv4 : Bool
  pub is_loopback : Bool
  pub is_unspecified : Bool
  pub text : String

-- `net.Interface`; `addresses` is `none` where reading them fails.
pub record Interface : Type 0 where
  pub name : String
  pub addresses : Option (List Address)

abbrev pub is_usable : Address → Bool
is_usable a = a.is_ip_net && (a.is_ipv4 && not a.is_loopback && not a.is_unspecified)

-- The loop over the addresses.
unfoldable pub usable_address : List Address → Option String
usable_address [] = none
usable_address (a ∷ rest) = if is_usable a then some a.text else usable_address rest

-- The loop over the interfaces.
unfoldable pub address_in : String → List Interface → Option String
unfolding usable_address
address_in name [] = none
address_in name (i ∷ rest) =
    let next = address_in name rest in
    if i.name == name
    then elim i.addresses [
      | none ↦ next
      | some l ↦ elim (usable_address l) [ none ↦ next | some text ↦ some text ]
    ]
    else next

-- What one attempt finds; `none` as an answer is an error of `net.Interfaces`.
abbrev pub found_by : String → Option (List Interface) → Option String
found_by name none = none
found_by name (some l) = address_in name l

-- The wait after an attempt, in nanoseconds.
unfoldable pub delay_after : ℤ → ℤ → ℕ → ℤ
delay_after base_delay max_delay attempt =
    let delay = mul_int64 base_delay (pos attempt) in
    if lt_int max_delay delay then max_delay else delay

-- After an attempt that found nothing: only one that was not the last and had no error waits.
-- `left` attempts follow it, and `rest` is what they give.
unfoldable pub after_attempt :
    ℤ → ℤ → ℕ → ℕ → Option (List Interface) → String × List ℤ → String × List ℤ
unfolding delay_after
after_attempt base_delay max_delay attempt left none rest = rest
after_attempt base_delay max_delay attempt zero (some _) rest = rest
after_attempt base_delay max_delay attempt (suc _) (some _) rest =
    (rest.0, delay_after base_delay max_delay attempt ∷ rest.1)

-- An address that is found ends the search.
unfoldable pub settle : Option String → String × List ℤ → String × List ℤ
settle (some text) otherwise = (text, [])
settle none otherwise = otherwise

-- `scans` is what the attempts see.
module _ (name : String) (base_delay max_delay : ℤ) (scans : ℕ → Option (List Interface)) where
  -- The attempts from `attempt` on, of which `left` are left: the address, "" for none, and the
  -- waits.
  unfoldable pub search : ℕ → ℕ → String × List ℤ
  unfolding address_in after_attempt settle
  search zero attempt = ("", [])
  search (suc left) attempt =
      let rest = search left (attempt + 1) in
      settle (found_by name (scans attempt))
        (after_attempt base_delay max_delay attempt left (scans attempt) rest)

abbrev pub at_least_zero : ℤ → ℕ
at_least_zero (pos n) = n
at_least_zero (negsuc n) = 0

module _ (env : Env) (scans : ℕ → Option (List Interface)) where
  abbrev pub interface_name : String
  interface_name = if env "IFACE_NAME" == "" then "netmaker" else env "IFACE_NAME"

  abbrev pub max_retries : ℕ
  max_retries = at_least_zero (get_env_int env "WIREGUARD_RETRY_MAX_ATTEMPTS" (pos 20))

  unfoldable pub get_wire_guard_interface_ip : String × List ℤ
  unfolding search
  get_wire_guard_interface_ip =
      search interface_name (seconds (get_env_int env "WIREGUARD_RETRY_BASE_DELAY_SECONDS" (pos 3)))
        (seconds (get_env_int env "WIREGUARD_RETRY_MAX_DELAY_SECONDS" (pos 30))) scans max_retries 1

  -- The address to listen on, from the variables of a server and its default port.
  unfoldable pub listen_address : String → String → String → String
  unfolding get_wire_guard_interface_ip
  listen_address ip_variable port_variable default_port =
      let port = if env port_variable == "" then default_port else env port_variable in
      let bind_ip =
        if env ip_variable == "" then get_wire_guard_interface_ip.0 else env ip_variable in
      if bind_ip == "" then ":" <> port else bind_ip <> (":" <> port)

  abbrev pub proxy_address : String
  proxy_address = listen_address "PROXY_BIND_IP" "PROXY_PORT" "8085"

  abbrev pub api_address : String
  api_address = listen_address "API_BIND_IP" "API_PORT" "8086"
