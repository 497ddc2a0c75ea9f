-- ===== src/Proxy/Netclient.antt =====
-- internal/proxy/proxy.go: `checkNetclientContainer`, which nothing calls. The file system is a
-- parameter: whether `os.Stat` finds a path, and what `os.ReadDir` lists.
pub mod Panics
use Prim.Native.String.{String}
use Prim.Native.Char.{Char, code}
use netmaker_k8s_ops.Base.{
  ◌<>◌, ◌==◌, ◌≡◌, ◌≢◌, ◌↔◌, refl, ap, Bool, true, false, ◌||◌, ◌&&◌, not, eq_iff, arith,
  Bool-cases, inl, inr, Option, none, some, List, [], ◌∷◌, leb, nat_eq, if◌then◌else◌,
}

-- The entries of the map that is returned, `none` for a key that is not set.
pub record NetclientStatus : Type 0 where
  pub is_running : Bool
  pub interface : Option String
  pub interfaces : List String
  pub message : String

abbrev not_running : NetclientStatus
not_running = record {
  is_running = false;
  interface = none;
  interfaces = [];
  message = "Checking for WireGuard interfaces";
}

abbrev detected : String → NetclientStatus
detected name = record {
  is_running = true;
  interface = some name;
  interfaces = [];
  message = "WireGuard interface " <> (name <> " detected");
}

-- `name[:2] == "wg"`, `none` where it panics: at a name of fewer than two bytes.
unfoldable pub has_wg_prefix : String → Option Bool
has_wg_prefix String.[] = none
has_wg_prefix (String.◌∷◌ c String.[]) = if leb 128 (code c) then some false else none
has_wg_prefix (String.◌∷◌ c (String.◌∷◌ d s)) = some (nat_eq (code c) b'w' && nat_eq (code d) b'g')

unfoldable pub is_wire_guard : String → Option Bool
unfolding has_wg_prefix
is_wire_guard name = if name == "wg0" || name == "netmaker" then some true else has_wg_prefix name

abbrev add_name : String → Option Bool → Option (List String) → Option (List String)
add_name name none found = none
add_name name (some is_found) none = none
add_name name (some is_found) (some found) = some (if is_found then name ∷ found else found)

-- The loop over the listed interfaces.
unfoldable pub wire_guard_interfaces : List String → Option (List String)
wire_guard_interfaces [] = some []
wire_guard_interfaces (name ∷ rest) =
    add_name name (is_wire_guard name) (wire_guard_interfaces rest)

abbrev join_space : List String → String
join_space [] = ""
join_space (p ∷ []) = p
join_space (p ∷ q ∷ ps) = p <> (" " <> join_space (q ∷ ps))

abbrev found_status : Option (List String) → Option NetclientStatus
found_status none = none
found_status (some []) = some not_running
found_status (some (name ∷ found)) = some (record {
  is_running = true;
  interface = none;
  interfaces = name ∷ found;
  message = "Found WireGuard interfaces: [" <> (join_space (name ∷ found) <> "]");
})

abbrev listed_status : Option (List String) → Option NetclientStatus
listed_status none = some not_running
listed_status (some names) = found_status (wire_guard_interfaces names)

abbrev status_of : Option String → Option (List String) → Option NetclientStatus
status_of (some name) listing = some (detected name)
status_of none listing = listed_status listing

module _ (stat : String → Bool) where
  -- The first of the names of which there is an interface.
  unfoldable pub first_present : List String → Option String
  first_present [] = none
  first_present (name ∷ names) =
      let later = first_present names in
      if stat ("/sys/class/net/" <> name) then some name else later

  -- `none` is a panic. The list is read only if none of the names is there.
  unfoldable pub check_netclient_container : Option (List String) → Option NetclientStatus
  unfolding first_present wire_guard_interfaces
  check_netclient_container listing =
      status_of (first_present ("wg0" ∷ "netmaker" ∷ "nm-*" ∷ "wg1" ∷ "wg2" ∷ [])) listing
