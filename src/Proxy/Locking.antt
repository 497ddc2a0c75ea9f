-- ===== src/Proxy/Locking.antt =====
-- On UserIPMapWithMutex of internal/proxy/proxy.go.
-- Requests that look up the user map while a fetch writes it, access by access: the user and the groups
-- of a mapping are written and read one after the other. `Lock` and `RLock` of sync.RWMutex go on as its
-- documentation says: a writer when nobody holds the mutex, a reader when no writer does.
pub mod Whole
use netmaker_k8s_ops.Base.{
  ℕ, String, ◌≡◌, none, some, Option, List, [], ◌∷◌, lookup, nat_eq, if◌then◌else◌,
}
use netmaker_k8s_ops.Proxy.Users.{UserMapping, UserIpMap, set_user_mapping}

-- Where the fetch is in `SetUserMapping` for the first of its pending mappings.
pub data Writer : Type 0 where
  idle : Writer
  holding : Writer
  half : Writer
  written : Writer

-- Where a request is in `GetUserMapping`: what it has read of the mapping, if there is one.
pub data Reader : Type 0 where
  outside : Reader
  reading : String → Reader
  part : String → Option String → Reader
  whole : String → Option UserMapping → Reader

pub record Locked : Type 0 where
  pub users : UserIpMap
  pub pending : UserIpMap
  pub writer : Writer
  pub readers : ℕ → Reader
  pub seen : List (String × Option UserMapping)

abbrev pub old_groups : Option UserMapping → List String
old_groups none = []
old_groups (some m) = m.groups

abbrev pub user_of : Option UserMapping → Option String
user_of none = none
user_of (some m) = some m.user

-- The user that was read before, with the groups that are read now.
abbrev pub with_groups : Option String → Option UserMapping → Option UserMapping
with_groups (some user) (some m) = some (record { user = user; groups = m.groups })
with_groups (some user) none = none
with_groups none m = none

abbrev pub set_reader : ℕ → Reader → (ℕ → Reader) → ℕ → Reader
set_reader i r readers j = if nat_eq j i then r else readers j

pub data Access (s : Locked) : Locked → Type 0 where
  lock :
      (ip : String) (v : UserMapping) (rest : UserIpMap)
      → s.pending ≡ (ip, v) ∷ rest
      → s.writer ≡ idle
      → ((i : ℕ) → s.readers i ≡ outside)
      → Access s (record s { writer = holding })
  put_user :
      (ip : String) (v : UserMapping) (rest : UserIpMap)
      → s.pending ≡ (ip, v) ∷ rest
      → s.writer ≡ holding
      → Access s (record s {
        users = set_user_mapping ip v.user (old_groups (lookup ip s.users)) s.users;
        writer = half;
      })
  put_groups :
      (ip : String) (v : UserMapping) (rest : UserIpMap)
      → s.pending ≡ (ip, v) ∷ rest
      → s.writer ≡ half
      → Access s
          (record s { users = set_user_mapping ip v.user v.groups s.users; writer = written })
  unlock :
      (ip : String) (v : UserMapping) (rest : UserIpMap)
      → s.pending ≡ (ip, v) ∷ rest
      → s.writer ≡ written
      → Access s (record s { pending = rest; writer = idle })
  rlock :
      (i : ℕ) (ip : String)
      → s.readers i ≡ outside
      → s.writer ≡ idle
      → Access s (record s { readers = set_reader i (reading ip) s.readers })
  get_user :
      (i : ℕ) (ip : String)
      → s.readers i ≡ reading ip
      → Access s
          (record s { readers = set_reader i (part ip (user_of (lookup ip s.users))) s.readers })
  get_groups :
      (i : ℕ) (ip : String) (user : Option String)
      → s.readers i ≡ part ip user
      → Access s (record s {
        readers = set_reader i (whole ip (with_groups user (lookup ip s.users))) s.readers;
      })
  runlock :
      (i : ℕ) (ip : String) (found : Option UserMapping)
      → s.readers i ≡ whole ip found
      → Access s
          (record s { readers = set_reader i outside s.readers; seen = (ip, found) ∷ s.seen })

pub data Reach (s : Locked) : Locked → Type 0 where
  here : Reach s s
  next : {t u : Locked} → Reach s t → Access t u → Reach s u
