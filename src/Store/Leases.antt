-- ===== src/Store/Leases.antt =====
-- store.py: the named leases of a workspace. The lock file around an acquire is left out: one call
-- runs at a time.
use Prim.Native.Char.{code}
use Prim.Native.String.{◌++◌ as join}
use rya.Prelude.{
  ℕ, ◌+◌, max, String, Bool, true, false, not, ◌&&◌, ◌||◌, Option, none, some, List, ltb, leb, ◌==◌,
  str_eq, keep, if◌then◌else◌,
}
use rya.Store.{Store}
use rya.Store.Docs.{Lease}
use rya.Store.Table

-- `[A-Za-z0-9._-]`
abbrev is_safe : ℕ → Bool
is_safe c =
    (leb b'A' c && leb c b'Z')
    || (leb b'a' c && leb c b'z')
    || (leb b'0' c && leb c b'9')
    || c == b'.'
    || c == b'_'
    || c == b'-'

-- a run of other characters is one `_`; the flag says that the last character was such a one
abbrev slugged : Bool → String → String
slugged unsafe String.[] = ""
slugged unsafe (String.◌∷◌ c s) =
    let safe = is_safe (code c) in
    let rest = slugged (not safe) s in
    if safe then String.◌∷◌ c rest else if unsafe then rest else join "_" rest

-- _slug
unfoldable pub slug : String → String
slug name = let s = slugged false name in if str_eq s "" then "_" else s

abbrev pub lease_id : Lease → String
lease_id l = l.id

-- lease_get
unfoldable pub lease_get : String → Store → Option Lease
lease_get name s = Table.get lease_id (slug name) s.leases

-- the lease is held by another, and has time left
unfoldable pub is_taken : ℕ → String → Option Lease → Bool
is_taken now holder none = false
is_taken now holder (some l) = not (str_eq l.holder holder) && ltb now l.expires_at

abbrev renews : String → Option Lease → Bool
renews holder none = false
renews holder (some l) = str_eq l.holder holder

abbrev since : Option Lease → ℕ → ℕ
since none now = now
since (some l) now = l.acquired_at

-- what `lease_acquire` writes
unfoldable pub new_lease : ℕ → String → String → ℕ → Option Lease → Lease
new_lease now name holder ttl_seconds held = record {
  id = slug name;
  name = name;
  holder = holder;
  acquired_at = if renews holder held then since held now else now;
  expires_at = now + max 1 ttl_seconds;
  renewed = renews holder held;
}

-- `return None`, or write the lease and return it
abbrev pub unless_taken : Bool → Lease → Store → Option Lease × Store
unless_taken true l s = (none, s)
unless_taken false l s = (some l, record s { leases = Table.save lease_id l s.leases })

-- lease_acquire
unfoldable pub lease_acquire : ℕ → String → String → ℕ → Store → Option Lease × Store
lease_acquire now name holder ttl_seconds s =
    let held = lease_get name s in
    unless_taken (is_taken now holder held) (new_lease now name holder ttl_seconds held) s

-- lease_release; the file is removed
abbrev pub is_held_by : String → Option Lease → Bool
is_held_by holder none = false
is_held_by holder (some l) = str_eq l.holder holder

abbrev pub removed : String → List Lease → List Lease
removed i t = keep (λ l. not (str_eq l.id i)) t

abbrev pub if_held : Bool → String → Store → Bool × Store
if_held true i s = (true, record s { leases = removed i s.leases })
if_held false i s = (false, s)

unfoldable pub lease_release : String → String → Store → Bool × Store
lease_release name holder s = if_held (is_held_by holder (lease_get name s)) (slug name) s
