-- ===== src/Pool/Warm.antt =====
-- execution/pool.py: `WarmPool`, the warm interpreters of a worker. What an interpreter does when it
-- starts, stops or dies is given: `alive` tells which ones live, `started` how a start ends.
use rya.Prelude.{
  ℕ, max, String, Bool, true, false, not, Option, none, some, List, [], ◌∷◌, ◌++◌, keep, length,
  ltb, str_eq, if◌then◌else◌,
}
use rya.Errors.{Result, ok, err, python_error}
use rya.Store.Table

-- An interpreter, under the hash of the bundle that it holds.
pub record Template : Type 0 where
  pub key : String
  pub serial : ℕ

-- WarmPool; `stopped` are the interpreters that it has stopped
pub record Pool : Type 0 where
  pub max_entries : ℕ
  pub entries : List Template
  pub used : List String
  pub stopped : List Template

abbrev pub template_key : Template → String
template_key t = t.key

abbrev pub entry_of : String → Pool → Option Template
entry_of key p = Table.get template_key key p.entries

abbrev pub add_stopped : Option Template → List Template → List Template
add_stopped none ts = ts
add_stopped (some t) ts = t ∷ ts

-- `used.remove(key)`: the first one
unfoldable pub without : String → List String → List String
without key [] = []
without key (k ∷ ks) = if str_eq k key then ks else k ∷ without key ks

-- _touch
unfoldable pub touched : String → List String → List String
touched key used = without key used ++ key ∷ []

-- `entries.pop(key, None)`
abbrev pub popped : String → List Template → List Template
popped key ts = keep (λ t. not (str_eq t.key key)) ts

-- the body of the loop of `_evict`
abbrev pub evict_one : String → List String → Pool → Pool
evict_one oldest rest p = record p {
  entries = popped oldest p.entries;
  used = rest;
  stopped = add_stopped (entry_of oldest p) p.stopped;
}

-- _evict, by the keys in the order of their last use; `pop(0)` on none raises
unfoldable pub evict : List String → Pool → Result (Unit {0}) × Pool
evict [] p =
    if ltb p.max_entries (length p.entries)
    then (err python_error, record p { used = [] })
    else (ok tt, record p { used = [] })
evict (oldest ∷ rest) p = elim (ltb p.max_entries (length p.entries)) [
  | true ↦ evict rest (evict_one oldest rest p)
  | false ↦ (ok tt, record p { used = oldest ∷ rest })
]

abbrev pub returning : Template → Result (Unit {0}) × Pool → Result Template × Pool
returning t (ok u, p) = (ok t, p)
returning t (err c, p) = (err c, p)

-- the part of `acquire` behind the start of a new interpreter
abbrev pub warmed : Result (Unit {0}) → Template → Pool → Result Template × Pool
warmed (err c) t p = (err c, p)
warmed (ok u) t p =
    let used = touched t.key p.used in
    returning t
      (evict used (record p { entries = Table.save template_key t p.entries; used = used }))

-- `if entry is not None: entry.stop()`
abbrev pub retired : Option Template → Pool → Pool
retired old p = record p { stopped = add_stopped old p.stopped }

module _ (alive : Template → Bool) (started : Result (Unit {0})) where
  abbrev pub acquire_found : Option Template → Template → Pool → Result Template × Pool
  acquire_found none t p = warmed started t p
  acquire_found (some old) t p =
      if alive old
      then (ok old, record p { used = touched t.key p.used })
      else warmed started t (retired (some old) p)

  -- acquire; the new interpreter is `t`, under the key `bundle_hash or "local"`
  unfoldable pub acquire : Template → Pool → Result Template × Pool
  acquire t p = acquire_found (entry_of t.key p) t p

-- get: a read is a use
abbrev pub use_of : String → Option Template → Pool → Option Template × Pool
use_of key none p = (none, p)
use_of key (some t) p = (some t, record p { used = touched key p.used })

unfoldable pub get_entry : String → Pool → Option Template × Pool
get_entry key p = use_of key (entry_of key p) p

-- drop
abbrev pub is_entry : Option Template → Bool
is_entry none = false
is_entry (some t) = true

unfoldable pub drop_entry : String → Pool → Bool × Pool
drop_entry key p = (
  is_entry (entry_of key p),
  record p {
    entries = popped key p.entries;
    used = without key p.used;
    stopped = add_stopped (entry_of key p) p.stopped;
  },
)

-- close
unfoldable pub close : Pool → Pool
close p = record p { entries = []; used = []; stopped = p.entries ++ p.stopped }

-- WarmPool.__init__
unfoldable pub new_pool : ℕ → Pool
new_pool n = record { max_entries = max 1 n; entries = []; used = []; stopped = [] }
