-- ===== src/Deployments/Tables.antt =====
-- store.py: the `version_*` and `env_*` methods of `FileStore`. `fresh` is the id that `_new_id` makes.
use Prim.Native.String.{◌++◌ as join}
use rya.Prelude.{
  ℕ, String, Bool, false, not, ◌&&◌, Option, none, some, List, [], ◌∷◌, ◌++◌, first_where, keep,
  str_eq, if◌then◌else◌,
}
use rya.Words.{unslashed}
use rya.Store.{Store}
use rya.Store.Docs.{Version, retired, Environment, PriorPointer, Run}
use rya.Store.Table
use rya.Store.Reads.{is_terminal_status}

abbrev pub version_key : Version → String
version_key v = v.id

-- version_get
abbrev pub version_get : String → Store → Option Version
version_get i s = Table.get version_key i s.versions

-- version_by_hash
unfoldable pub version_by_hash : String → String → Store → Option Version
version_by_hash agent hash s =
    first_where (λ v. str_eq v.agent agent && str_eq v.bundle_hash hash) s.versions

unfoldable pub put_version : Version → Store → Store
put_version v s = record s { versions = Table.save version_key v s.versions }

-- version_create: the same agent and bundle hash give the stored version, untouched
unfoldable pub version_create : Version → Store → Version × Store
version_create v s = elim (version_by_hash v.agent v.bundle_hash s) [
  | some old ↦ (old, s)
  | none ↦ (v, put_version v s)
]

-- version_set_state, to `retired`
unfoldable pub retired_version : ℕ → Version → Version
retired_version now v = record v { state = retired; retired_at = some now }

-- _env_key
unfoldable pub env_key : String → String → String
env_key name agent = unslashed (join name (join "__" agent))

abbrev pub env_id : Environment → String
env_id e = e.key

-- env_get
unfoldable pub env_get : String → String → Store → Option Environment
env_get name agent s = Table.get env_id (env_key name agent) s.environments

-- the document that `env_set_current` begins with
unfoldable pub new_environment : ℕ → String → String → Environment
new_environment now name agent = record {
  key = env_key name agent;
  name = name;
  agent = agent;
  current_version_id = none;
  history = [];
  created_at = now;
  updated_at = none;
  actor = none;
}

abbrev pub found_or : Option Environment → Environment → Environment
found_or none e = e
found_or (some d) e = d

-- `doc["history"].append(...)`, when there is a current version
abbrev pub pushed : ℕ → Option String → Option String → List PriorPointer → List PriorPointer
pushed now actor none h = h
pushed now actor (some i) h =
    if str_eq i ""
    then h
    else h ++ (record { version_id = i; replaced_at = now; actor = actor }) ∷ []

-- the writes of `env_set_current`
unfoldable pub pointed_at : ℕ → Option String → String → Environment → Environment
pointed_at now actor i e = record e {
  history = pushed now actor e.current_version_id e.history;
  current_version_id = some i;
  updated_at = some now;
  actor = actor;
}

-- env_set_current
unfoldable pub env_set_current :
    ℕ → String → String → String → Option String → Store → Environment × Store
env_set_current now name agent i actor s =
    let e =
      pointed_at now actor i (found_or (env_get name agent s) (new_environment now name agent)) in
    (e, record s { environments = Table.save env_id e s.environments })

-- env_list(agent)
unfoldable pub env_list : String → Store → List Environment
env_list agent s = keep (λ e. str_eq e.agent agent) s.environments

abbrev pub names : String → Option String → Bool
names i none = false
names i (some j) = str_eq j i

-- pinned_runs
unfoldable pub pinned_runs : String → Store → List Run
pinned_runs i s = keep (λ r. names i r.version_id && not (is_terminal_status r.status)) s.runs
