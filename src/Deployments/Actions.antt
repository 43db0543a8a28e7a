-- ===== src/Deployments/Actions.antt =====
-- deployments.py: `create_version`, `promote`, `rollback`, `retire` and what a new run resolves to. `now`
-- is the clock's reading during the call, `fresh` the id that `_new_id` makes.
use rya.Prelude.{
  ℕ, String, Bool, true, false, not, ◌&&◌, ◌||◌, Option, none, some, List, [], ◌∷◌, last?, str_eq,
  if◌then◌else◌,
}
use rya.Json.{Fields}
use rya.Errors.{
  Exec, Result, ok, err, pure, require, ◌>>=◌, ◌>>◌, e_validation, e_version_not_found,
  e_version_retired, e_version_in_use, e_bundle_mismatch, e_environment_not_found,
}
use rya.Words.{strip, has_slash}
use rya.Store.{Store}
use rya.Store.Docs.{Version, active, retired, Environment, PriorPointer}
use rya.Gates.Check.{require_promotion}
use rya.Deployments.Tables.{
  version_get, version_create, put_version, retired_version, env_get, env_set_current, env_list,
  names, pinned_runs,
}

-- _require_environment_name
unfoldable pub environment_name : String → Result String
environment_name environment =
    let name = strip environment in
    if str_eq name "" || has_slash name then err e_validation else ok name

abbrev pub or_missing : Option Version → Result Version
or_missing none = err e_version_not_found
or_missing (some v) = ok v

-- _require_version
unfoldable pub require_version : String → Store → Result Version
require_version i s = or_missing (version_get i s)

abbrev pub is_retired : Version → Bool
is_retired v = elim v.state [ active ↦ false | retired ↦ true ]

-- What the code reads of a bundle; `agent` and `file_count` are its properties.
pub record Bundle : Type 0 where
  pub hash : String
  pub agent : String
  pub sdk_version : String
  pub entrypoint : String
  pub lockfile : Option String
  pub size_bytes : ℕ
  pub file_count : ℕ
  pub manifest : Fields

-- the record that `create_version` hands to the store, with what `version_create` adds
unfoldable pub version_of_bundle : ℕ → String → String → Bundle → Option String → Fields → Version
version_of_bundle now fresh agent b actor metadata = record {
  id = fresh;
  agent = agent;
  bundle_hash = b.hash;
  sdk_version = b.sdk_version;
  entrypoint = b.entrypoint;
  lockfile = b.lockfile;
  size_bytes = b.size_bytes;
  file_count = b.file_count;
  manifest = b.manifest;
  state = active;
  metadata = metadata;
  created_by = actor;
  created_at = now;
  retired_at = none;
}

-- require_promotion, for a gated promotion alone
unfoldable pub gated : Bool → ℕ → String → Version → String → Option String → Bool → Exec Store Unit
gated false now fresh v name actor force s = (ok tt, s)
gated true now fresh v name actor force s =
    (require_promotion now fresh v name actor force >>= λ r. pure tt) s

-- promote, behind the name and the version
unfoldable pub promote_to :
    ℕ
    → String
    → String
    → String
    → String
    → Option String
    → Bool
    → Bool
    → Version
    → Exec Store Environment
unfolding gated
promote_to now fresh name agent i actor gate force v = do
  require (str_eq v.agent agent) e_bundle_mismatch
  require (not (is_retired v)) e_version_retired
  gated gate now fresh v name actor force
  (λ s. let (e, t) = env_set_current now name agent i actor s in (ok e, t))

abbrev pub of_result : {A : Type 0} → Result A → Exec Store A
of_result r s = (r, s)

-- promote
unfoldable pub promote :
    ℕ → String → String → String → String → Option String → Bool → Bool → Exec Store Environment
unfolding environment_name require_version promote_to
promote now fresh environment agent i actor gate force = do
  name ← of_result (environment_name environment)
  v ← (λ s. (require_version i s, s))
  promote_to now fresh name agent i actor gate force v

-- `env["currentVersionId"]`, unless there is none or it is empty
abbrev pub given_text : Option String → Option String
given_text none = none
given_text (some i) = if str_eq i "" then none else some i

abbrev pub current_of : Option Environment → Option String
current_of none = none
current_of (some e) = given_text e.current_version_id

abbrev pub or_no_environment : Option String → Result String
or_no_environment none = err e_environment_not_found
or_no_environment (some i) = ok i

-- resolve_for_run
unfoldable pub resolve_for_run : String → String → Exec Store Version
unfolding environment_name require_version
resolve_for_run environment agent = do
  name ← of_result (environment_name environment)
  i ← (λ s. (or_no_environment (current_of (env_get name agent s)), s))
  v ← (λ s. (require_version i s, s))
  require (not (is_retired v)) e_version_retired
  pure v

-- the newest entry of the history
abbrev pub newest : Option PriorPointer → Result String
newest none = err e_version_not_found
newest (some p) = ok p.version_id

abbrev pub prior_of : Option Environment → Result String
prior_of none = err e_environment_not_found
prior_of (some e) = newest (last? e.history)

abbrev pub target_of : Option String → Option Environment → Result String
target_of none e = prior_of e
target_of (some i) e = ok i

-- rollback
unfoldable pub rollback :
    ℕ → String → String → String → Option String → Option String → Exec Store Environment
unfolding environment_name promote
rollback now fresh environment agent actor to = do
  name ← of_result (environment_name environment)
  i ← (λ s. (or_no_environment (current_of (env_get name agent s)), s))
  target ← (λ s. (target_of to (env_get name agent s), s))
  require (not (str_eq target i)) e_validation
  promote now fresh name agent target actor false false

abbrev pub any_current : String → List Environment → Bool
any_current i [] = false
any_current i (e ∷ es) = names i e.current_version_id || any_current i es

abbrev pub none_left {ℓ} : {A : Type ℓ} → List A → Bool
none_left [] = true
none_left (x ∷ xs) = false

-- retire, behind the version
unfoldable pub retire_version : ℕ → String → Bool → Version → Exec Store Version
retire_version now i force v s =
    if is_retired v
    then (ok v, s)
    else if force || (not (any_current i (env_list v.agent s)) && none_left (pinned_runs i s))
    then (ok (retired_version now v), put_version (retired_version now v) s)
    else (err e_version_in_use, s)

-- retire
unfoldable pub retire : ℕ → String → Bool → Exec Store Version
unfolding require_version retire_version
retire now i force = do v ← (λ s. (require_version i s, s)); retire_version now i force v

abbrev pub version_or : Option Version → Version → Version
version_or none v = v
version_or (some w) v = w

-- the promotion that `create_version` ends with, if an environment is given
unfoldable pub promote_new :
    ℕ → String → Option String → String → Option String → Bool → Version → Exec Store Version
promote_new now fresh none agent actor force v s = (ok v, s)
promote_new now fresh (some environment) agent actor force v s =
    (promote now fresh environment agent v.id actor true force >>= λ e t.
    (ok (version_or (version_get v.id t) v), t))
      s

-- create_version; `attested` is the id of an attestation that the promotion may file
unfoldable pub create_version :
    ℕ
    → String
    → String
    → String
    → Bundle
    → Option String
    → Option String
    → Fields
    → Bool
    → Exec Store Version
unfolding promote_new version_of_bundle
create_version now fresh attested agent b environment actor metadata force s =
    if str_eq agent ""
    then (err e_validation, s)
    else if not (str_eq b.agent "") && not (str_eq b.agent agent)
    then (err e_bundle_mismatch, s)
    else let (v, t) = version_create (version_of_bundle now fresh agent b actor metadata) s in
      promote_new now attested environment agent actor force v t
