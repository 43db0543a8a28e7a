-- ===== src/Purge.antt =====
-- purge.py: the lifecycle state of a workspace, as admission reads it. The erasing steps (revoked keys,
-- shredded seal keys, deleted rows) are not modelled.
use rya.Prelude.{String, Bool, Option, none, some, str_eq, if◌then◌else◌}
use rya.Prelude.Int.{ℤ, pos}
use rya.Json.{Json, null, text, obj, end, get_field, has_field, truthy}
use rya.Errors.{Exec, Result, ok, err, python_error, e_workspace_disabled, require, ◌>>=◌}
use rya.Store.{Store}
use rya.Store.Reads.{policy_get}
use rya.Quotas.Casts.{int_of}

-- The state is `none` where `str()` gives a text that names no state.
pub record Lifecycle : Type 0 where
  pub state : Option String
  pub retention_days : ℤ

abbrev pub state_active : Option String
state_active = some "active"

abbrev fresh : Lifecycle
fresh = record { state = state_active; retention_days = pos 30 }

-- `str(data.get("state") or STATE_ACTIVE)`
abbrev state_of : Json → Option String
state_of (text s) = if str_eq s "" then state_active else some s
state_of v = if truthy v then none else state_active

abbrev with_retention : Option String → Option ℤ → Result Lifecycle
with_retention st none = err python_error
with_retention st (some d) = ok (record { state = st; retention_days = d })

-- `int(DEFAULT_RETENTION_DAYS if retentionDays is None else retentionDays)`
abbrev retention_of : Json → Option ℤ
retention_of null = some (pos 30)
retention_of v = int_of v

abbrev of_data : Json → Result Lifecycle
of_data (obj fs) =
    with_retention (state_of (get_field "state" fs)) (retention_of (get_field "retentionDays" fs))
of_data _ = ok fresh

-- `raw.get("policy", raw) if isinstance(raw, dict) else {}`
abbrev policy_data : Json → Json
policy_data (obj fs) = if has_field "policy" fs then get_field "policy" fs else obj fs
policy_data _ = obj end

-- lifecycle
unfoldable pub lifecycle : Store → Result Lifecycle
lifecycle s =
    let row = policy_get "lifecycle" s in
    of_data (policy_data (if truthy row then row else obj end))

abbrev pub is_active : Lifecycle → Bool
is_active l = elim l.state [ none ↦ Bool.false | some s ↦ str_eq s "active" ]

-- require_active
unfoldable pub require_active : Exec Store Unit
unfolding lifecycle
require_active = do state ← (λ s. (lifecycle s, s)); require (is_active state) e_workspace_disabled
