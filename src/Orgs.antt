-- ===== src/Orgs.antt =====
-- orgs.py: the verdict on an organization's budget, as admission reads it. The reconciler that
-- computes the verdict runs SQL over all tenants and is not modelled.
use rya.Prelude.{List, [], Option, none, some, if◌then◌else◌}
use rya.Json.{Json, arr, obj, Fields, field, get_field, truthy, items}
use rya.Store.{Store}
use rya.Store.Reads.{policy_get}

-- read_verdict: a row that is no object, or an empty one, is no verdict
unfoldable pub read_verdict : Store → Option Fields
read_verdict s = elim (policy_get "orgBudget" s) [
  | obj (field k v fs) ↦ some (field k v fs)
  | _ ↦ none
]

-- `verdict.get("violations") or []`
abbrev listed : Json → List Json
listed (arr vs) = items vs
listed _ = []

-- org_violations: the stored violations, while the verdict says that the budget is exhausted
unfoldable pub org_violations : Store → List Json
unfolding read_verdict
org_violations s = elim (read_verdict s) [
  | none ↦ []
  | some v ↦ if truthy (get_field "exhausted" v) then listed (get_field "violations" v) else []
]
