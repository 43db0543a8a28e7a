-- ===== src/Execution/Fleet/Targets.antt =====
-- execution/supervisor.py: the keys worth serving (`_targets`), with the replicas that each should have.
use Prim.Native.Nat.{Ordering}
use Prim.Native.String.{◌++◌ as join, compare}
use rya.Prelude.{
  ℕ, ◌+◌, String, Bool, true, false, ◌&&◌, Option, none, some, List, [], ◌∷◌, ◌==◌, str_eq,
  if◌then◌else◌,
}
use rya.Prelude.Sort.{sorted}
use rya.Store.{Store}
use rya.Store.Docs.{Version, Environment}
use rya.Store.Table
use rya.Deployments.Tables.{version_get, env_get}
use rya.Deployments.Actions.{current_of, given_text}
use rya.Execution.Scope.{version, tenant, scope_key, Claimable, attributed}
use rya.Execution.Peek.{any_where}
use rya.Execution.Fleet.Views.{Config, Reason, depth, pre_warm, View, replicas}

-- `(current or {}).get("id")` of deployments.py `current_version`, where a dangling pointer raises and
-- the caller takes that for `None`
abbrev pub id_of : Option Version → Option String
id_of none = none
id_of (some v) = some v.id

abbrev pub stored_id : Option String → Store → Option String
stored_id none s = none
stored_id (some i) s = id_of (version_get i s)

unfoldable pub current_version : String → String → Store → Option String
current_version environment agent s = stored_id (current_of (env_get environment agent s)) s

-- resolve_version (execution/scope.py)
unfoldable pub resolve_version : Option String → Claimable → Store → Option String
unfolding current_version
resolve_version environment g s = elim g.version_id [
  | some v ↦ some v
  | none ↦ elim (given_text environment) [
    | none ↦ none
    | some e ↦ if attributed g then current_version e g.agent s else none
  ]
]

-- a key, the replicas wanted, and why
pub record Target : Type 0 where
  pub key : String
  pub want : ℕ
  pub reason : Reason

abbrev pub target_key : Target → String
target_key t = t.key

abbrev pub key_before : Target → Target → Bool
key_before a b = elim (compare a.key b.key) [ Ordering.lt ↦ true | _ ↦ false ]

module _ (c : Config) (s : Store) where
  -- _resolve_key
  unfoldable pub resolve_key : Claimable → String
  unfolding resolve_version scope_key
  resolve_key g = scope_key version g.workspace (some g.agent) (resolve_version c.environment g s)

  abbrev pub group_target : Claimable → Target
  group_target g = record {
    key = resolve_key g;
    want = replicas c.policy g.depth;
    reason = depth g.depth;
  }

  -- the loop over the waiting groups: an entry under the same key is replaced
  unfoldable pub group_targets : List Claimable → List Target → List Target
  unfolding resolve_key
  group_targets [] ts = ts
  group_targets (g ∷ gs) ts =
      group_targets gs (if attributed g then Table.save target_key (group_target g) ts else ts)

  abbrev pub prewarm_row : Environment → List String → List String
  prewarm_row e rest = elim (given_text e.current_version_id) [
    | none ↦ rest
    | some v ↦
        if any_where (str_eq e.name) c.policy.prewarm_environments
          && (if str_eq e.agent "" then false else true)
        then join c.workspace (join ":" (join e.agent (join ":" v))) ∷ rest
        else rest
  ]

  -- _prewarm_keys
  unfoldable pub prewarm_keys : List Environment → List String
  prewarm_keys [] = []
  prewarm_keys (e ∷ es) = prewarm_row e (prewarm_keys es)

  abbrev pub warm_target : String → Target
  warm_target key = record { key = key; want = 1; reason = pre_warm }

  abbrev pub or_add : Option Target → Target → List Target → List Target
  or_add none t ts = Table.save target_key t ts
  or_add (some old) t ts = ts

  -- `targets.setdefault(key, ...)` for each key
  unfoldable pub warm_targets : List String → List Target → List Target
  warm_targets [] ts = ts
  warm_targets (k ∷ ks) ts = warm_targets ks (or_add (Table.get target_key k ts) (warm_target k) ts)

  abbrev pub sum_depth : List Claimable → ℕ
  sum_depth [] = 0
  sum_depth (g ∷ gs) = g.depth + sum_depth gs

  abbrev pub is_empty : List String → Bool
  is_empty [] = true
  is_empty (k ∷ ks) = false

  -- _tenant_targets
  unfoldable pub tenant_targets : View → List Target
  unfolding prewarm_keys
  tenant_targets v =
      let key = scope_key tenant c.workspace none none in
      let n = sum_depth v.claimable in
      if n == 0
      then if is_empty (prewarm_keys s.environments) then [] else warm_target key ∷ []
      else (record { key = key; want = replicas c.policy n; reason = depth n }) ∷ []

  -- _targets
  unfoldable pub targets : View → List Target
  unfolding group_targets warm_targets prewarm_keys tenant_targets
  targets v = elim c.scope [
    | tenant ↦ tenant_targets v
    | version ↦
        sorted key_before
          (warm_targets (prewarm_keys s.environments) (group_targets v.claimable []))
  ]
