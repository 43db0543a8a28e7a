-- ===== src/Execution/Fleet/Plans.antt =====
-- execution/supervisor.py: what can be launched for a key (`_spec_for`), and the `plan`.
use rya.Prelude.{
  ℕ, zero, suc, ◌-◌, String, ◌&&◌, Option, none, some, List, [], ◌∷◌, ◌++◌, map, if◌then◌else◌,
}
use rya.Errors.{Result, ok, err}
use rya.Store.{Store}
use rya.Store.Docs.{Worker, Version}
use rya.Store.Queue.{text_or}
use rya.Deployments.Tables.{version_get}
use rya.Deployments.Actions.{is_retired}
use rya.Execution.Scope.{version, tenant, parse_key, ParsedKey}
use rya.Execution.Fleet.Views.{
  Config, Reason, WorkerSpec, Action, reaps, starts, View, worker_key, live_count, worker_budget,
}
use rya.Execution.Fleet.Targets.{Target, targets}

module _ (c : Config) (s : Store) where
  abbrev pub spec_at : ParsedKey → Reason → WorkerSpec
  spec_at k r = record {
    workspace = k.workspace;
    agent = text_or k.agent "";
    version_id = k.version_id;
    environment = c.environment;
    reason = r;
    scope = version;
    prewarm = [];
  }

  -- the version record of a pinned key
  abbrev pub if_live : Option Version → WorkerSpec → Option WorkerSpec
  if_live none p = none
  if_live (some v) p = if is_retired v then none else some p

  abbrev pub version_spec : ParsedKey → Reason → Option WorkerSpec
  version_spec k r = elim k.version_id [
    | none ↦ if c.policy.allow_unpinned && c.has_project then some (spec_at k r) else none
    | some v ↦ if_live (version_get v s) (spec_at k r)
  ]

  abbrev pub parsed_spec : Result ParsedKey → Reason → Option WorkerSpec
  parsed_spec (err e) r = none
  parsed_spec (ok k) r = elim k.scope [
    | tenant ↦ some (record {
      workspace = k.workspace;
      agent = "";
      version_id = none;
      environment = c.environment;
      reason = r;
      scope = tenant;
      prewarm = c.policy.prewarm_environments;
    })
    | version ↦ version_spec k r
  ]

  -- _spec_for
  unfoldable pub spec_for : String → Reason → Option WorkerSpec
  spec_for key r = parsed_spec (parse_key key) r

  -- the inner loop of `plan`, with the budget that is left
  unfoldable pub start_each : ℕ → Option ℕ → Action → List Action × Option ℕ
  start_each zero b a = ([], b)
  start_each (suc n) none a = (a ∷ (start_each n none a).0, none)
  start_each (suc n) (some zero) a = ([], some zero)
  start_each (suc n) (some (suc b)) a = let rest = start_each n (some b) a in (a ∷ rest.0, rest.1)

  abbrev pub start_spec : Option WorkerSpec → ℕ → Target → Option ℕ → List Action × Option ℕ
  start_spec none n t b = ([], b)
  start_spec (some p) n t b = start_each n b (starts t.key t.reason p)

  -- one round of the outer loop; a want that is met is a missing number of 0
  unfoldable pub plan_target : View → Target → Option ℕ → List Action × Option ℕ
  unfolding spec_for start_each
  plan_target v t b = start_spec (spec_for t.key t.reason) (t.want - live_count t.key v) t b

  unfoldable pub plan_targets : View → List Target → Option ℕ → List Action
  unfolding plan_target
  plan_targets v [] b = []
  plan_targets v (t ∷ ts) b = let p = plan_target v t b in p.0 ++ plan_targets v ts p.1

  abbrev pub reap_of : Worker → Action
  reap_of w = reaps (worker_key w) w.id

  -- plan
  unfoldable pub plan : View → List Action
  unfolding targets plan_targets worker_budget
  plan v = map reap_of v.lost ++ plan_targets v (targets c s v) (worker_budget v s)
