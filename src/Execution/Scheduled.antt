-- ===== src/Execution/Scheduled.antt =====
-- Work that can run gets a worker (execution/supervisor.py, `plan`).
use rya.Prelude.{
  ℕ, zero, suc, ◌+◌, ◌-◌, ◌≤◌, String, ◌≡◌, refl, ap, ◌∙◌, true, false, Option, none, some, List,
  [], ◌∷◌, map, count_where, count_where-append, Member, All, All-Member, arith, eq_iff, inl, inr,
}
use rya.Prelude.Sort.{sorted, Member-sorted}
use rya.Errors.{ok}
use rya.Store.{Store}
use rya.Store.Docs.{Version, Worker}
use rya.Store.Table
use rya.Deployments.Tables.{version_get}
use rya.Deployments.Actions.{is_retired}
use rya.Quotas.Policy.{QuotaPolicy, resolve_quota}
use rya.Execution.Scope.{version, scope_key, ParsedKey, Claimable, attributed}
use rya.Execution.Keys.{IsKey, parse_key-scope_key}
use rya.Execution.Spent.{is_start_of, started_for}
use rya.Execution.Served.{groups-want, warm-keep}
use rya.Execution.Fleet.{
  Config, View, Target, target_key, Action, starts, WorkerSpec, Reason, live_count, total_live,
  replicas, resolve_version, resolve_key, worker_budget, group_target, group_targets, warm_target,
  warm_targets, or_add, prewarm_keys, targets, key_before, spec_at, if_live, parsed_spec, spec_for,
  start_each, start_spec, plan_target, plan_targets, reap_of, plan, budget_of, max_workers_of,
}

abbrev Positive : Target → Type 0
Positive t = 1 ≤ t.want

module _ (c : Config) (s : Store) (some_replica : 1 ≤ c.policy.max_replicas_per_key) where
  groups-Positive :
      (gs : List Claimable) (ts : List Target)
      → All Positive ts
      → All Positive (group_targets c s gs ts)
  unfolding group_targets replicas
  groups-Positive [] ts h = h
  groups-Positive (g ∷ gs) ts h = groups-Positive gs _ (
      ground (arith, h, Table.All-save target_key Positive (group_target c s g) ts (omega arith) h))

  or_add-Positive :
      (o : Option Target) (k : String) (ts : List Target)
      → All Positive ts
      → All Positive (or_add c s o (warm_target c s k) ts)
  or_add-Positive none k ts h =
      Table.All-save target_key Positive (warm_target c s k) ts (omega arith) h
  or_add-Positive (some t) k ts h = h

  warm-Positive :
      (ks : List String) (ts : List Target)
      → All Positive ts
      → All Positive (warm_targets c s ks ts)
  unfolding warm_targets
  warm-Positive [] ts h = h
  warm-Positive (k ∷ ks) ts h =
      warm-Positive ks _ (or_add-Positive (Table.get target_key k ts) k ts h)

module _ (c : Config) (s : Store) (v : View) where
  unlimited_each :
      (n : ℕ) (k : String) (a : Action)
      → is_start_of k a ≡ true
      → ((start_each c s n none a).1 ≡ none)
        × (count_where (is_start_of k) (start_each c s n none a).0 ≡ n)
  unfolding start_each
  unlimited_each zero k a h = (refl, refl)
  unlimited_each (suc n) k a h = ground (arith, unlimited_each n k a h)

  unlimited_rest : (n : ℕ) (a : Action) → (start_each c s n none a).1 ≡ none
  unfolding start_each
  unlimited_rest zero a = refl
  unlimited_rest (suc n) a = refl

  pub spec_rest :
      (o : Option WorkerSpec) (n : ℕ) (t : Target) → (start_spec c s o n t none).1 ≡ none
  spec_rest none n t = refl
  spec_rest (some p) n t = unlimited_rest n (starts t.key t.reason p)

  target_starts :
      (k : String) (t : Target) (ts : List Target)
      → Member t ts
      → t.key ≡ k
      → ((r : Reason) → (q : WorkerSpec) × (spec_for c s k r ≡ some q))
      → t.want - live_count k v ≤ started_for k (plan_targets c s v ts none)
  unfolding started_for plan_targets plan_target
  target_starts k t [] m e f = elim m [ ]
  target_starts k t (u ∷ ts) (inl q) e f =
      let (p, g) = f u.reason in
      let same : u.key ≡ k = cc (q, e) in
      let n = u.want - live_count u.key v in
      let opens : spec_for c s u.key u.reason ≡ some p = rw same g in
      let first = start_spec c s (spec_for c s u.key u.reason) n u none in
      let own =
        ap (λ o. count_where (is_start_of k) (start_spec c s o n u none).0) opens
        ∙ (unlimited_each n k (starts u.key u.reason p) ((eq_iff u.key k).1 same)).1 in
      ground (
        arith,
        count_where-append (is_start_of k) first.0 (plan_targets c s v ts first.1),
        own,
        ap (λ x. x.want) q,
        ap (λ x. live_count x v) same,
      )
  target_starts k t (u ∷ ts) (inr m) e f =
      let o = spec_for c s u.key u.reason in
      let n = u.want - live_count u.key v in
      let p = start_spec c s o n u none in
      ground (
        arith,
        count_where-append (is_start_of k) p.0 (plan_targets c s v ts p.1),
        ap (plan_targets c s v ts) (spec_rest o n u),
        target_starts k t ts m e f,
      )

  no_starts :
      (k : String) (ws : List Worker) → count_where (is_start_of k) (map (reap_of c s) ws) ≡ 0
  no_starts k [] = refl
  no_starts k (w ∷ ws) = no_starts k ws

  abbrev pub planned_key : Claimable → String → ParsedKey
  planned_key g i = record {
    scope = version;
    workspace = g.workspace;
    agent = some g.agent;
    version_id = some i;
  }

  pub key_opens :
      (g : Claimable) (i : String) (rec : Version)
      → version_get i s ≡ some rec
      → is_retired rec ≡ false
      → IsKey (planned_key g i)
      → (r : Reason)
      → spec_for c s (scope_key version g.workspace (some g.agent) (some i)) r
        ≡ some (spec_at c s (planned_key g i) r)
  unfolding spec_for
  key_opens g i rec found live h r =
      ap (λ k. parsed_spec c s k r) (parse_key-scope_key (planned_key g i) h)
      ∙ ap (λ o. if_live c s o (spec_at c s (planned_key g i) r)) found
      ∙ rw live refl

  abbrev table : List Target
  table = warm_targets c s (prewarm_keys c s s.environments) (group_targets c s v.claimable [])

  targets_by_version : c.scope ≡ version → targets c s v ≡ sorted key_before table
  unfolding targets
  targets_by_version e = rw e refl

  -- The target of a waiting group.
  pub group_has_target :
      (g : Claimable)
      → c.scope ≡ version
      → 1 ≤ c.policy.max_replicas_per_key
      → Member g v.claimable
      → attributed g ≡ true
      → (t : Target) × Member t (targets c s v) × (t.key ≡ resolve_key c s g) × (1 ≤ t.want)
  group_has_target g wide some_replica m at =
      let k = resolve_key c s g in
      let (t, got) =
        warm-keep c s k (prewarm_keys c s s.environments) _
          (groups-want c s g v.claimable [] m at) in
      let member = Table.get-Member target_key k t table got in
      (
        t,
        rw (targets_by_version wide) (Member-sorted key_before t table member),
        Table.get-id target_key k t table got,
        All-Member Positive t table
            (warm-Positive c s some_replica (prewarm_keys c s s.environments) _
              (groups-Positive c s some_replica v.claimable [] tt))
            member,
      )

  -- A waiting group whose version resolves to one that can run has a worker after the plan, where
  -- no limit is set.
  plan_serves :
      (g : Claimable) (i : String) (rec : Version) (p : QuotaPolicy)
      → c.scope ≡ version
      → 1 ≤ c.policy.max_replicas_per_key
      → resolve_quota s ≡ ok p
      → p.max_workers ≡ none
      → Member g v.claimable
      → attributed g ≡ true
      → resolve_version c.environment g s ≡ some i
      → version_get i s ≡ some rec
      → is_retired rec ≡ false
      → IsKey (planned_key g i)
      → 1 ≤ live_count (resolve_key c s g) v + started_for (resolve_key c s g) (plan c s v)
  unfolding plan worker_budget resolve_key started_for
  plan_serves g i rec p wide some_replica e f m at resolved found live h =
      let k = resolve_key c s g in
      let (t, member, named, wanted) = group_has_target g wide some_replica m at in
      let name : k ≡ scope_key version g.workspace (some g.agent) (some i) =
        ap (scope_key version g.workspace (some g.agent)) resolved in
      let ts = targets c s v in
      let unlimited : worker_budget v s ≡ none =
        ap (λ r. budget_of (max_workers_of r) (total_live v)) e
        ∙ ap (λ o. budget_of o (total_live v)) f in
      let opens =
        target_starts k t ts member named
          (λ r. (spec_at c s (planned_key g i) r, rw name (key_opens g i rec found live h r))) in
      ground (
        arith,
        wanted,
        opens,
        count_where-append (is_start_of k) (map (reap_of c s) v.lost)
            (plan_targets c s v ts (worker_budget v s)),
        no_starts k v.lost,
        ap (plan_targets c s v ts) unlimited,
      )
