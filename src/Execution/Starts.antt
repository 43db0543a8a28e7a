-- ===== src/Execution/Starts.antt =====
-- What a plan (execution/supervisor.py) starts for a waiting group.
use rya.Prelude.{
  ℕ, zero, suc, ◌-◌, ◌≤◌, ◌<◌, String, ◌≡◌, refl, ap, ◌∙◌, inl, inr, true, false, Option, none,
  some, List, [], ◌∷◌, map, Member, Member-append_left, Member-append_right, arith,
}
use rya.Errors.{ok}
use rya.Store.{Store}
use rya.Store.Docs.{Version}
use rya.Deployments.Tables.{version_get}
use rya.Deployments.Actions.{is_retired}
use rya.Quotas.Policy.{QuotaPolicy, resolve_quota}
use rya.Execution.Scope.{version, scope_key, Claimable, attributed}
use rya.Execution.Keys.{IsKey}
use rya.Execution.Fleet.{
  Config, View, Target, starts, WorkerSpec, Reason, live_count, total_live, resolve_version,
  resolve_key, worker_budget, targets, spec_at, spec_for, start_each, start_spec, plan_target,
  plan_targets, reap_of, plan, budget_of, max_workers_of,
}
use rya.Execution.Scheduled.{spec_rest, planned_key, key_opens, group_has_target}

module _ (c : Config) (s : Store) (v : View) where
  first_start :
      (n : ℕ) (o : Option WorkerSpec) (u : Target) (q : WorkerSpec)
      → o ≡ some q
      → 0 < n
      → Member (starts u.key u.reason q) (start_spec c s o n u none).0
  unfolding start_each
  first_start zero o u q e h = absurd (omega (arith, h))
  first_start (suc n) o u q e h = rw e (inl refl)

  target-Member :
      (k : String) (p : Reason → WorkerSpec) (t : Target) (ts : List Target)
      → Member t ts
      → t.key ≡ k
      → live_count k v < t.want
      → ((r : Reason) → spec_for c s k r ≡ some (p r))
      → Member (starts k t.reason (p t.reason)) (plan_targets c s v ts none)
  unfolding plan_targets plan_target start_each
  target-Member k p t [] m e w f = elim m [ ]
  target-Member k p t (u ∷ ts) (inl q) e w f =
      let same : u.key ≡ k = cc (q, e) in
      let n = u.want - live_count u.key v in
      let o = spec_for c s u.key u.reason in
      let missing : 0 < n = ground (arith, w, ap (λ x. x.want) q, ap (λ x. live_count x v) same) in
      rw (q, ← same)
        (Member-append_left _ (start_spec c s o n u none).0 _
          (first_start n o u (p u.reason) (rw same (f u.reason)) missing))
  target-Member k p t (u ∷ ts) (inr m) e w f =
      let n = u.want - live_count u.key v in
      let o = spec_for c s u.key u.reason in
      Member-append_right _ (start_spec c s o n u none).0 _
        (rw (spec_rest c s v o n u) (target-Member k p t ts m e w f))

  resolved_pin :
      (g : Claimable) (i : String)
      → g.version_id ≡ some i
      → resolve_version c.environment g s ≡ some i
  unfolding resolve_version
  resolved_pin g i e = rw e refl

  pub resolved_key :
      (g : Claimable) (i : String)
      → g.version_id ≡ some i
      → resolve_key c s g ≡ scope_key version g.workspace (some g.agent) (some i)
  unfolding resolve_key
  resolved_key g i e = ap (scope_key version g.workspace (some g.agent)) (resolved_pin g i e)

  -- The start of a group that has no worker.
  pub group_starts :
      (g : Claimable) (i : String) (rec : Version) (p : QuotaPolicy)
      → c.scope ≡ version
      → 1 ≤ c.policy.max_replicas_per_key
      → resolve_quota s ≡ ok p
      → p.max_workers ≡ none
      → Member g v.claimable
      → attributed g ≡ true
      → g.version_id ≡ some i
      → version_get i s ≡ some rec
      → is_retired rec ≡ false
      → IsKey (planned_key c s v g i)
      → live_count (resolve_key c s g) v ≡ 0
      → (r : Reason) × Member
          (starts (resolve_key c s g) r (spec_at c s (planned_key c s v g i) r))
          (plan c s v)
  unfolding plan worker_budget
  group_starts g i rec p wide some_replica e f m at pinned found live h none_live =
      let k = resolve_key c s g in
      let (t, member, named, wanted) = group_has_target c s v g wide some_replica m at in
      let name : k ≡ scope_key version g.workspace (some g.agent) (some i) =
        resolved_key g i pinned in
      let unlimited : worker_budget v s ≡ none =
        ap (λ x. budget_of (max_workers_of x) (total_live v)) e
        ∙ ap (λ o. budget_of o (total_live v)) f in
      let q = spec_at c s (planned_key c s v g i) in
      (
        t.reason,
        Member-append_right _ (map (reap_of c s) v.lost) _ (
            rw unlimited (
              target-Member k q t (targets c s v) member named (omega (arith, none_live, wanted))
                (λ r. rw name (key_opens c s v g i rec found live h r)))),
      )
