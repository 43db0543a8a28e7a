-- ===== src/Execution/Budget.antt =====
-- How many workers a plan starts (execution/supervisor.py, `plan`), in all and for one key.
use rya.Prelude.{ℕ, ◌+◌, ◌-◌, ◌≤◌, max, String, ◌≡◌, ap, ◌∙◌, some, map, count_where-append, arith}
use rya.Errors.{ok}
use rya.Store.{Store}
use rya.Quotas.Policy.{QuotaPolicy, resolve_quota}
use rya.Execution.Fleet.{
  Config, View, live_count, total_live, worker_budget, targets, plan_targets, reap_of, plan,
  budget_of, max_workers_of,
}
use rya.Execution.Spent.{is_start, is_start_of, started, started_for, targets-within, no_starts}
use rya.Execution.Replicas.{key-within, targets-IsPlanned, no_starts_for}

module _ (c : Config) (s : Store) where
  -- Under a limit on workers, the live workers of the view and those that the plan starts are no
  -- more than that limit, or than the live ones if these are more already; and those of any one
  -- key are no more than the replicas allowed per key (at least one), or than the live ones of
  -- the key.
  pub plan_bounded :
      (v : View) (p : QuotaPolicy) (limit : ℕ) (key : String)
      → resolve_quota s ≡ ok p
      → p.max_workers ≡ some limit
      → (total_live v + started (plan c s v) ≤ max (total_live v) limit)
        × (live_count key v + started_for key (plan c s v)
            ≤ max (live_count key v) (max 1 c.policy.max_replicas_per_key))
  unfolding plan worker_budget started started_for
  plan_bounded v p limit key e f =
      let ts = targets c s v in
      let b = worker_budget v s in
      let (unique, wants) = targets-IsPlanned c s v in
      let known : b ≡ some (limit - total_live v) =
        ap (λ r. budget_of (max_workers_of r) (total_live v)) e
        ∙ ap (λ o. budget_of o (total_live v)) f in
      (
        ground (
          arith,
          count_where-append is_start (map (reap_of c s) v.lost) (plan_targets c s v ts b),
          no_starts c s v.lost,
          ap (plan_targets c s v ts) known,
          targets-within c s v ts (limit - total_live v),
        ),
        ground (
          arith,
          count_where-append (is_start_of key) (map (reap_of c s) v.lost) (plan_targets c s v ts b),
          no_starts_for c s key v.lost,
          key-within c s (max 1 c.policy.max_replicas_per_key) key v ts b unique wants,
        ),
      )
