-- ===== src/Quotas/Policy.antt =====
-- quotas.py: the limits of a workspace and the policy row that holds them. A cost is in millionths of
-- a dollar, which the code rounds to.
use rya.Prelude.{ℕ, String, Bool, true, not, ◌&&◌, ◌||◌, Option, none, some, str_eq, if◌then◌else◌}
use rya.Prelude.Int.{ℤ, pos, negsuc}
use rya.Json.{Json, null, obj, Fields, end, field, get_field, truthy}
use rya.Errors.{Exec, Result, ok, err, e_validation, e_quota_exceeded}
use rya.Store.{Store}
use rya.Store.Reads.{policy_get, policy_set}
use rya.Quotas.Casts.{int_of, float_of}

-- What a limit counts: the first column of `_LIMITS`.
pub data Resource : Type 0 where
  concurrent_runs runs_today queue_depth tokens_today cost_today workers : Resource

-- QuotaPolicy: the limit on each resource; `none` is unlimited
pub record QuotaPolicy : Type 0 where
  pub max_concurrent_runs : Option ℕ
  pub max_runs_per_day : Option ℕ
  pub max_queue_depth : Option ℕ
  pub max_tokens_per_day : Option ℕ
  pub max_cost_per_day : Option ℕ
  pub max_workers : Option ℕ

unfoldable pub limit_of : QuotaPolicy → Resource → Option ℕ
limit_of p concurrent_runs = p.max_concurrent_runs
limit_of p runs_today = p.max_runs_per_day
limit_of p queue_depth = p.max_queue_depth
limit_of p tokens_today = p.max_tokens_per_day
limit_of p cost_today = p.max_cost_per_day
limit_of p workers = p.max_workers

abbrev pub unlimited : QuotaPolicy
unlimited = record {
  max_concurrent_runs = none;
  max_runs_per_day = none;
  max_queue_depth = none;
  max_tokens_per_day = none;
  max_cost_per_day = none;
  max_workers = none;
}

-- the keys of `_QUOTA_FIELDS`
abbrev known_key : String → Bool
known_key k =
    str_eq k "maxConcurrentRuns"
    || str_eq k "maxRunsPerDay"
    || str_eq k "maxQueueDepth"
    || str_eq k "maxTokensPerDay"
    || str_eq k "maxCostUsdPerDay"
    || str_eq k "maxWorkers"

unfoldable pub all_known : Fields → Bool
all_known end = true
all_known (field k v fs) = known_key k && all_known fs

-- one round of the loop of `_coerce`: a value that the cast refuses, or a negative one, is an error
abbrev checked : Option ℤ → Result (Option ℕ)
checked none = err e_validation
checked (some (pos n)) = ok (some n)
checked (some (negsuc n)) = err e_validation

unfoldable pub coerce_limit : (Json → Option ℤ) → Json → Result (Option ℕ)
coerce_limit cast null = ok none
coerce_limit cast v = checked (cast v)

infixl 5 ◌>>=ᵣ◌
abbrev ◌>>=ᵣ◌ : {A B : Type 0} → Result A → (A → Result B) → Result B
ok a >>=ᵣ f = f a
err c >>=ᵣ f = err c

-- _coerce
unfoldable pub coerce_policy : Fields → Result QuotaPolicy
coerce_policy fs =
    if not (all_known fs)
    then err e_validation
    else coerce_limit int_of (get_field "maxConcurrentRuns" fs) >>=ᵣ λ a.
        coerce_limit int_of (get_field "maxRunsPerDay" fs) >>=ᵣ λ b.
        coerce_limit int_of (get_field "maxQueueDepth" fs) >>=ᵣ λ c.
        coerce_limit int_of (get_field "maxTokensPerDay" fs) >>=ᵣ λ d.
        coerce_limit float_of (get_field "maxCostUsdPerDay" fs) >>=ᵣ λ e.
        coerce_limit int_of (get_field "maxWorkers" fs) >>=ᵣ λ f. ok (record {
          max_concurrent_runs = a;
          max_runs_per_day = b;
          max_queue_depth = c;
          max_tokens_per_day = d;
          max_cost_per_day = e;
          max_workers = f;
        })

-- `policy_get(POLICY_KEY) or {}`, which must be an object
unfoldable pub coerce_row : Json → Result QuotaPolicy
coerce_row (obj fs) = coerce_policy fs
coerce_row v = if truthy v then err e_quota_exceeded else coerce_policy end

-- resolve_quota
unfoldable pub resolve_quota : Store → Result QuotaPolicy
resolve_quota s = coerce_row (policy_get "quotas" s)

-- set_quota; `null` clears the policy
unfoldable pub set_quota : ℕ → Json → Option String → Exec Store Unit
set_quota now null actor s = (ok tt, policy_set now "quotas" null actor s)
set_quota now (obj fs) actor s = elim (coerce_policy fs) [
  | ok p ↦ (ok tt, policy_set now "quotas" (obj fs) actor s)
  | err c ↦ (err c, s)
]
set_quota now v actor s = (err e_validation, s)
