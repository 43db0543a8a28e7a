-- ===== src/Quotas/Admission.antt =====
-- quotas.py: whether new work is admitted. Each count is read from the tables of the store.
use rya.Prelude.{
  ℕ, ◌-◌, ◌%◌, Bool, true, false, ◌&&◌, ◌||◌, Option, none, some, List, [], ◌∷◌, ◌++◌, leb,
  if◌then◌else◌,
}
use rya.Json.{Json}
use rya.Errors.{Exec, Result, ok, err, e_quota_exceeded, pure, raise, ◌>>=◌, ◌>>◌}
use rya.Store.{Store}
use rya.Store.Docs.{pending}
use rya.Store.Queue.{queue_count}
use rya.Store.Reads.{unfinished_runs, runs_since, tokens_since, cost_since, alive_workers}
use rya.Orgs.{org_violations}
use rya.Purge.{require_active}
use rya.Quotas.Policy.{
  Resource, concurrent_runs, runs_today, queue_depth, tokens_today, cost_today, workers,
  QuotaPolicy, limit_of, resolve_quota,
}

-- The kind of work to admit.
pub data Kind : Type 0 where
  run job worker model any : Kind

-- _day_start
abbrev pub day_start : ℕ → ℕ
day_start now = now - now % 86400

-- What is consumed; `none` is a resource that was not asked for.
abbrev pub Usage : Type 0
Usage = Resource → Option ℕ

-- the value of each entry of `_usage_for`
unfoldable pub consumption : ℕ → Store → Resource → ℕ
consumption now s concurrent_runs = unfinished_runs s.runs
consumption now s runs_today = runs_since (day_start now) s.runs
consumption now s queue_depth = queue_count pending s.queue
consumption now s tokens_today = tokens_since (day_start now) s.meter
consumption now s cost_today = cost_since (day_start now) s.meter
consumption now s workers = alive_workers now s.workers

-- the tokens and the cost come together
abbrev asked : (Resource → Bool) → Resource → Bool
asked keys tokens_today = keys tokens_today || keys cost_today
asked keys cost_today = keys tokens_today || keys cost_today
asked keys r = keys r

-- _usage_for
unfoldable pub usage_for : (Resource → Bool) → ℕ → Store → Usage
usage_for keys now s r = if asked keys r then some (consumption now s r) else none

-- usage_snapshot
unfoldable pub usage_snapshot : ℕ → Store → Usage
usage_snapshot now s = usage_for (λ r. true) now s

-- the last column of `_LIMITS`, and the test `kind == "any" or applies_to in ("any", kind)`
unfoldable pub applies_to : Kind → Resource → Bool
applies_to any r = true
applies_to k tokens_today = true
applies_to k cost_today = true
applies_to run concurrent_runs = true
applies_to run runs_today = true
applies_to job queue_depth = true
applies_to worker workers = true
applies_to k r = false

pub data Violation : Type 0 where
  workspace : Resource → (current max : ℕ) → Violation
  org : Json → Violation

abbrev is_some {ℓ} : {A : Type ℓ} → Option A → Bool
is_some none = false
is_some (some a) = true

-- `applicable`, as a test on resources
unfoldable pub applicable : QuotaPolicy → Kind → Resource → Bool
applicable p k r = is_some (limit_of p r) && applies_to k r

abbrev pub or_zero : Option ℕ → ℕ
or_zero none = 0
or_zero (some n) = n

-- a limit at its ceiling
abbrev over : Resource → ℕ → Option ℕ → List Violation
over r current none = []
over r current (some limit) = if leb limit current then workspace r current limit ∷ [] else []

unfoldable pub violation_of : QuotaPolicy → Kind → Usage → Resource → List Violation
violation_of p k usage r = if applies_to k r then over r (or_zero (usage r)) (limit_of p r) else []

abbrev pub orgs_of : List Json → List Violation
orgs_of [] = []
orgs_of (v ∷ vs) = org v ∷ orgs_of vs

-- the rows of `_LIMITS` in order, then those of the organization
unfoldable pub violations : QuotaPolicy → Kind → Usage → List Json → List Violation
violations p k usage orgs =
    violation_of p k usage concurrent_runs
    ++ (violation_of p k usage runs_today
        ++ (violation_of p k usage queue_depth
            ++ (violation_of p k usage tokens_today
                ++ (violation_of p k usage cost_today
                    ++ (violation_of p k usage workers ++ orgs_of orgs)))))

pub record Verdict : Type 0 where
  pub allowed : Bool
  pub policy : QuotaPolicy
  pub violations : List Violation
  pub usage : Usage

abbrev pub is_empty {ℓ} : {A : Type ℓ} → List A → Bool
is_empty [] = true
is_empty (x ∷ xs) = false

-- `usage` as it was given, or what the applicable limits need
abbrev pub usage_or : Option Usage → QuotaPolicy → Kind → ℕ → Store → Usage
usage_or (some u) p k now s = u
usage_or none p k now s = usage_for (applicable p k) now s

unfoldable pub verdict_of : QuotaPolicy → Kind → Option Usage → ℕ → Store → Verdict
verdict_of p k given now s =
    let usage = usage_or given p k now s in
    let found = violations p k usage (org_violations s) in
    record { allowed = is_empty found; policy = p; violations = found; usage = usage }

-- check_admission
unfoldable pub check_admission : Kind → Option Usage → ℕ → Store → Result Verdict
check_admission k given now s = elim (resolve_quota s) [
  | ok p ↦ ok (verdict_of p k given now s)
  | err c ↦ err c
]

-- require_admission: a disabled workspace is refused before its quota is read
unfoldable pub require_admission : Kind → Option Usage → ℕ → Exec Store Verdict
require_admission k given now = do
  require_active
  verdict ← (λ s. (check_admission k given now s, s))
  if verdict.allowed then pure verdict else raise e_quota_exceeded
