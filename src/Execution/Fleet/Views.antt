-- ===== src/Execution/Fleet/Views.antt =====
-- execution/supervisor.py: what a supervisor sees, how many workers live, and how many it may add.
use rya.Prelude.{
  ℕ, ◌+◌, ◌-◌, ◌/◌, min, max, String, Bool, Option, none, some, List, [], ◌∷◌, ◌++◌, map,
  count_where, str_eq, if◌then◌else◌,
}
use rya.Errors.{Result, ok, err}
use rya.Store.{Store}
use rya.Store.Docs.{Worker}
use rya.Store.Queue.{text_or}
use rya.Quotas.Policy.{QuotaPolicy, resolve_quota}
use rya.Execution.Scope.{Scope, Claimable}
use rya.Execution.Peek.{any_where}

-- SupervisorPolicy, the fields that a plan and its lease depend on
pub record SupervisorPolicy : Type 0 where
  pub backlog_per_worker : ℕ
  pub max_replicas_per_key : ℕ
  pub prewarm_environments : List String
  pub allow_unpinned : Bool
  pub require_lease : Bool
  pub lease_seconds : ℕ

-- What a supervisor is made with; `has_project` says that a project root is given.
pub record Config : Type 0 where
  pub id : String
  pub workspace : String
  pub environment : Option String
  pub has_project : Bool
  pub policy : SupervisorPolicy
  pub scope : Scope

-- WorkerHandle
pub record WorkerHandle : Type 0 where
  pub id : String
  pub key : String

-- the reason of a start; it is a text there
pub data Reason : Type 0 where
  depth : ℕ → Reason
  pre_warm : Reason

-- WorkerSpec, less the fields that are copied from the policy
pub record WorkerSpec : Type 0 where
  pub workspace : String
  pub agent : String
  pub version_id : Option String
  pub environment : Option String
  pub reason : Reason
  pub scope : Scope
  pub prewarm : List String

-- Action
pub data Action : Type 0 where
  reaps : (key worker : String) → Action
  starts : (key : String) → Reason → WorkerSpec → Action
  stops : (key : String) → WorkerHandle → Action

-- What `observe` returns. The groups by key are read off the lists.
pub record View : Type 0 where
  pub alive : List Worker
  pub lost : List Worker
  pub launched : List WorkerHandle
  pub claimable : List Claimable

abbrev pub worker_key : Worker → String
worker_key w = text_or w.concurrency_key ""

abbrev pub at_key : String → Worker → Bool
at_key key w = str_eq (worker_key w) key

abbrev pub handle_at : String → WorkerHandle → Bool
handle_at key h = str_eq h.key key

-- _live_count
unfoldable pub live_count : String → View → ℕ
live_count key v = max (count_where (at_key key) v.alive) (count_where (handle_at key) v.launched)

abbrev pub add_key : String → List String → List String
add_key k ks = if any_where (str_eq k) ks then ks else k ∷ ks

-- `set(...)`
abbrev pub key_set : List String → List String
key_set [] = []
key_set (k ∷ ks) = add_key k (key_set ks)

abbrev pub handle_key : WorkerHandle → String
handle_key h = h.key

abbrev pub sum_live : List String → View → ℕ
sum_live [] v = 0
sum_live (k ∷ ks) v = live_count k v + sum_live ks v

-- the workers of all keys, each counted once
unfoldable pub total_live : View → ℕ
total_live v = sum_live (key_set (map worker_key v.alive ++ map handle_key v.launched)) v

abbrev pub max_workers_of : Result QuotaPolicy → Option ℕ
max_workers_of (err c) = none
max_workers_of (ok p) = p.max_workers

abbrev pub budget_of : Option ℕ → ℕ → Option ℕ
budget_of none n = none
budget_of (some limit) n = some (limit - n)

-- _worker_budget
unfoldable pub worker_budget : View → Store → Option ℕ
worker_budget v s = budget_of (max_workers_of (resolve_quota s)) (total_live v)

-- `min(max_replicas_per_key, max(1, -(-depth // max(1, backlog_per_worker))))`
unfoldable pub replicas : SupervisorPolicy → ℕ → ℕ
replicas p n =
    let each = max 1 p.backlog_per_worker in
    min p.max_replicas_per_key (max 1 ((n + (each - 1)) / each))
