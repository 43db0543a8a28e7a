-- ===== src/Tests/Execution.antt =====
-- The theorems of Execution at concrete inputs: a workspace with one agent and two waiting turns.
use mathlib.Core.Option.{some-injective}
use rya.Prelude.{
  ◌≢◌, ◌⊎◌, Option, ℕ, zero, suc, ◌+◌, ◌-◌, ◌≤◌, max, String, ◌≡◌, refl, ◌↔◌, ◌⊎◌, inl, inr, true,
  false, none, some, List, [], ◌∷◌, All, Member, arith,
}
use rya.Prelude.Sort
use rya.Prelude.Int.{pos}
use rya.Json.{null, obj, field, whole, end}
use rya.Errors.{Code, Result, ok, err, python_error}
use rya.Store.{Store, empty}
use rya.Store.Table
use rya.Store.Docs.{Version, active, Worker, WorkerStatus, QueueJob, Job, JobState}
use rya.Store.Queue.{queue_list, dispatch_before}
use rya.Store.Jobs.{list_jobs}
use rya.Store.Reads.{policy_get, worker_liveness}
use rya.Store.Leases.{lease_acquire, lease_get, is_taken}
use rya.Store.Workers.{worker_list, worker_deregister}
use rya.Queue.Claim.{agent_of, version_of, is_foreign}
use rya.Quotas.Casts.{int_of}
use rya.Quotas.Policy.{unlimited, resolve_quota, coerce_row, coerce_policy, all_known, coerce_limit}
use rya.Execution.Scope.{version, ParsedKey, scope_key, parse_key, Claimable}
use rya.Execution.Keys.{has_colon, parse_key-scope_key}
use rya.Execution.Peek.{peek}
use rya.Execution.Waiting.{depth_at, work_for, peek_depth}
use rya.Execution.Unordered.{HasMixedWork, peek_fails}
use rya.Execution.Fleet.{
  Reason, starts, WorkerSpec, Config, SupervisorPolicy, WorkerHandle, View, live_count, total_live,
  plan,
}
use rya.Execution.Spent.{started, started_for}
use rya.Execution.Budget.{plan_bounded}
use rya.Execution.Served.{Runs, plan-Runs}
use rya.Execution.Reached.{waiting_work_gets_worker}
use rya.Execution.Supervisor.{file_acquire, Driver, Supervisor, World, Tick, tick, observe}
use rya.Execution.Standby.{standby_waits}
use rya.Execution.Rounds.{drained, ready, drain_tenant, candidates_of, served_of}
use rya.Execution.Drained.{drain_finishes}
use rya.Execution.Fair.{dispatches, dispatch, times, waits_bounded}
use rya.Tests.Queue.{distinct, waiting}

abbrev pinned_key : ParsedKey
pinned_key = record {
  scope = version;
  workspace = "acme";
  agent = some "mailer";
  version_id = some "v1";
}

parse_key-scope_key_example :
    parse_key (scope_key version "acme" (some "mailer") (some "v1")) ≡ ok pinned_key
unfolding has_colon
parse_key-scope_key_example = parse_key-scope_key pinned_key (
  refl,
  refl,
  (distinct "mailer" "" refl, distinct "mailer" "" refl),
  (distinct "v1" "" refl, distinct "v1" "local" refl),
  inl (λ e. distinct "mailer" "*" refl (some-injective _ _ e)),
)

abbrev turn : String → QueueJob
turn i = record waiting {
  id = i;
  type = "chat-turn";
  metadata = ("agent", "mailer") ∷ ("versionId", "v1") ∷ [];
}

abbrev v1 : Version
v1 = record {
  id = "v1";
  agent = "mailer";
  bundle_hash = "h";
  sdk_version = "1";
  entrypoint = "agent.py";
  lockfile = none;
  size_bytes = 10;
  file_count = 2;
  manifest = end;
  state = active;
  metadata = end;
  created_by = none;
  created_at = 5;
  retired_at = none;
}

abbrev two_turns : Store
two_turns = record empty { queue = turn "a" ∷ turn "b" ∷ []; versions = v1 ∷ [] }

abbrev group : ℕ → Claimable
group n = record { workspace = "acme"; agent = "mailer"; version_id = some "v1"; depth = n }

peek_depth_example :
    depth_at "mailer" (some "v1") (group 2 ∷ []) ≡ work_for 200 "mailer" (some "v1") two_turns
unfolding peek queue_list Sort.sorted dispatch_before list_jobs agent_of version_of
peek_depth_example = peek_depth "acme" 200 two_turns (group 2 ∷ []) "mailer" (some "v1") refl

abbrev reminder : Job
reminder = record {
  id = "job_1";
  parent_run_id = none;
  handler = "report";
  payload = null;
  status = JobState.pending;
  run_at = 100;
  attempts = 0;
  max_attempts = 3;
  last_error = none;
  created_at = 90;
  result_run_id = none;
  group_id = none;
  agent = some "mailer";
}

abbrev mixed : Store
mixed = record two_turns { jobs = reminder ∷ [] }

peek_fails_example : (peek "acme" none 200 mixed ≡ err python_error) ↔ HasMixedWork 200 mixed
peek_fails_example = peek_fails "acme" none 200 mixed

abbrev policy : SupervisorPolicy
policy = record {
  backlog_per_worker = 5;
  max_replicas_per_key = 4;
  prewarm_environments = [];
  allow_unpinned = true;
  require_lease = true;
  lease_seconds = 30;
}

abbrev config : String → Config
config i = record {
  id = i;
  workspace = "acme";
  environment = none;
  has_project = false;
  policy = policy;
  scope = version;
}

abbrev crashed : Worker
crashed = record {
  id = "wrk_1";
  concurrency_key = some "acme:mailer:v1";
  status = WorkerStatus.lost;
  started_at = 10;
  last_heartbeat_at = some 20;
  stopped_at = none;
  stop_reason = none;
}

abbrev view : View
view = record { alive = []; lost = crashed ∷ []; launched = []; claimable = group 40 ∷ [] }

abbrev capped : Store
capped = record two_turns {
  policies =
      (record {
        key = "quotas";
        value = obj (field "maxWorkers" (whole (pos 3)) end);
        version = 1;
        actor = none;
        previous = null;
        changed_at = 5;
      })
      ∷ [];
}

plan_bounded_example :
    (total_live view + started (plan (config "a") capped view) ≤ max (total_live view) 3)
    × (live_count "acme:mailer:v1" view
          + started_for "acme:mailer:v1" (plan (config "a") capped view)
        ≤ max (live_count "acme:mailer:v1" view) (max 1 4))
unfolding resolve_quota coerce_row policy_get Table.get coerce_policy all_known coerce_limit int_of
plan_bounded_example =
    plan_bounded (config "a") capped view (record unlimited { max_workers = some 3 }) 3
      "acme:mailer:v1" refl refl

plan-Runs_example : All (Runs (config "a") two_turns) (plan (config "a") two_turns view)
plan-Runs_example = plan-Runs (config "a") two_turns view

-- a driver that only keeps a list
abbrev listing : Driver (List WorkerHandle)
listing = record {
  list = λ hs. ok hs;
  start =
      λ p hs. let h : WorkerHandle = record { id = "h1"; key = "acme:mailer:v1" } in (ok h, h ∷ hs);
  stop = λ h hs. (ok tt, []);
}

abbrev idle : Supervisor
idle = record { started = []; ticks = 0; actions = []; lease = none; passive = false }

abbrev world : Store → World (List WorkerHandle)
world s = record { supervisor = idle; driven = []; store = s }

abbrev tick_of : Result Tick → Tick
tick_of (ok t) = t
tick_of (err e) = record {
  number = 0;
  done = [];
  alive_count = 0;
  lost_count = 0;
  passive = true;
  withheld = [];
}

-- a worker that has sent no heartbeat for long
abbrev left_alone : Store
left_alone = record empty { workers = record crashed { status = WorkerStatus.alive } ∷ [] }

abbrev first_tick : Result Tick × World (List WorkerHandle)
first_tick = tick listing (some (file_acquire none)) (config "a") 200 (world left_alone)

abbrev second_tick : Result Tick × World (List WorkerHandle)
second_tick = tick listing (some (file_acquire none)) (config "b") 210 (world first_tick.1.store)

abbrev no_outage : Option Code
no_outage = none

standby_waits_example :
    ((no_outage ≡ none)
      × ((tick_of second_tick.0).passive ≡ true)
      × ((tick_of second_tick.0).done ≡ [])
      × (second_tick.1.driven ≡ [])
      × (second_tick.1.store ≡ first_tick.1.store))
    ⊎ ((no_outage ≢ none) × ((tick_of second_tick.0).passive ≡ false))
unfolding tick peek queue_list Sort.sorted list_jobs lease_acquire is_taken lease_get Table.get plan
    worker_list Table.save worker_deregister worker_liveness
standby_waits_example =
    standby_waits listing listing (config "a") (config "b") 200 210 no_outage (world left_alone)
      first_tick.1 (world first_tick.1.store) second_tick.1 (tick_of first_tick.0)
      (tick_of second_tick.0) refl refl refl (distinct "a" "b" refl) refl refl refl (omega arith)
      refl

abbrev other_group : Claimable
other_group = record { workspace = "acme"; agent = "billing"; version_id = some "v2"; depth = 1 }

waits_bounded_example :
    times "acme:mailer:v1"
      (dispatches (([], group 40 ∷ other_group ∷ []) ∷ []) (("acme:billing:v2", 2) ∷ []))
    ≤ 3 - 0
unfolding dispatches dispatch ready Sort.sorted served_of
waits_bounded_example =
    waits_bounded other_group "acme:mailer:v1" (([], group 40 ∷ other_group ∷ []) ∷ [])
      (("acme:billing:v2", 2) ∷ []) ((inr (inl refl), refl), tt) refl

drain_finishes_example :
    let end =
      drain_tenant
        (λ g v n. (drained 1, suc n))
        (λ n. two_turns)
        none
        (group 40 ∷ other_group ∷ [])
        []
        3
        zero in
    (end.budget ≡ 0)
    ⊎ (ready end.fair end.exhausted (candidates_of (group 40 ∷ other_group ∷ [])) ≡ [])
drain_finishes_example =
    drain_finishes (λ g v n. (drained 1, suc n)) (λ n. two_turns) none (group 40 ∷ other_group ∷ [])
      [] 3 zero

abbrev seen_view : View
seen_view = record { alive = []; lost = []; launched = []; claimable = group 2 ∷ [] }

waiting_work_gets_worker_example :
    (key : String) × (r : Reason) × (q : WorkerSpec) × Member
      (starts key r q)
      (plan (config "a") two_turns seen_view)
    × (q.workspace ≡ "acme")
    × (is_foreign q.version_id (some q.agent) (turn "a") ≡ false)
unfolding observe peek queue_list Sort.sorted dispatch_before list_jobs agent_of version_of
    resolve_quota coerce_row policy_get Table.get coerce_policy all_known coerce_limit has_colon
    worker_list live_count
waiting_work_gets_worker_example =
    waiting_work_gets_worker listing (config "a") 200 (world two_turns) seen_view (turn "a")
      "mailer" "v1" v1 unlimited refl
      (record {
        found = inl refl;
        status = refl;
        kind = inl refl;
        agent = refl;
        pinned = refl;
        named = distinct "mailer" "" refl;
      })
      refl (omega arith) refl refl refl refl
      (
        refl,
        refl,
        (distinct "mailer" "" refl, distinct "mailer" "" refl),
        (distinct "v1" "" refl, distinct "v1" "local" refl),
        inl (λ e. distinct "mailer" "*" refl (some-injective _ _ e)),
      )
      refl
