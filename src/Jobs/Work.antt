-- ===== src/Jobs/Work.antt =====
-- runtime/engine.py: `run_job` and `retry_job`. `handles` tells which handlers the agent has, and
-- `execute` what `_execute` does to the store, and the end of the run, or the exception that it
-- lets through: `save_run` raises behind its `try` when the handler's result is no JSON.
use rya.Prelude.{
  ℕ, suc, zero, ◌+◌, ◌^◌, min, String, Bool, true, false, Option, none, some, [], ◌∷◌, ltb,
  if◌then◌else◌,
}
use rya.Json.{null}
use rya.Errors.{
  Exec, ok, err, e_job_not_found, e_handler_not_found, e_validation, pure, ◌>>=◌, ◌>>◌, raise,
  then_run,
}
use rya.Store.{Store}
use rya.Store.Docs.{Job, JobState, Run, RunStatus, OnComplete}
use rya.Store.Runs.{save_run}
use rya.Store.Jobs.{get_job, save_job, create_job, same_state}
use rya.Store.Groups.{group_job_done}
use rya.Quotas.Admission.{require_admission, run}
use rya.Turns.Start.{TurnSource, version_or}
use rya.Queue.Enqueue.{given_id}

-- How a run ended: its status and the message of its error.
pub record Ended : Type 0 where
  pub status : RunStatus
  pub message : Option String

-- What one call is given: the clock, the ids that it makes, and the engine's environment.
pub record Worked : Type 0 where
  pub now : ℕ
  pub run_id : String
  pub next_id : String
  pub environment : Option String

-- _new_run, for a job
unfoldable pub job_run : Worked → TurnSource → Job → Run
job_run w source j = record {
  id = w.run_id;
  agent = source.agent;
  agent_version = version_or (given_id source.version.manifest_version) source.agent_version;
  version_id = source.version.id;
  bundle_hash = source.version.bundle_hash;
  sdk_version = source.version.sdk_version;
  environment = w.environment;
  trigger = "job";
  status = RunStatus.running;
  event = null;
  identity = null;
  turn_id = none;
  journal = [];
  trace = (record { seq = 0; ts = w.now; kind = "run.started"; label = "job" }) ∷ [];
  pending_approval = none;
  error = none;
  parent_run_id = j.parent_run_id;
  created_at = w.now;
  updated_at = w.now;
}

-- only a run with no parent is subject to the quota
abbrev pub admitted : Option String → ℕ → Exec Store Unit
admitted none now = require_admission run none now >> pure tt
admitted (some parent) now = pure tt

unfoldable pub new_run : Worked → TurnSource → Job → Exec Store Run
new_run w source j = do
  admitted j.parent_run_id w.now
  (λ s. (ok (job_run w source j), save_run w.now (job_run w source j) s))

-- `min(30, 2 ** (attempts - 1))`
unfoldable pub retry_delay : ℕ → ℕ
retry_delay zero = 1
retry_delay (suc n) = min 30 (2 ^ n)

-- a failed attempt
unfoldable pub failed_attempt : ℕ → Option String → Job → Job
failed_attempt now message j =
    let attempts = j.attempts + 1 in
    if ltb attempts j.max_attempts
    then record j {
      attempts = attempts;
      last_error = message;
      run_at = now + retry_delay attempts;
      status = JobState.pending;
    }
    else record j { attempts = attempts; last_error = message; status = JobState.failed }

-- what the end of its run makes of a job
unfoldable pub settled : ℕ → Ended → Job → Job
settled now end j = elim end.status [
  | RunStatus.completed ↦ record j { status = JobState.done; last_error = none }
  | RunStatus.waiting_approval ↦ record j { status = JobState.waiting_approval; last_error = none }
  | _ ↦ failed_attempt now end.message j
]

abbrev pub begun : Worked → Job → Job
begun w j = record j { status = JobState.running; result_run_id = some w.run_id }

-- the job that a group creates when it fires
abbrev pub create_next : Worked → TurnSource → Bool × Option OnComplete → Store → Store
create_next w source (true, some c) s =
    (create_job w.now w.next_id
      (record {
        run_id = c.parent_run_id;
        handler = c.handler;
        payload = c.payload;
        run_at = w.now;
        max_attempts = 3;
        group_id = none;
        agent = source.agent;
      })
      s).1
create_next w source answer s = s

abbrev pub fired : Worked → TurnSource → Option (Bool × Option OnComplete) × Store → Store
fired w source (none, s) = s
fired w source (some answer, s) = create_next w source answer s

abbrev pub ended_well : JobState → Option Bool
ended_well JobState.done = some true
ended_well JobState.failed = some false
ended_well _ = none

abbrev pub counted_in : Worked → TurnSource → Option String → Option Bool → Store → Store
counted_in w source (some g) (some success) s = fired w source (group_job_done g success s)
counted_in w source group success s = s

-- the fan-in of the group; a group with an empty id is none
unfoldable pub fan_in : Worked → TurnSource → Job → Store → Store
fan_in w source j s = counted_in w source (given_id j.group_id) (ended_well j.status) s

module _ (handles : String → Bool) (execute : Run → Exec Store Ended) where
  -- `run_job` behind the end of its run
  unfoldable pub end_job : Worked → TurnSource → Job → Ended → Exec Store Ended
  end_job w source j end s =
      let j' = settled w.now end (begun w j) in (ok end, fan_in w source j' (save_job j' s))

  -- run_job behind the start of its run; an exception of `_execute` leaves the job as it is
  unfoldable pub finish_job : Worked → TurnSource → Job → Run → Exec Store Ended
  unfolding end_job
  finish_job w source j r s = then_run (execute r (save_job (begun w j) s)) (end_job w source j)

  unfoldable pub run_found : Worked → TurnSource → Option Job → Exec Store Ended
  run_found w source none = raise e_job_not_found
  run_found w source (some j) =
      if handles j.handler
      then (new_run w source j >>= λ r. finish_job w source j r)
      else raise e_handler_not_found

  -- run_job
  unfoldable pub run_job : Worked → TurnSource → String → Exec Store Ended
  run_job w source i s = run_found w source (get_job i s) s

-- retry_job: only a job that failed for good
abbrev pub retry_found : ℕ → Option Job → Exec Store Job
retry_found now none s = (err e_job_not_found, s)
retry_found now (some j) s =
    if same_state j.status JobState.failed
    then (
      ok (record j { attempts = 0; status = JobState.pending; run_at = now }),
      save_job (record j { attempts = 0; status = JobState.pending; run_at = now }) s,
    )
    else (err e_validation, s)

unfoldable pub retry_job : ℕ → String → Exec Store Job
retry_job now i s = retry_found now (get_job i s) s
