-- ===== src/Tests/Jobs.antt =====
-- The theorems of Jobs at concrete inputs: a job that a worker has claimed, and one that waits.
use rya.Prelude.{ℕ, String, true, ◌≡◌, refl, ◌≢◌, ◌⊎◌, none, some, [], ◌∷◌, arith}
use rya.Json.{null}
use rya.Errors.{Exec, ok, err, python_error}
use rya.Store.{Store, empty}
use rya.Store.Table
use rya.Store.Docs.{Job, JobState, Run, RunStatus}
use rya.Store.Runs.{save_run}
use rya.Store.Jobs.{get_job, claim_due_job, list_jobs, name_before, is_due, save_job}
use rya.Prelude.Sort
use rya.Turns.Start.{TurnSource}
use rya.Tests.Queue.{distinct}
use rya.Jobs.Work.{Ended, Worked, job_run, run_job, run_found, finish_job, new_run}
use rya.Jobs.Due.{Outcome as ClaimOutcome, claim_due_job_lem}
use rya.Jobs.Retries.{Outcome as RunOutcome}
use rya.Jobs.Lost.{run_job_refused}

abbrev job_at : String → JobState → ℕ → Job
job_at i st at_time = record {
  id = i;
  parent_run_id = some "run_1";
  handler = "report";
  payload = null;
  status = st;
  run_at = at_time;
  attempts = 0;
  max_attempts = 3;
  last_error = none;
  created_at = 90;
  result_run_id = none;
  group_id = none;
  agent = some "mailer";
}

abbrev taken_job : Job
taken_job = job_at "job_1" JobState.claimed 100

abbrev waiting_job : Job
waiting_job = job_at "job_2" JobState.pending 100

abbrev scheduled : Store
scheduled = record empty { jobs = taken_job ∷ waiting_job ∷ [] }

abbrev mailer : TurnSource
mailer = record {
  agent = some "mailer";
  agent_version = none;
  version = record { id = none; manifest_version = none; bundle_hash = none; sdk_version = none };
}

abbrev worked : Worked
worked = record { now = 200; run_id = "run_2"; next_id = "job_3"; environment = none }

-- a handler that fails
abbrev fails : Run → Exec Store Ended
fails r s = (ok (record { status = RunStatus.failed; message = some "late" }), s)

claim_due_job_lem_example :
    ClaimOutcome 200 (some "mailer") scheduled (claim_due_job 200 (some "mailer") scheduled)
claim_due_job_lem_example = claim_due_job_lem 200 (some "mailer") scheduled

abbrev claimed_job : Job
claimed_job = record waiting_job { status = JobState.claimed }

-- a handler whose result `save_run` cannot write
abbrev unwritable : Run → Exec Store Ended
unwritable r s = (err python_error, s)

abbrev left_running : Job
left_running = record taken_job { status = JobState.running; result_run_id = some "run_2" }

abbrev left : Store
left = record (save_run 200 (job_run worked mailer taken_job) scheduled) {
  jobs = left_running ∷ waiting_job ∷ [];
}

run_job_refused_example :
    ((left ≡ scheduled) ⊎ (get_job "job_1" left ≡ some left_running))
    × (claimed_job.id ≢ taken_job.id)
unfolding get_job Table.get run_job run_found claim_due_job list_jobs Sort.sorted Sort.insert
    name_before is_due save_job Table.save finish_job new_run save_run
run_job_refused_example =
    run_job_refused (λ h. true) unwritable worked mailer scheduled left
      (claim_due_job 300 (some "mailer") left).1 taken_job claimed_job python_error 300
      (some "mailer") (λ r t. refl) refl refl (distinct "job_3" "job_1" refl) refl (ground arith)
      refl
