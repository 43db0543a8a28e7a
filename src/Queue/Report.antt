-- ===== src/Queue/Report.antt =====
-- queue.py: what a worker reports of a job, and what an operator does with one. `now` is the clock's
-- reading during the call; retry delays are whole seconds.
use rya.Prelude.{
  ℕ, zero, suc, ◌+◌, ◌*◌, ◌^◌, min, String, Bool, true, false, ◌&&◌, Option, none, some, str_eq,
  if◌then◌else◌,
}
use rya.Json.{Json, null}
use rya.Errors.{Exec, ok, err, e_job_not_found, e_queue_conflict, pure, ◌>>=◌, ◌>>◌, require}
use rya.Store.{Store}
use rya.Store.Docs.{QueueJob, JobStatus, pending, running, completed, failed, cancelled}
use rya.Store.Queue.{stamp, queue_save, queue_get, same_status, exhausted}

-- BACKOFF_BASE_SECONDS, BACKOFF_CAP_SECONDS
abbrev pub backoff_base : ℕ
backoff_base = 5

abbrev pub backoff_cap : ℕ
backoff_cap = 300

-- _get_or_raise
unfoldable pub found_or_raise : Option QueueJob → Exec Store QueueJob
found_or_raise none s = (err e_job_not_found, s)
found_or_raise (some j) s = (ok j, s)

unfoldable pub get_or_raise : String → Exec Store QueueJob
unfolding found_or_raise
get_or_raise i s = found_or_raise (queue_get i s.queue) s

-- `job.get("workerId") == worker_id`
unfoldable pub held_by : String → QueueJob → Bool
held_by w j = elim j.worker_id [ none ↦ false | some v ↦ str_eq v w ]

-- _check_holder
unfoldable pub check_holder : QueueJob → String → Exec Store Unit
unfolding held_by
check_holder j w = require (same_status j.status running && held_by w j) e_queue_conflict

-- `store.queue_save(job)`, and the job as it is stored
unfoldable pub write_job : ℕ → QueueJob → Exec Store QueueJob
write_job now j s = (ok (stamp now j), record s { queue = queue_save now j s.queue })

-- heartbeat: the new lease, and the cancellation flag
unfoldable pub heartbeat : String → String → ℕ → ℕ → Exec Store (ℕ × Bool)
unfolding get_or_raise check_holder write_job
heartbeat i w extend_seconds now = do
  j ← get_or_raise i
  check_holder j w
  write_job now (record j { lease_expires_at = some (now + extend_seconds) })
  pure (now + extend_seconds, j.cancel_requested)

unfoldable pub completed_job : ℕ → Json → QueueJob → QueueJob
completed_job now output j = record j {
  status = if j.cancel_requested then cancelled else completed;
  output = output;
  completed_at = some now;
  lease_expires_at = none;
}

-- complete: on a cancelled job the late result is dropped
unfoldable pub complete : String → String → Json → ℕ → Exec Store QueueJob
unfolding get_or_raise check_holder write_job
complete i w output now = do
  j ← get_or_raise i
  if same_status j.status cancelled
      then pure j
      else check_holder j w >> write_job now (completed_job now output j)

-- `text[:n]`
unfoldable pub truncated : ℕ → String → String
truncated zero t = ""
truncated (suc n) String.[] = ""
truncated (suc n) (String.◌∷◌ c t) = String.◌∷◌ c (truncated n t)

-- `min(BACKOFF_CAP_SECONDS, BACKOFF_BASE_SECONDS * 2 ** (attempts - 1))`, in whole seconds: with no
-- attempt made the power is a half
unfoldable pub backoff : ℕ → ℕ
backoff zero = 2
backoff (suc n) = min backoff_cap (backoff_base * 2 ^ n)

unfoldable pub retry_after : QueueJob → ℕ
unfolding backoff
retry_after j = elim j.retry_delay [ none ↦ backoff j.attempts | some d ↦ d ]

-- what `fail` makes of a job that is held
unfoldable pub failed_job : ℕ → String → QueueJob → QueueJob
unfolding retry_after truncated
failed_job now message j =
    let noted : QueueJob = record j {
      last_error = some (truncated 2000 message);
      worker_id = none;
      lease_expires_at = none;
    } in
    if j.cancel_requested
    then record noted { status = cancelled; completed_at = some now }
    else if exhausted j
    then record noted {
      status = failed;
      dead_letter = true;
      error = noted.last_error;
      completed_at = some now;
    }
    else record noted { status = pending; run_at = now + retry_after j }

-- fail
unfoldable pub fail : String → String → String → ℕ → Exec Store QueueJob
unfolding get_or_raise check_holder write_job
fail i w message now = do
  j ← get_or_raise i
  if same_status j.status cancelled
      then pure j
      else check_holder j w >> write_job now (failed_job now message j)

-- what `cancel` makes of a job
unfoldable pub cancelled_job : ℕ → Bool → QueueJob → QueueJob
cancelled_job now force j =
    if same_status j.status pending
    then record j { status = cancelled; cancel_requested = true; completed_at = some now }
    else if same_status j.status running
    then if force
      then record j {
        cancel_requested = true;
        status = cancelled;
        worker_id = none;
        lease_expires_at = none;
        completed_at = some now;
      }
      else record j { cancel_requested = true }
    else j

unfoldable pub cancel_found : Bool → ℕ → Option QueueJob → Exec Store (Option QueueJob)
cancel_found force now none s = (ok none, s)
cancel_found force now (some j) s =
    let j' = cancelled_job now force j in
    (ok (some (stamp now j')), record s { queue = queue_save now j' s.queue })

-- cancel: an unknown id resolves quietly
unfoldable pub cancel : String → Bool → ℕ → Exec Store (Option QueueJob)
unfolding cancel_found
cancel i force now s = cancel_found force now (queue_get i s.queue) s

unfoldable pub retried_job : ℕ → ℕ → QueueJob → QueueJob
retried_job now ns j = record j {
  status = pending;
  attempts = 0;
  run_at = now;
  worker_id = none;
  lease_expires_at = none;
  cancel_requested = false;
  dead_letter = false;
  error = none;
  output = null;
  completed_at = none;
  seq = ns;
}

abbrev pub retryable : JobStatus → Bool
retryable failed = true
retryable cancelled = true
retryable _ = false

-- retry
unfoldable pub retry : String → ℕ → ℕ → Exec Store QueueJob
unfolding get_or_raise write_job
retry i now ns = do
  j ← get_or_raise i
  require (retryable j.status) e_queue_conflict
  write_job now (retried_job now ns j)
