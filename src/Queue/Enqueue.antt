-- ===== src/Queue/Enqueue.antt =====
-- queue.py: `enqueue` and `enqueue_batch`. A call reads the clock once (`now` in seconds, `ns` in
-- nanoseconds), and `fresh` is the id that `_new_id` makes. Delays are whole seconds.
use rya.Prelude.{
  ℕ, ◌+◌, ◌-◌, max, String, Bool, true, false, Option, none, some, List, [], ◌∷◌, length, ◌==◌,
  str_eq, if◌then◌else◌,
}
use rya.Prelude.Int.{ℤ}
use rya.Json.{Json, null}
use rya.Errors.{Code, raise, Exec, ok, err, e_validation, pure, ◌>>=◌, ◌>>◌}
use rya.Store.{Store}
use rya.Store.Docs.{QueueJob, pending}
use rya.Store.Queue.{stamp, queue_save, queue_get}
use rya.Quotas.Policy.{Resource, queue_depth, tokens_today, cost_today}
use rya.Quotas.Admission.{job, Usage, usage_for, require_admission}

-- What a caller asks for: the arguments of `enqueue`, or an item of a batch. The numbers are what
-- `int()` makes of them; `unusable` is the exception of building the job from an item in which one
-- of them is no number (the callers in the code give numbers, and no exception).
pub record JobSpec : Type 0 where
  pub payload : Json
  pub job_id : Option String
  pub max_attempts : ℕ
  pub delay_seconds : ℕ
  pub priority : ℤ
  pub tags : List String
  pub metadata : List (String × String)
  pub concurrency_key : Option String
  pub concurrency_limit : Option ℕ
  pub retry_delay : Option ℕ
  pub unusable : Option Code

-- `if job_id`: an empty id is none
abbrev pub given_id : Option String → Option String
given_id none = none
given_id (some i) = if str_eq i "" then none else some i

abbrev pub or_fresh : Option String → String → String
or_fresh none fresh = fresh
or_fresh (some i) fresh = i

-- `int(limit) if limit else None`
abbrev nonzero : Option ℕ → Option ℕ
nonzero none = none
nonzero (some n) = if n == 0 then none else some n

-- the job that `enqueue` builds
unfoldable pub new_job : ℕ → ℕ → String → String → JobSpec → QueueJob
new_job now ns fresh type spec = record {
  id = or_fresh (given_id spec.job_id) fresh;
  type = type;
  payload = spec.payload;
  status = pending;
  attempts = 0;
  max_attempts = max 1 spec.max_attempts;
  priority = spec.priority;
  run_at = now + spec.delay_seconds;
  seq = ns;
  tags = spec.tags;
  metadata = spec.metadata;
  concurrency_key = spec.concurrency_key;
  concurrency_limit = nonzero spec.concurrency_limit;
  retry_delay = spec.retry_delay;
  worker_id = none;
  lease_expires_at = none;
  cancel_requested = false;
  dead_letter = false;
  output = null;
  error = none;
  last_error = none;
  created_at = now;
  started_at = none;
  completed_at = none;
  updated_at = now;
}

abbrev pub buildable : Option Code → Exec Store Unit
buildable none = pure tt
buildable (some c) = raise c

-- `store.queue_save(job); return job`
unfoldable pub put_job : ℕ → QueueJob → Exec Store QueueJob
put_job now j s = (ok (stamp now j), record s { queue = queue_save now j s.queue })

unfoldable pub existing_job : Option String → Store → Option QueueJob
existing_job none s = none
existing_job (some i) s = queue_get i s.queue

-- the part of `enqueue` behind the idempotency test
unfoldable pub enqueue_new : ℕ → ℕ → String → String → JobSpec → Exec Store QueueJob
unfolding put_job
enqueue_new now ns fresh type spec = do
  require_admission job none now
  buildable spec.unusable
  put_job now (new_job now ns fresh type spec)

unfoldable pub enqueue_unless :
    Option QueueJob → ℕ → ℕ → String → String → JobSpec → Exec Store QueueJob
enqueue_unless (some j) now ns fresh type spec = pure j
enqueue_unless none now ns fresh type spec = enqueue_new now ns fresh type spec

-- enqueue
unfoldable pub enqueue : ℕ → ℕ → String → String → JobSpec → Exec Store QueueJob
unfolding enqueue_unless existing_job
enqueue now ns fresh type spec s =
    if str_eq type ""
    then (err e_validation, s)
    else enqueue_unless (existing_job (given_id spec.job_id) s) now ns fresh type spec s

-- the usage that a batch asks for
abbrev pub batch_keys : Resource → Bool
batch_keys queue_depth = true
batch_keys tokens_today = true
batch_keys cost_today = true
batch_keys r = false

-- the usage that a batch is charged with: all its items, before any is enqueued
abbrev charge : ℕ → Resource → Option ℕ → Option ℕ
charge n queue_depth (some d) = some (d + (n - 1))
charge n r u = u

unfoldable pub batch_usage : ℕ → ℕ → Store → Usage
batch_usage now n s r = charge n r (usage_for batch_keys now s r)

-- the loop of `enqueue_batch`; each item comes with its fresh id and its `seq`
unfoldable pub enqueue_each : ℕ → String → List (String × ℕ × JobSpec) → Exec Store (List QueueJob)
enqueue_each now type [] = pure []
enqueue_each now type ((fresh, ns, spec) ∷ rest) = do
  j ← enqueue now ns fresh type spec
  js ← enqueue_each now type rest
  pure (j ∷ js)

-- enqueue_batch
unfoldable pub enqueue_batch : ℕ → String → List (String × ℕ × JobSpec) → Exec Store (List QueueJob)
enqueue_batch now type items s =
    (require_admission job (some (batch_usage now (length items) s)) now >>= λ verdict.
    enqueue_each now type items)
      s
