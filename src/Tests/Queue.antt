-- ===== src/Tests/Queue.antt =====
-- The theorems of Queue at concrete inputs: a queue with a job of another version, a running job, and a
-- running job whose lease has run out.
use rya.Prelude.{
  ℕ, String, ◌≡◌, refl, ◌≢◌, false, Option, none, some, List, [], ◌∷◌, arith, str_eq, eq_iff, All,
  All-Member, Option-cases, inl, inr,
}
use rya.Prelude.Sort
use rya.Prelude.Int.{pos}
use mathlib.Core.Option.{some-injective}
use rya.Json.{null}
use rya.Errors.{python_error}
use rya.Store.{Store, empty}
use rya.Store.Table
use rya.Queue.Tables.{IsTable}
use rya.Store.Docs.{QueueJob, JobStatus, pending, running, completed}
use rya.Store.Queue.{
  job_id, queue_list, queue_get, start_job, stamp, queue_save, queue_claim_one, claim_first,
  claimable, fair_order, dispatch_before, fair_before, busy, type_wanted, under_cap,
}
use rya.Queue.Enqueue.{JobSpec}
use rya.Queue.Claim.{ClaimFilter, claim, claim_run}
use rya.Queue.Valid.{IsValid, IsQueue}
use rya.Queue.History.{Call, claims, completes, heartbeats, run, run-IsQueue, run-StaysCompleted}
use rya.Queue.Life.{StaysCompleted}
use rya.Queue.Listing.{Claimed, queue_claim_one-some}

abbrev job_at :
    String → JobStatus → ℕ → Option String → Option ℕ → List (String × String) → QueueJob
job_at i st attempts worker lease metadata = record {
  id = i;
  type = "mail";
  payload = null;
  status = st;
  attempts = attempts;
  max_attempts = 3;
  priority = pos 0;
  run_at = 100;
  seq = 7;
  tags = [];
  metadata = metadata;
  concurrency_key = none;
  concurrency_limit = none;
  retry_delay = none;
  worker_id = worker;
  lease_expires_at = lease;
  cancel_requested = false;
  dead_letter = false;
  output = null;
  error = none;
  last_error = none;
  created_at = 100;
  started_at = none;
  completed_at = none;
  updated_at = 100;
}

abbrev pub waiting : QueueJob
waiting = job_at "a" pending 0 none none []

abbrev pub tagged : QueueJob
tagged = job_at "b" pending 1 none none (("versionId", "v2") ∷ [])

abbrev overdue : QueueJob
overdue = job_at "c" running 1 (some "w9") (some 150) []

abbrev jobs : Store
jobs = record empty { queue = waiting ∷ tagged ∷ overdue ∷ [] }

abbrev only_v1 : ClaimFilter
only_v1 = record { types = []; version_id = some "v1"; agent = none }

pub distinct : (a b : String) → str_eq a b ≡ false → a ≢ b
distinct a b h e = ground (arith, eq_iff a b)

pub IsQueue-of_All : (t : List QueueJob) → IsTable t → All IsValid t → IsQueue t
IsQueue-of_All t u v = record {
  apart = u;
  valid = λ i. elim (Option-cases (queue_get i t)) [
    | inl n ↦ rw n tt
    | inr (j, e) ↦ rw e (All-Member IsValid j t v (Table.get-Member job_id i j t e))
  ];
}

jobs-IsQueue : IsQueue jobs.queue
jobs-IsQueue = IsQueue-of_All jobs.queue (ground arith) (ground arith)

abbrev after : Store
after = (claim "w1" only_v1 5 60 200 jobs).1

abbrev taken : List QueueJob
taken = (claim_run "w1" only_v1 5 60 200 jobs.queue).claimed

-- a claim, a late completion by a stranger, the completion by the holder, and a heartbeat behind it
abbrev calls : List Call
calls =
    claims "w1" only_v1 5 60 200
    ∷ completes "a" "w9" null 210
    ∷ completes "a" "w1" null 220
    ∷ heartbeats "a" "w1" 60 230
    ∷ []

run-IsQueue_example : IsQueue (run calls jobs).queue
run-IsQueue_example = run-IsQueue calls jobs jobs-IsQueue (tt, (tt, (tt, (tt, tt))))

abbrev finished : QueueJob
finished = record (job_at "d" completed 1 (some "w2") none []) { completed_at = some 150 }

run-StaysCompleted_example :
    (k : QueueJob) × (queue_get "d"
        (run calls (record empty { queue = finished ∷ waiting ∷ [] })).queue
      ≡ some k)
    × StaysCompleted finished k
unfolding Table.get
run-StaysCompleted_example =
    run-StaysCompleted calls (record empty { queue = finished ∷ waiting ∷ [] }) "d" finished
      (ground arith) (tt, (tt, (tt, (tt, tt)))) refl refl

other_worker : ◌≢◌ {A = Option String} (some "w9") (some "w1")
other_worker e = distinct "w9" "w1" refl (some-injective _ _ e)

abbrev plain : JobSpec
plain = record {
  payload = null;
  job_id = some "c";
  max_attempts = 3;
  delay_seconds = 0;
  priority = pos 0;
  tags = [];
  metadata = [];
  concurrency_key = none;
  concurrency_limit = none;
  retry_delay = none;
  unusable = none;
}

queue_claim_one-some_example :
    (j : QueueJob) × Claimed "w1" 200 260 [] jobs.queue j
      (stamp 200 (start_job "w1" 200 260 waiting))
      (queue_save 200 (start_job "w1" 200 260 waiting) jobs.queue)
unfolding queue_claim_one claim_first claimable fair_order queue_list dispatch_before fair_before
    busy type_wanted under_cap Sort.sorted Table.save
queue_claim_one-some_example =
    queue_claim_one-some "w1" 200 260 [] jobs.queue (stamp 200 (start_job "w1" 200 260 waiting))
      (queue_save 200 (start_job "w1" 200 260 waiting) jobs.queue) refl

abbrev two_items : List (String × ℕ × JobSpec)
two_items =
    ("f", 9, plain) ∷ ("g", 10, record plain { job_id = none; unusable = some python_error }) ∷ []

abbrev taken_one : QueueJob
taken_one = stamp 200 (start_job "w1" 200 260 waiting)
