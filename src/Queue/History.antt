-- ===== src/Queue/History.antt =====
-- Any sequence of calls of the queue's operations (queue.py), failing or not.
use rya.Prelude.{ℕ, String, ◌≡◌, Bool, some, List, [], ◌∷◌, str_eq, Bool-cases, inl, inr}
use rya.Json.{Json}
use rya.Store.{Store}
use rya.Store.Docs.{QueueJob, completed}
use rya.Store.Queue.{queue_get}
use rya.Queue.Claim.{ClaimFilter, claim}
use rya.Queue.Enqueue.{JobSpec, enqueue, enqueue_batch}
use rya.Queue.Report.{heartbeat, complete, fail, cancel, retry}
use rya.Queue.Life.{StaysCompleted, Life-StaysCompleted, SameSpec, Life-SameSpec}
use rya.Queue.Valid.{IsQueue, Life-IsValid}
use rya.Queue.Tables.{IsTable}
use rya.Queue.Steps.{
  Follows, Follows-refl, Follows-trans, heartbeat-Follows, complete-Follows, fail-Follows,
  cancel-Follows, retry-Follows,
}
use rya.Queue.Claiming.{after-Evolves, after-IsTable}
use rya.Queue.Arrivals.{IsFresh, FreshEach, enqueue-Follows, enqueue_batch-Follows}

-- A call, with what the clock and `_new_id` gave it.
pub data Call : Type 0 where
  enqueues : (now ns : ℕ) (fresh type : String) → JobSpec → Call
  batches : (now : ℕ) (type : String) → List (String × ℕ × JobSpec) → Call
  claims : (worker : String) → ClaimFilter → (limit lease_seconds now : ℕ) → Call
  heartbeats : (i worker : String) (extend_seconds now : ℕ) → Call
  completes : (i worker : String) → Json → (now : ℕ) → Call
  fails : (i worker message : String) (now : ℕ) → Call
  cancels : (i : String) → Bool → (now : ℕ) → Call
  retries : (i : String) (now ns : ℕ) → Call

unfoldable pub step : Call → Store → Store
step (enqueues now ns fresh type spec) s = (enqueue now ns fresh type spec s).1
step (batches now type items) s = (enqueue_batch now type items s).1
step (claims worker f limit lease_seconds now) s = (claim worker f limit lease_seconds now s).1
step (heartbeats i worker extend_seconds now) s = (heartbeat i worker extend_seconds now s).1
step (completes i worker output now) s = (complete i worker output now s).1
step (fails i worker message now) s = (fail i worker message now s).1
step (cancels i force now) s = (cancel i force now s).1
step (retries i now ns) s = (retry i now ns s).1

unfoldable pub run : List Call → Store → Store
unfolding step
run [] s = s
run (c ∷ cs) s = run cs (step c s)

-- What `_new_id` promises of a call.
abbrev pub IsFreshCall : Call → Store → Type 0
IsFreshCall (enqueues now ns fresh type spec) s = IsFresh fresh s
IsFreshCall (batches now type items) s = FreshEach now type items s
IsFreshCall _ s = Unit

abbrev pub AreFreshCalls : List Call → Store → Type 0
AreFreshCalls [] s = Unit
AreFreshCalls (c ∷ cs) s = IsFreshCall c s × AreFreshCalls cs (step c s)

claim-Follows :
    (worker : String) (f : ClaimFilter) (limit lease_seconds now : ℕ) (s : Store)
    → IsTable s.queue
    → Follows s (claim worker f limit lease_seconds now s).1
unfolding claim
claim-Follows worker f limit lease_seconds now s u = elim (Bool-cases (str_eq worker "")) [
  | inl e ↦ rw e (Follows-refl s u)
  | inr e ↦ rw e (record {
    table = after-IsTable worker f limit lease_seconds now s.queue u;
    life = after-Evolves worker f limit lease_seconds now s.queue u;
  })
]

-- Every call moves each job along its life, removes none and keeps the ids apart.
pub step-Follows : (c : Call) (s : Store) → IsTable s.queue → IsFreshCall c s → Follows s (step c s)
unfolding step
step-Follows (enqueues now ns fresh type spec) s u f = enqueue-Follows now ns fresh type spec s u f
step-Follows (batches now type items) s u f = enqueue_batch-Follows now type items s u f
step-Follows (claims worker g limit lease_seconds now) s u f =
    claim-Follows worker g limit lease_seconds now s u
step-Follows (heartbeats i worker extend_seconds now) s u f =
    heartbeat-Follows i now s u worker extend_seconds
step-Follows (completes i worker output now) s u f = complete-Follows i now s u worker output
step-Follows (fails i worker message now) s u f = fail-Follows i now s u worker message
step-Follows (cancels i force now) s u f = cancel-Follows i now s u force
step-Follows (retries i now ns) s u f = retry-Follows i now s u ns

pub run-Follows :
    (cs : List Call) (s : Store) → IsTable s.queue → AreFreshCalls cs s → Follows s (run cs s)
unfolding run
run-Follows [] s u f = Follows-refl s u
run-Follows (c ∷ cs) s u f =
    let one = step-Follows c s u f.0 in
    Follows-trans s (step c s) _ one (run-Follows cs (step c s) one.table f.1)

-- From a queue whose ids are apart and whose jobs are valid, any sequence of calls of the queue's
-- operations, failing or not, leads to such a queue, if every id that a call makes is fresh: each
-- job's status agrees with its lease, its worker, its attempts (never above `max_attempts`, and
-- one left while it waits), its dead-letter mark and its end.
pub run-IsQueue :
    (cs : List Call) (s : Store) → IsQueue s.queue → AreFreshCalls cs s → IsQueue (run cs s).queue
run-IsQueue cs s q f =
    let h = run-Follows cs s q.apart f in
    record { apart = h.table; valid = λ i. Life-IsValid (h.life i) (q.valid i) }

-- A completed job of a queue whose ids are apart stays completed through any later calls whose
-- new ids are fresh, with its output and the time of its completion.
pub run-StaysCompleted :
    (cs : List Call) (s : Store) (i : String) (j : QueueJob)
    → IsTable s.queue
    → AreFreshCalls cs s
    → queue_get i s.queue ≡ some j
    → j.status ≡ completed
    → (k : QueueJob) × (queue_get i (run cs s).queue ≡ some k) × StaysCompleted j k
run-StaysCompleted cs s i j u f e c = Life-StaysCompleted j e c ((run-Follows cs s u f).life i)

-- Through any later calls whose new ids are fresh, a stored job of a queue whose ids are apart is
-- never removed, and keeps what its producer asked for: its id, type, payload, attempts allowed,
-- priority, metadata and concurrency limit.
pub run-SameSpec :
    (cs : List Call) (s : Store) (i : String) (j : QueueJob)
    → IsTable s.queue
    → AreFreshCalls cs s
    → queue_get i s.queue ≡ some j
    → (k : QueueJob) × (queue_get i (run cs s).queue ≡ some k) × SameSpec j k
run-SameSpec cs s i j u f e = Life-SameSpec j e ((run-Follows cs s u f).life i)
