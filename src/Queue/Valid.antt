-- ===== src/Queue/Valid.antt =====
-- What every change keeps of a queue job: its status agrees with its lease, its worker, its attempts and
-- its dead-letter mark.
use rya.Prelude.{ℕ, ◌≤◌, ◌<◌, String, ◌≡◌, Bool, true, false, Option, none, some, List, arith}
use rya.Json.{Json}
use rya.Store.Docs.{QueueJob, JobStatus, pending, running, completed, failed, cancelled}
use rya.Store.Queue.{stamp, start_job, reap_job, queue_get}
use rya.Queue.Enqueue.{JobSpec, new_job}
use rya.Queue.Claim.{release_job}
use rya.Queue.Report.{completed_job, failed_job, cancelled_job, retried_job}
use rya.Queue.Tables.{IsTable}
use rya.Queue.Life.{
  Change, starts, expires, returns, extends, completes, fails, cancels, retries, Life, rests,
  enqueued, changed,
}

abbrev Given : {A : Type 0} → Option A → Type 0
Given none = ⊥
Given (some a) = Unit

-- What each status says of the other fields.
abbrev StatusFits : JobStatus → QueueJob → Type 0
StatusFits pending j =
    (j.attempts < j.max_attempts)
    × (j.worker_id ≡ none)
    × (j.lease_expires_at ≡ none)
    × (j.dead_letter ≡ false)
    × (j.completed_at ≡ none)
StatusFits running j =
    (1 ≤ j.attempts)
    × (j.attempts ≤ j.max_attempts)
    × Given j.worker_id
    × Given j.lease_expires_at
    × (j.dead_letter ≡ false)
    × (j.completed_at ≡ none)
StatusFits completed j =
    (j.attempts ≤ j.max_attempts)
    × (j.lease_expires_at ≡ none)
    × (j.dead_letter ≡ false)
    × Given j.completed_at
StatusFits failed j =
    (j.attempts ≡ j.max_attempts)
    × (j.worker_id ≡ none)
    × (j.lease_expires_at ≡ none)
    × (j.dead_letter ≡ true)
    × Given j.error
    × Given j.completed_at
StatusFits cancelled j =
    (j.attempts ≤ j.max_attempts)
    × (j.lease_expires_at ≡ none)
    × (j.dead_letter ≡ false)
    × Given j.completed_at

abbrev pub IsValid : QueueJob → Type 0
IsValid j = (1 ≤ j.max_attempts) × StatusFits j.status j

new_job-IsValid :
    (now ns : ℕ) (fresh type : String) (spec : JobSpec)
    → IsValid (stamp now (new_job now ns fresh type spec))
unfolding new_job
new_job-IsValid now ns fresh type spec = ground arith

start_job-IsValid :
    (worker : String) (now lease : ℕ) (j : QueueJob)
    → j.status ≡ pending
    → IsValid j
    → IsValid (stamp now (start_job worker now lease j))
unfolding start_job
start_job-IsValid worker now lease j e v = ground arith

reap_job-IsValid :
    (now : ℕ) (j : QueueJob) → j.status ≡ running → IsValid j → IsValid (stamp now (reap_job now j))
unfolding reap_job
reap_job-IsValid now j e v = ground arith

release_job-IsValid :
    (now : ℕ) (j : QueueJob) → j.status ≡ running → IsValid j → IsValid (stamp now (release_job j))
unfolding release_job
release_job-IsValid now j e v = ground arith

completed_job-IsValid :
    (now : ℕ) (output : Json) (j : QueueJob)
    → j.status ≡ running
    → IsValid j
    → IsValid (stamp now (completed_job now output j))
unfolding completed_job
completed_job-IsValid now output j e v = ground arith

failed_job-IsValid :
    (now : ℕ) (message : String) (j : QueueJob)
    → j.status ≡ running
    → IsValid j
    → IsValid (stamp now (failed_job now message j))
unfolding failed_job
failed_job-IsValid now message j e v = ground arith

cancelled_job-IsValid :
    (now : ℕ) (force : Bool) (j : QueueJob)
    → IsValid j
    → IsValid (stamp now (cancelled_job now force j))
unfolding cancelled_job
cancelled_job-IsValid now force j v = ground arith

retried_job-IsValid :
    (now ns : ℕ) (j : QueueJob) → IsValid j → IsValid (stamp now (retried_job now ns j))
unfolding retried_job
retried_job-IsValid now ns j v = ground arith

extended-IsValid :
    (now lease : ℕ) (j : QueueJob)
    → j.status ≡ running
    → IsValid j
    → IsValid (stamp now (record j { lease_expires_at = some lease }))
extended-IsValid now lease j e v = ground arith

pub Change-IsValid : {j k : QueueJob} → Change j k → IsValid j → IsValid k
Change-IsValid {j} (starts worker now lease s e) v = rw e (start_job-IsValid worker now lease j s v)
Change-IsValid {j} (expires now s e) v = rw e (reap_job-IsValid now j s v)
Change-IsValid {j} (returns now s e) v = rw e (release_job-IsValid now j s v)
Change-IsValid {j} (extends now lease s e) v = rw e (extended-IsValid now lease j s v)
Change-IsValid {j} (completes now output s e) v = rw e (completed_job-IsValid now output j s v)
Change-IsValid {j} (fails now message s e) v = rw e (failed_job-IsValid now message j s v)
Change-IsValid {j} (cancels now force e) v = rw e (cancelled_job-IsValid now force j v)
Change-IsValid {j} (retries now ns s e) v = rw e (retried_job-IsValid now ns j v)

-- The invariant of one table entry.
abbrev pub OptionValid : Option QueueJob → Type 0
OptionValid none = Unit
OptionValid (some j) = IsValid j

pub Life-IsValid : {o p : Option QueueJob} → Life o p → OptionValid o → OptionValid p
Life-IsValid rests v = v
Life-IsValid (enqueued now ns fresh type spec l e) v = new_job-IsValid now ns fresh type spec
Life-IsValid (changed l c) v = Change-IsValid c (Life-IsValid l v)

-- The ids of the queue are apart, and every job is valid.
pub record IsQueue (t : List QueueJob) : Type 0 where
  pub apart : IsTable t
  pub valid : (i : String) → OptionValid (queue_get i t)
