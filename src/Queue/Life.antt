-- ===== src/Queue/Life.antt =====
-- The life of a queue job: the changes that queue.py and the store make to one job, and what every
-- sequence of them keeps.
use rya.Prelude.{ℕ, String, ◌≡◌, refl, ◌∙◌, ◌⊎◌, Bool, Option, none, some, arith}
use rya.Json.{Json}
use rya.Store.Docs.{QueueJob, pending, running, completed, failed, cancelled}
use rya.Store.Queue.{stamp, start_job, reap_job}
use rya.Queue.Enqueue.{JobSpec, new_job}
use rya.Queue.Claim.{release_job}
use rya.Queue.Report.{completed_job, failed_job, cancelled_job, retried_job}

-- One write to a job, with the status that the code demands of it first.
pub data Change (j k : QueueJob) : Type 0 where
  starts :
      (worker : String) (now lease : ℕ)
      → j.status ≡ pending
      → k ≡ stamp now (start_job worker now lease j)
      → Change j k
  expires : (now : ℕ) → j.status ≡ running → k ≡ stamp now (reap_job now j) → Change j k
  returns : (now : ℕ) → j.status ≡ running → k ≡ stamp now (release_job j) → Change j k
  extends :
      (now lease : ℕ)
      → j.status ≡ running
      → k ≡ stamp now (record j { lease_expires_at = some lease })
      → Change j k
  completes :
      (now : ℕ) (output : Json)
      → j.status ≡ running
      → k ≡ stamp now (completed_job now output j)
      → Change j k
  fails :
      (now : ℕ) (message : String)
      → j.status ≡ running
      → k ≡ stamp now (failed_job now message j)
      → Change j k
  cancels : (now : ℕ) (force : Bool) → k ≡ stamp now (cancelled_job now force j) → Change j k
  retries :
      (now ns : ℕ)
      → (j.status ≡ failed) ⊎ (j.status ≡ cancelled)
      → k ≡ stamp now (retried_job now ns j)
      → Change j k

-- What may become of the job under one id: it is enqueued once, changes, and is never removed.
pub data Life (o : Option QueueJob) : Option QueueJob → Type 0 where
  rests : Life o o
  enqueued :
      {p : Option QueueJob} (now ns : ℕ) (fresh type : String) (spec : JobSpec)
      → Life o p
      → p ≡ none
      → Life o (some (stamp now (new_job now ns fresh type spec)))
  changed : {j k : QueueJob} → Life o (some j) → Change j k → Life o (some k)

pub Life-trans : {o p q : Option QueueJob} → Life o p → Life p q → Life o q
Life-trans l rests = l
Life-trans l (enqueued now ns fresh type spec m e) =
    enqueued now ns fresh type spec (Life-trans l m) e
Life-trans l (changed m c) = changed (Life-trans l m) c

-- What a caller asked for, which no change touches.
pub record SameSpec (j k : QueueJob) : Type 0 where
  pub id : k.id ≡ j.id
  pub type : k.type ≡ j.type
  pub payload : k.payload ≡ j.payload
  pub max_attempts : k.max_attempts ≡ j.max_attempts
  pub priority : k.priority ≡ j.priority
  pub metadata : k.metadata ≡ j.metadata
  pub concurrency_key : k.concurrency_key ≡ j.concurrency_key
  pub concurrency_limit : k.concurrency_limit ≡ j.concurrency_limit
  pub created_at : k.created_at ≡ j.created_at

pub Change-SameSpec : {j k : QueueJob} → Change j k → SameSpec j k
unfolding start_job reap_job release_job completed_job failed_job cancelled_job retried_job
Change-SameSpec (starts worker now lease s e) = ground arith
Change-SameSpec (expires now s e) = ground arith
Change-SameSpec (returns now s e) = ground arith
Change-SameSpec (extends now lease s e) = ground arith
Change-SameSpec (completes now output s e) = ground arith
Change-SameSpec (fails now message s e) = ground arith
Change-SameSpec (cancels now force e) = ground arith
Change-SameSpec (retries now ns s e) = ground arith

SameSpec-trans : (j k l : QueueJob) → SameSpec j k → SameSpec k l → SameSpec j l
SameSpec-trans j k l a b = record {
  id = b.id ∙ a.id;
  type = b.type ∙ a.type;
  payload = b.payload ∙ a.payload;
  max_attempts = b.max_attempts ∙ a.max_attempts;
  priority = b.priority ∙ a.priority;
  metadata = b.metadata ∙ a.metadata;
  concurrency_key = b.concurrency_key ∙ a.concurrency_key;
  concurrency_limit = b.concurrency_limit ∙ a.concurrency_limit;
  created_at = b.created_at ∙ a.created_at;
}

pub Life-SameSpec :
    {o p : Option QueueJob} (j : QueueJob)
    → o ≡ some j
    → Life o p
    → (k : QueueJob) × (p ≡ some k) × SameSpec j k
Life-SameSpec j e rests = (
  j,
  e,
  record {
    id = refl;
    type = refl;
    payload = refl;
    max_attempts = refl;
    priority = refl;
    metadata = refl;
    concurrency_key = refl;
    concurrency_limit = refl;
    created_at = refl;
  },
)
Life-SameSpec j e (enqueued now ns fresh type spec l n) = let (k, q, c) = Life-SameSpec j e l in cc
Life-SameSpec j e (changed {j = m} {k = k} l c) =
    let (m', q, kept) = Life-SameSpec j e l in
    let same : m ≡ m' = ground arith in
    (k, refl, SameSpec-trans j m k (rw same kept) (Change-SameSpec {j = m} {k = k} c))

-- A completed job stays completed, with its output and the time of its completion.
pub record StaysCompleted (j k : QueueJob) : Type 0 where
  pub status : k.status ≡ completed
  pub output : k.output ≡ j.output
  pub completed_at : k.completed_at ≡ j.completed_at

pub Change-StaysCompleted :
    {j k : QueueJob} → j.status ≡ completed → Change j k → StaysCompleted j k
unfolding cancelled_job
Change-StaysCompleted h (starts worker now lease s e) = cc
Change-StaysCompleted h (expires now s e) = cc
Change-StaysCompleted h (returns now s e) = cc
Change-StaysCompleted h (extends now lease s e) = cc
Change-StaysCompleted h (completes now output s e) = cc
Change-StaysCompleted h (fails now message s e) = cc
Change-StaysCompleted h (cancels now force e) = ground arith
Change-StaysCompleted h (retries now ns s e) = ground arith

pub Life-StaysCompleted :
    {o p : Option QueueJob} (j : QueueJob)
    → o ≡ some j
    → j.status ≡ completed
    → Life o p
    → (k : QueueJob) × (p ≡ some k) × StaysCompleted j k
Life-StaysCompleted j e h rests = (j, e, record { status = h; output = refl; completed_at = refl })
Life-StaysCompleted j e h (enqueued now ns fresh type spec l n) =
    let (k, q, c) = Life-StaysCompleted j e h l in cc
Life-StaysCompleted j e h (changed {j = m} {k = k} l c) =
    let (m', q, kept) = Life-StaysCompleted j e h l in
    let same : m ≡ m' = ground arith in
    let next = Change-StaysCompleted {j = m} {k = k} (rw same kept.status) c in
    (
      k,
      refl,
      record {
        status = next.status;
        output = next.output ∙ (rw same kept.output);
        completed_at = next.completed_at ∙ (rw same kept.completed_at);
      },
    )
