-- ===== src/Queue/Reports.antt =====
-- What queue.py answers a worker that does not hold a job, a producer that repeats a job id, and how
-- long a failed job waits.
use rya.Prelude.{
  ℕ, zero, suc, ◌≤◌, String, ◌≡◌, ◌≢◌, Option-cases, false, true, ◌&&◌, some, arith, str_eq, eq_iff,
  Bool-cases, inl, inr,
}
use native.Mathlib.Nat.{pow-le-pow_right, one-le-pow}
use rya.Json.{Json}
use rya.Errors.{ok, err, e_queue_conflict}
use rya.Store.{Store}
use rya.Store.Docs.{QueueJob, running, cancelled}
use rya.Store.Queue.{queue_get, same_status}
use rya.Queue.Enqueue.{JobSpec, existing_job, enqueue_unless, enqueue}
use rya.Queue.Report.{
  backoff_base, backoff_cap, backoff, found_or_raise, get_or_raise, held_by, check_holder,
  heartbeat, complete, fail,
}
use rya.Queue.Listing.{same_status-eq}

-- A worker holds a job while the job runs under that worker's id.
abbrev pub Holder : String → QueueJob → Type 0
Holder w j = (j.status ≡ running) × (j.worker_id ≡ some w)

held-Holder :
    (w : String) (j : QueueJob) → (same_status j.status running && held_by w j) ≡ true → Holder w j
unfolding held_by
held-Holder w j h = elim (Option-cases j.worker_id) [
  | inl n ↦ absurd (ground arith)
  | inr (v, e) ↦ (same_status-eq j.status running (ground arith), ground (arith, eq_iff v w))
]

not-Holder :
    (w : String) (j : QueueJob)
    → ¬ Holder w j
    → (same_status j.status running && held_by w j) ≡ false
not-Holder w j h = elim (Bool-cases (same_status j.status running && held_by w j)) [
  | inl e ↦ absurd (h (held-Holder w j e))
  | inr e ↦ e
]

module _ (i w : String) (now : ℕ) (s : Store) (j : QueueJob) (stored : queue_get i s.queue ≡ some j)
    (other : ¬ Holder w j) where
  -- A report on a stored job by a worker that does not hold it (the job runs elsewhere, or does
  -- not run) writes nothing. A heartbeat raises a conflict; a completion and a failure do so too
  -- unless the job is cancelled, and on a cancelled job they return it as it stands.
  pub report_of_other :
      (extend_seconds : ℕ) (output : Json) (message : String)
      → (heartbeat i w extend_seconds now s ≡ (err e_queue_conflict, s))
        × ((j.status ≢ cancelled)
            → (complete i w output now s ≡ (err e_queue_conflict, s))
              × (fail i w message now s ≡ (err e_queue_conflict, s)))
        × (j.status ≡ cancelled
            → (complete i w output now s ≡ (ok j, s)) × (fail i w message now s ≡ (ok j, s)))
  unfolding heartbeat complete fail get_or_raise found_or_raise check_holder
  report_of_other extend_seconds output message =
      let free = not-Holder w j other in
      (
        rw (stored, free),
        λ n.
            let live : same_status j.status cancelled ≡ false = ground arith in
            (rw (stored, live, free), rw (stored, live, free)),
        λ e. (rw (stored, e), rw (stored, e)),
      )

-- An `enqueue` with a type and the nonempty id of a stored job returns that job as it stands and
-- writes nothing, whatever the quota and the state of the workspace.
pub enqueue_existing :
    (now ns : ℕ) (fresh type i : String) (spec : JobSpec) (s : Store) (j : QueueJob)
    → type ≢ ""
    → i ≢ ""
    → spec.job_id ≡ some i
    → queue_get i s.queue ≡ some j
    → enqueue now ns fresh type spec s ≡ (ok j, s)
unfolding enqueue enqueue_unless existing_job
enqueue_existing now ns fresh type i spec s j typed named given stored =
    let has_type : str_eq type "" ≡ false = ground (arith, eq_iff type "") in
    let has_id : str_eq i "" ≡ false = ground (arith, eq_iff i "") in
    rw (has_type, given, has_id, stored)

-- From the first attempt on, the wait after a failure is at least 5 and at most 300 seconds, and
-- is never shorter after more attempts.
pub backoff-bounds :
    (n m : ℕ)
    → 1 ≤ n
    → n ≤ m
    → (backoff_base ≤ backoff n) × (backoff n ≤ backoff m) × (backoff m ≤ backoff_cap)
unfolding backoff
backoff-bounds zero m h k = elim h [ ]
backoff-bounds (suc n) zero h k = elim k [ ]
backoff-bounds (suc n) (suc m) h k =
    let p = pow-le-pow_right {n = 2} (omega arith) {i = n} {j = m} (omega arith) in
    let q = one-le-pow n 2 (omega arith) in (ground arith, ground arith, ground arith)
