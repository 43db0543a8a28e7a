-- ===== src/Queue/Steps.antt =====
-- Every operation of the queue (queue.py) moves each job along its life, and nothing else.
use rya.Prelude.{
  ℕ, ◌+◌, String, ◌≡◌, refl, ap, ◌∙◌, ◌⊎◌, Bool, true, ◌&&◌, Option, none, some, arith,
}
use rya.Json.{Json}
use rya.Errors.{Exec, Result, ok, err, then_run, require_cases, if_cases}
use rya.Store.{Store}
use rya.Store.Docs.{QueueJob, JobStatus, running, failed, cancelled}
use rya.Store.Queue.{stamp, queue_save, queue_get, same_status}
use rya.Queue.Life.{Change, extends, completes, fails, cancels, retries, rests}
use rya.Queue.Listing.{same_status-eq}
use rya.Queue.Tables.{
  IsTable, Evolves, Evolves-trans, Change-Evolves, queue_save-IsTable, queue_get-id,
}
use rya.Queue.Report.{
  held_by, check_holder, heartbeat, completed_job, complete, failed_job, fail, cancelled_job,
  cancel, retried_job, retryable, retry, found_or_raise, cancel_found,
}

-- The queue of `s'` follows from that of `s` by changes of single jobs.
pub record Follows (s s' : Store) : Type 0 where
  pub table : IsTable s'.queue
  pub life : Evolves s.queue s'.queue

pub Follows-refl : (s : Store) → IsTable s.queue → Follows s s
Follows-refl s u = record { table = u; life = λ i. rests }

pub Follows-trans : (s s' s'' : Store) → Follows s s' → Follows s' s'' → Follows s s''
Follows-trans s s' s'' f g = record {
  table = g.table;
  life = Evolves-trans s.queue s'.queue s''.queue f.life g.life;
}

-- One action after another.
pub Follows-bind :
    {A B : Type 0} (s : Store) (m : Result A × Store) (f : A → Exec Store B)
    → Follows s m.1
    → ((a : A) → Follows m.1 (f a m.1).1)
    → Follows s (then_run m f).1
Follows-bind s (ok a, s') f h k = Follows-trans s s' (f a s').1 h (k a)
Follows-bind s (err c, s') f h k = h

module _ (i : String) (now : ℕ) (s : Store) (u : IsTable s.queue) where
  -- One job is read, changed and written back.
  written :
      (j k : QueueJob)
      → queue_get i s.queue ≡ some j
      → k.id ≡ j.id
      → Change j (stamp now k)
      → Follows s (record s { queue = queue_save now k s.queue })
  written j k e same c = record {
    table = queue_save-IsTable now k s.queue u;
    life =
        Change-Evolves now k s.queue j
          (ap (λ x. queue_get x s.queue) (same ∙ queue_get-id i j s.queue e) ∙ e) c;
  }

  holds-running :
      (w : String) (j : QueueJob)
      → (same_status j.status running && held_by w j) ≡ true
      → j.status ≡ running
  holds-running w j h = same_status-eq j.status running (ground arith)

  -- What holds after `_get_or_raise` found the job, or raised.
  found_cases :
      {A : Type 0} (o : Option QueueJob) (k : QueueJob → Exec Store A)
      → ((j : QueueJob) → o ≡ some j → Follows s (k j s).1)
      → Follows s (then_run (found_or_raise o s) k).1
  unfolding found_or_raise
  found_cases none k h = Follows-refl s u
  found_cases (some j) k h = h j refl

  -- A report of a worker that holds the job.
  held_cases :
      {A : Type 0} (w : String) (j : QueueJob) (k : Exec Store A)
      → (j.status ≡ running → Follows s (k s).1)
      → Follows s (then_run (check_holder j w s) (λ _. k)).1
  unfolding check_holder
  held_cases w j k h =
      require_cases (λ r. Follows s r.1) s _ _ k (λ e. h (holds-running w j e))
        (λ _. Follows-refl s u)

  pub heartbeat-Follows :
      (w : String) (extend_seconds : ℕ) → Follows s (heartbeat i w extend_seconds now s).1
  unfolding heartbeat
  heartbeat-Follows w extend_seconds = found_cases (queue_get i s.queue) _ (λ j e.
      held_cases w j _ (λ runs.
        written j (record j { lease_expires_at = some (now + extend_seconds) }) e refl
          (extends now (now + extend_seconds) runs refl)))

  completed-id : (output : Json) (j : QueueJob) → (completed_job now output j).id ≡ j.id
  unfolding completed_job
  completed-id output j = refl

  failed-id : (message : String) (j : QueueJob) → (failed_job now message j).id ≡ j.id
  unfolding failed_job
  failed-id message j = ground arith

  cancelled-id : (force : Bool) (j : QueueJob) → (cancelled_job now force j).id ≡ j.id
  unfolding cancelled_job
  cancelled-id force j = ground arith

  retried-id : (ns : ℕ) (j : QueueJob) → (retried_job now ns j).id ≡ j.id
  unfolding retried_job
  retried-id ns j = refl

  retryable-status : (st : JobStatus) → retryable st ≡ true → (st ≡ failed) ⊎ (st ≡ cancelled)
  retryable-status st h = ground arith

  pub complete-Follows : (w : String) (output : Json) → Follows s (complete i w output now s).1
  unfolding complete
  complete-Follows w output = found_cases (queue_get i s.queue) _ (λ j e.
      if_cases (λ r. Follows s r.1) s (same_status j.status cancelled) _ _ (λ _. Follows-refl s u)
        (λ _. held_cases w j _ (λ runs.
          written j (completed_job now output j) e (completed-id output j)
            (completes now output runs refl))))

  pub fail-Follows : (w message : String) → Follows s (fail i w message now s).1
  unfolding fail
  fail-Follows w message = found_cases (queue_get i s.queue) _ (λ j e.
      if_cases (λ r. Follows s r.1) s (same_status j.status cancelled) _ _ (λ _. Follows-refl s u)
        (λ _. held_cases w j _ (λ runs.
          written j (failed_job now message j) e (failed-id message j)
            (fails now message runs refl))))

  cancel_found-Follows :
      (force : Bool) (o : Option QueueJob)
      → queue_get i s.queue ≡ o
      → Follows s (cancel_found force now o s).1
  unfolding cancel_found
  cancel_found-Follows force none e = Follows-refl s u
  cancel_found-Follows force (some j) e =
      written j (cancelled_job now force j) e (cancelled-id force j) (cancels now force refl)

  pub cancel-Follows : (force : Bool) → Follows s (cancel i force now s).1
  unfolding cancel
  cancel-Follows force = cancel_found-Follows force (queue_get i s.queue) refl

  pub retry-Follows : (ns : ℕ) → Follows s (retry i now ns s).1
  unfolding retry
  retry-Follows ns = found_cases (queue_get i s.queue) _ (λ j e.
      require_cases (λ r. Follows s r.1) s _ _ _
        (λ h.
          written j (retried_job now ns j) e (retried-id ns j)
            (retries now ns (retryable-status j.status h) refl))
        (λ _. Follows-refl s u))
