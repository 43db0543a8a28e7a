-- ===== src/Turns/Decisions.antt =====
-- What the decisions about an approval promise (turns.py, `enqueue_resume` and `reject_approval`).
use rya.Prelude.{
  ℕ, String, ◌≡◌, refl, sym, ap, ◌∙◌, ◌⊎◌, inl, inr, true, false, Option, none, some, eq_iff, arith,
  Bool-cases,
}
use rya.Errors.{
  Code, Result, ok, err, e_approval_not_found, e_approval_not_pending, e_run_not_found,
  e_run_not_paused,
}
use rya.Store.{Store}
use rya.Store.Docs.{Run, Approval, QueueJob}
use rya.Store.Runs.{approval_id, get_run, get_approval, save_approval}
use rya.Queue.Tables.{queue_get-save_self}
use rya.Store.Queue.{job_id, stamp, queue_save, queue_get}
use rya.Store.Table
use rya.Queue.Enqueue.{new_job, enqueue}
use rya.Queue.Accepted.{enqueue-Accepts}
use rya.Turns.Start.{pinned_spec}
use rya.Turns.Approvals.{
  is_pending, is_paused, resume_spec, approving_by, resume_found, run_of, enqueue_resume,
}

pub get-save_approval :
    (i : String) (a : Approval) (s : Store) → a.id ≡ i → get_approval i (save_approval a s) ≡ some a
unfolding get_approval save_approval
get-save_approval i a s e =
    ground (arith, Table.get-save approval_id i a s.approvals, eq_iff a.id i)

pub get_approval-id : (i : String) (a : Approval) (s : Store) → get_approval i s ≡ some a → a.id ≡ i
unfolding get_approval
get_approval-id i a s e = Table.get-id approval_id i a s.approvals e

-- An approval that is decided takes no approval more.
pub decided_refused :
    (now ns : ℕ) (fresh i : String) (actor : Option String) (m : ℕ) (a : Approval) (s : Store)
    → get_approval i s ≡ some a
    → is_pending a.status ≡ false
    → enqueue_resume now ns fresh i actor m s ≡ (err e_approval_not_pending, s)
unfolding enqueue_resume resume_found
decided_refused now ns fresh i actor m a s e d = rw e (by_run (run_of (some a) s))
  where
    by_run :
        (o : Option Run)
        → resume_found now ns fresh i actor m (some a) o s ≡ (err e_approval_not_pending, s)
    by_run none = rw d refl
    by_run (some r) = rw d refl

-- An approval that can be approved: it waits, and so does its run.
pub record IsResumable (i : String) (s : Store) (a : Approval) (r : Run) : Type 0 where
  pub approval : get_approval i s ≡ some a
  pub waits : is_pending a.status ≡ true
  pub run : get_run a.run_id s ≡ some r
  pub paused : is_paused r.status ≡ true

module _ (now ns : ℕ) (fresh i : String) (actor : Option String) (m : ℕ) (s : Store) where
  -- what `enqueue_resume` writes before it enqueues
  abbrev pub decided : Approval → Store
  decided a = save_approval (approving_by actor a) s

  -- the job of the resume
  abbrev pub resume_job : Run → QueueJob
  resume_job r = stamp now (new_job now ns fresh "approval-resume" (resume_spec i actor m r))

  abbrev pub stored : Run → Store → Store
  stored r t = record t {
    queue =
        queue_save now (new_job now ns fresh "approval-resume" (resume_spec i actor m r)) t.queue;
  }

  abbrev Resumed : Approval → Run → Result QueueJob × Store → Type 0
  Resumed a r x =
      ((c : Code) × (x ≡ (err c, decided a))) ⊎ (x ≡ (ok (resume_job r), stored r (decided a)))

  enqueues :
      (a : Approval) (r : Run)
      → Resumed a r (enqueue now ns fresh "approval-resume" (resume_spec i actor m r) (decided a))
  unfolding resume_spec pinned_spec save_approval
  enqueues a r =
      enqueue-Accepts now ns fresh "approval-resume" (resume_spec i actor m r) (decided a) refl refl

  abbrev pub Outcome : Result QueueJob × Store → Type 0
  Outcome x =
      ((c : Code) × (x ≡ (err c, s)))
      ⊎ ((a : Approval) × (r : Run) × IsResumable i s a r × Resumed a r x)

  by_run :
      (a : Approval) (o : Option Run)
      → get_approval i s ≡ some a
      → get_run a.run_id s ≡ o
      → Outcome (resume_found now ns fresh i actor m (some a) o s)
  unfolding resume_found
  by_run a none e f = elim (Bool-cases (is_pending a.status)) [
    | inl h ↦ rw h (inl (e_run_not_found, refl))
    | inr h ↦ rw h (inl (e_approval_not_pending, refl))
  ]
  by_run a (some r) e f = elim (Bool-cases (is_pending a.status)) [
    | inl h ↦ elim (Bool-cases (is_paused r.status)) [
      | inl k ↦
          rw (h, k)
            (inr (a, r, record { approval = e; waits = h; run = f; paused = k }, enqueues a r))
      | inr k ↦ rw (h, k) (inl (e_run_not_paused, refl))
    ]
    | inr h ↦ rw h (inl (e_approval_not_pending, refl))
  ]

  by_approval :
      (o : Option Approval)
      → get_approval i s ≡ o
      → Outcome (resume_found now ns fresh i actor m o (run_of o s) s)
  unfolding resume_found run_of
  by_approval none e = inl (e_approval_not_found, refl)
  by_approval (some a) e = by_run a (get_run a.run_id s) e refl

  pub enqueue_resume_lem : Outcome (enqueue_resume now ns fresh i actor m s)
  unfolding enqueue_resume
  enqueue_resume_lem = by_approval (get_approval i s) refl

  resumes :
      (a : Approval) (r : Run)
      → IsResumable i s a r
      → Resumed a r (enqueue_resume now ns fresh i actor m s)
  unfolding enqueue_resume run_of resume_found
  resumes a r h = rw h.approval (rw h.run (rw (h.waits, h.paused) (enqueues a r)))

  runs_stay : (a : Approval) (r : Run) → (stored r (decided a)).runs ≡ s.runs
  unfolding save_approval
  runs_stay a r = refl

  queue_stays : (a : Approval) → (decided a).queue ≡ s.queue
  unfolding save_approval
  queue_stays a = refl

  -- An approval that was approved is refused from then on.
  approving_refused :
      (a : Approval) (s1 later : Store) (now' ns' : ℕ) (fresh' : String) (actor' : Option String)
      (m' : ℕ)
      → get_approval i s ≡ some a
      → s1.approvals ≡ (decided a).approvals
      → get_approval i later ≡ get_approval i s1
      → enqueue_resume now' ns' fresh' i actor' m' later ≡ (err e_approval_not_pending, later)
  unfolding approving_by get_approval
  approving_refused a s1 later now' ns' fresh' actor' m' e q l =
      decided_refused now' ns' fresh' i actor' m' (approving_by actor a) later
        (l
          ∙ ap (Table.get approval_id i) q
          ∙ get-save_approval i (approving_by actor a) s (get_approval-id i a s e))
        refl

  -- What a resume that returns a job has found and written.
  pub resumed_is :
      (j : QueueJob) (s1 : Store)
      → enqueue_resume now ns fresh i actor m s ≡ (ok j, s1)
      → (a : Approval) × (r : Run) × IsResumable i s a r
        × (j ≡ resume_job r)
        × (s1 ≡ stored r (decided a))
  resumed_is j s1 e = elim enqueue_resume_lem [
    | inl (c, x) ↦ cc
    | inr (a, r, h, inl (c, x)) ↦ cc
    | inr (a, r, h, inr x) ↦ (a, r, h, ground (arith, e, x), ap (λ y. y.1) (sym e ∙ x))
  ]

  -- When `enqueue_resume` returns a job, the approval was pending and its run paused; the job is
  -- the one for that run, it is stored, and the runs are unchanged; and while the approval stands
  -- as this call left it, every other `enqueue_resume` for it is refused as not pending and
  -- writes nothing.
  pub resume_once :
      (j : QueueJob) (s1 later : Store) (now' ns' : ℕ) (fresh' : String) (actor' : Option String)
      (m' : ℕ)
      → enqueue_resume now ns fresh i actor m s ≡ (ok j, s1)
      → get_approval i later ≡ get_approval i s1
      → ((a : Approval) × (r : Run) × IsResumable i s a r × (j ≡ resume_job r) × (s1.runs ≡ s.runs))
        × (queue_get j.id s1.queue ≡ some j)
        × (enqueue_resume now' ns' fresh' i actor' m' later ≡ (err e_approval_not_pending, later))
  unfolding save_approval
  resume_once j s1 later now' ns' fresh' actor' m' e l =
      let (a, r, h, same, s1_is) = resumed_is j s1 e in
      (
        (a, r, h, same, ap (λ y. y.runs) s1_is ∙ runs_stay a r),
        ap (λ y. queue_get j.id y.queue) s1_is
            ∙ queue_get-save_self j.id now
                (new_job now ns fresh "approval-resume" (resume_spec i actor m r)) s.queue
                (ap job_id (sym same))
            ∙ ap some (sym same),
        approving_refused a s1 later now' ns' fresh' actor' m' h.approval
            (ap (λ y. y.approvals) s1_is) l,
      )

  -- When an approval is pending and its run paused, and `enqueue_resume` raises, the queue is
  -- unchanged, and while the approval stands as this call left it, every other `enqueue_resume`
  -- for it is refused as not pending and writes nothing.
  pub resume_refused :
      (a : Approval) (r : Run) (c : Code) (s1 later : Store) (now' ns' : ℕ) (fresh' : String)
      (actor' : Option String) (m' : ℕ)
      → IsResumable i s a r
      → enqueue_resume now ns fresh i actor m s ≡ (err c, s1)
      → get_approval i later ≡ get_approval i s1
      → (s1.queue ≡ s.queue)
        × (enqueue_resume now' ns' fresh' i actor' m' later ≡ (err e_approval_not_pending, later))
  resume_refused a r c s1 later now' ns' fresh' actor' m' h e l = elim (resumes a r h) [
    | inr x ↦ cc
    | inl (c', x) ↦
        let s1_is : s1 ≡ decided a = ap (λ y. y.1) (sym e ∙ x) in
        (
          ap (λ y. y.queue) s1_is ∙ queue_stays a,
          approving_refused a s1 later now' ns' fresh' actor' m' h.approval
              (ap (λ y. y.approvals) s1_is) l,
        )
  ]
