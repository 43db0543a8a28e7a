-- ===== src/Queue/Accepted.antt =====
-- `enqueue` (queue.py) of a job with no id of its own: the job is stored, or nothing is written.
use rya.Prelude.{ℕ, String, ◌≡◌, refl, ◌⊎◌, inl, inr, false, Option, none, some, str_eq}
use rya.Errors.{Code, Result, ok, err, then_run}
use rya.Store.{Store}
use rya.Store.Docs.{QueueJob}
use rya.Store.Queue.{stamp, queue_save}
use rya.Quotas.Admission.{job}
use rya.Quotas.Cases.{admission_cases}
use rya.Queue.Enqueue.{
  JobSpec, given_id, new_job, put_job, buildable, existing_job, enqueue_new, enqueue_unless,
  enqueue,
}

module _ (now ns : ℕ) (fresh type : String) (spec : JobSpec) (s : Store) where
  abbrev pub Accepts : Result QueueJob × Store → Type 0
  Accepts x =
      ((c : Code) × (x ≡ (err c, s)))
      ⊎ (x ≡ (
        ok (stamp now (new_job now ns fresh type spec)),
        record s { queue = queue_save now (new_job now ns fresh type spec) s.queue },
      ))

  pub enqueue-Accepts :
      str_eq type "" ≡ false
      → given_id spec.job_id ≡ none
      → Accepts (enqueue now ns fresh type spec s)
  unfolding enqueue enqueue_unless enqueue_new existing_job put_job
  enqueue-Accepts typed unnamed =
      rw (typed, unnamed)
        (admission_cases Accepts job none now s _ (λ v _. built spec.unusable) (λ c. inl (c, refl)))
    where
      built :
          (o : Option Code)
          → Accepts (then_run (buildable o s) (λ _. put_job now (new_job now ns fresh type spec)))
      built none = inr refl
      built (some c) = inl (c, refl)
