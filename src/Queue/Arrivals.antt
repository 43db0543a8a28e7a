-- ===== src/Queue/Arrivals.antt =====
-- `enqueue` and `enqueue_batch` (queue.py) as steps of the queue.
use rya.Prelude.{
  ℕ, String, ◌≡◌, refl, ap, ◌∙◌, Option, none, some, List, [], ◌∷◌, str_eq, length, Bool-cases, inl,
  inr,
}
use rya.Errors.{Code, then_run}
use rya.Store.{Store}
use rya.Store.Docs.{QueueJob}
use rya.Store.Queue.{queue_get}
use rya.Quotas.Admission.{job}
use rya.Quotas.Cases.{admission_cases}
use rya.Queue.Enqueue.{
  JobSpec, given_id, or_fresh, new_job, put_job, buildable, existing_job, enqueue_new,
  enqueue_unless, enqueue, enqueue_each, batch_usage, enqueue_batch,
}
use rya.Queue.Tables.{IsTable, new-Evolves, queue_save-IsTable}
use rya.Queue.Steps.{Follows, Follows-refl, Follows-bind}

-- The id that `_new_id` makes names no job yet.
abbrev pub IsFresh : String → Store → Type 0
IsFresh i s = queue_get i s.queue ≡ none

new-id :
    (now ns : ℕ) (fresh type : String) (spec : JobSpec)
    → (new_job now ns fresh type spec).id ≡ or_fresh (given_id spec.job_id) fresh
unfolding new_job
new-id now ns fresh type spec = refl

module _ (now ns : ℕ) (fresh type : String) (spec : JobSpec) (s : Store) (u : IsTable s.queue) where
  put-Follows :
      queue_get (or_fresh (given_id spec.job_id) fresh) s.queue ≡ none
      → Follows s (put_job now (new_job now ns fresh type spec) s).1
  unfolding put_job
  put-Follows absent = record {
    table = queue_save-IsTable now (new_job now ns fresh type spec) s.queue u;
    life =
        new-Evolves now (new_job now ns fresh type spec) s.queue ns fresh type spec
          (ap (λ i. queue_get i s.queue) (new-id now ns fresh type spec) ∙ absent) refl;
  }

  new-Follows :
      queue_get (or_fresh (given_id spec.job_id) fresh) s.queue ≡ none
      → Follows s (enqueue_new now ns fresh type spec s).1
  unfolding enqueue_new
  new-Follows absent =
      admission_cases (λ r. Follows s r.1) job none now s _ (λ v _. built spec.unusable)
        (λ c. Follows-refl s u)
    where
      built :
          (o : Option Code)
          → Follows s
              (then_run (buildable o s) (λ _. put_job now (new_job now ns fresh type spec))).1
      built none = put-Follows absent
      built (some c) = Follows-refl s u

  unless-Follows :
      (o : Option QueueJob)
      → (o ≡ none → queue_get (or_fresh (given_id spec.job_id) fresh) s.queue ≡ none)
      → Follows s (enqueue_unless o now ns fresh type spec s).1
  unfolding enqueue_unless
  unless-Follows none absent = new-Follows (absent refl)
  unless-Follows (some j) absent = Follows-refl s u

  absent_id :
      (o : Option String)
      → IsFresh fresh s
      → existing_job o s ≡ none
      → queue_get (or_fresh o fresh) s.queue ≡ none
  unfolding existing_job
  absent_id none f e = f
  absent_id (some i) f e = e

  pub enqueue-Follows : IsFresh fresh s → Follows s (enqueue now ns fresh type spec s).1
  unfolding enqueue
  enqueue-Follows f = elim (Bool-cases (str_eq type "")) [
    | inl e ↦ rw e (Follows-refl s u)
    | inr e ↦ rw e (
        unless-Follows (existing_job (given_id spec.job_id) s) (absent_id (given_id spec.job_id) f))
  ]

-- The ids of a batch are fresh, each when it is made.
abbrev pub FreshEach : ℕ → String → List (String × ℕ × JobSpec) → Store → Type 0
FreshEach now type [] s = Unit
FreshEach now type ((fresh, ns, spec) ∷ rest) s =
    IsFresh fresh s × FreshEach now type rest (enqueue now ns fresh type spec s).1

pub enqueue_each-Follows :
    (now : ℕ) (type : String) (items : List (String × ℕ × JobSpec)) (s : Store)
    → IsTable s.queue
    → FreshEach now type items s
    → Follows s (enqueue_each now type items s).1
unfolding enqueue_each
enqueue_each-Follows now type [] s u f = Follows-refl s u
enqueue_each-Follows now type ((fresh, ns, spec) ∷ rest) s u f =
    let one = enqueue-Follows now ns fresh type spec s u f.0 in
    Follows-bind s (enqueue now ns fresh type spec s) _ one (λ j.
      let s' = (enqueue now ns fresh type spec s).1 in
      let more = enqueue_each-Follows now type rest s' one.table f.1 in
      Follows-bind s' (enqueue_each now type rest s') _ more (λ js. Follows-refl _ more.table))

pub enqueue_batch-Follows :
    (now : ℕ) (type : String) (items : List (String × ℕ × JobSpec)) (s : Store)
    → IsTable s.queue
    → FreshEach now type items s
    → Follows s (enqueue_batch now type items s).1
unfolding enqueue_batch
enqueue_batch-Follows now type items s u f =
    admission_cases (λ r. Follows s r.1) job (some (batch_usage now (length items) s)) now s _
      (λ v _. enqueue_each-Follows now type items s u f) (λ c. Follows-refl s u)
