-- ===== src/Queue/Tables.antt =====
-- Writes to the queue table, seen through the life of the job under each id.
use rya.Prelude.{
  ℕ, String, ◌≡◌, refl, ◌∙◌, ◌≢◌, none, some, List, arith, Member, str_eq, eq_iff, Bool-cases, inl,
  inr, if◌then◌else◌,
}
use rya.Store.Docs.{QueueJob}
use rya.Store.Queue.{job_id, stamp, queue_save, queue_get}
use rya.Store.Table
use rya.Queue.Enqueue.{JobSpec, new_job}
use rya.Queue.Life.{Change, Life, rests, enqueued, changed, Life-trans}

abbrev pub IsTable : List QueueJob → Type 0
IsTable t = Table.Unique job_id t

-- Nothing but lives from `t` to `u`: no job is removed, and none changes but by a `Change`.
abbrev pub Evolves : List QueueJob → List QueueJob → Type 0
Evolves t u = (i : String) → Life (queue_get i t) (queue_get i u)

pub Evolves-refl : (t : List QueueJob) → Evolves t t
Evolves-refl t i = rests

pub Evolves-trans : (t u v : List QueueJob) → Evolves t u → Evolves u v → Evolves t v
Evolves-trans t u v f g i = Life-trans (f i) (g i)

pub queue_get-save :
    (i : String) (now : ℕ) (j : QueueJob) (t : List QueueJob)
    → queue_get i (queue_save now j t)
      ≡ (if str_eq j.id i then some (stamp now j) else queue_get i t)
queue_get-save i now j t = Table.get-save job_id i (stamp now j) t

pub queue_save-IsTable :
    (now : ℕ) (j : QueueJob) (t : List QueueJob) → IsTable t → IsTable (queue_save now j t)
queue_save-IsTable now j t u = Table.Unique-save job_id (stamp now j) t u

pub queue_get-save_self :
    (i : String) (now : ℕ) (j : QueueJob) (t : List QueueJob)
    → j.id ≡ i
    → queue_get i (queue_save now j t) ≡ some (stamp now j)
queue_get-save_self i now j t e = queue_get-save i now j t ∙ rw ((eq_iff j.id i).1 e)

pub queue_get-save_ne :
    (i : String) (now : ℕ) (j : QueueJob) (t : List QueueJob)
    → j.id ≢ i
    → queue_get i (queue_save now j t) ≡ queue_get i t
queue_get-save_ne i now j t n = ground (arith, queue_get-save i now j t, eq_iff j.id i)

module _ (now : ℕ) (k : QueueJob) (t : List QueueJob) where
  -- Writing a change of the stored job is a step of that job's life, and leaves the others alone.
  pub Change-Evolves :
      (j : QueueJob)
      → queue_get k.id t ≡ some j
      → Change j (stamp now k)
      → Evolves t (queue_save now k t)
  Change-Evolves j e c i = elim (Bool-cases (str_eq k.id i)) [
    | inl h ↦
        let same = (eq_iff k.id i).0 h in
        let here : queue_get i t ≡ some j = rw (← same) e in
        rw (queue_get-save_self i now k t same, here) (changed rests c)
    | inr h ↦ rw (queue_get-save i now k t, h) rests
  ]

  pub new-Evolves :
      (ns : ℕ) (fresh type : String) (spec : JobSpec)
      → queue_get k.id t ≡ none
      → k ≡ new_job now ns fresh type spec
      → Evolves t (queue_save now k t)
  new-Evolves ns fresh type spec e q i = elim (Bool-cases (str_eq k.id i)) [
    | inl h ↦
        let same = (eq_iff k.id i).0 h in
        let absent : queue_get i t ≡ none = rw (← same) e in
        rw (queue_get-save_self i now k t same, absent, q)
          (enqueued now ns fresh type spec rests refl)
    | inr h ↦ rw (queue_get-save i now k t, h) rests
  ]

-- The jobs of a listing are the stored ones.
pub queue_get_of_Member :
    (j : QueueJob) (t : List QueueJob) → IsTable t → Member j t → queue_get j.id t ≡ some j
queue_get_of_Member j t u m = Table.get_of_Member job_id j t u m

pub queue_get-id :
    (i : String) (j : QueueJob) (t : List QueueJob) → queue_get i t ≡ some j → j.id ≡ i
queue_get-id i j t e = Table.get-id job_id i j t e
