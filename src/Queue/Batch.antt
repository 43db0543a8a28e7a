-- ===== src/Queue/Batch.antt =====
-- `enqueue_batch` (queue.py) against the quota: once its charge is admitted, no item is refused.
use rya.Prelude.{ℕ, String, ◌≡◌, false, some, List, ◌∷◌, ◌++◌, str_eq, ◌⊎◌, length}
use rya.Errors.{Result, ok, err, Code}
use rya.Store.{Store}
use rya.Store.Docs.{QueueJob}
use rya.Quotas.Policy.{QuotaPolicy}
use rya.Queue.Enqueue.{JobSpec, enqueue_each}
use rya.Queue.Room.{RoomFor}

-- One item of the batch is enqueued, and leaves room for the others, or it is unusable.
module _ (now : ℕ) (p : QuotaPolicy) (type : String) (typed : str_eq type "" ≡ false) where
  abbrev Enqueued : ℕ → JobSpec → Store → Result QueueJob × Store → Type 0
  Enqueued n spec s r =
      ((j : QueueJob) × (r.0 ≡ ok j) × RoomFor n now p r.1)
      ⊎ ((c : Code) × (spec.unusable ≡ some c) × (r ≡ (err c, s)))

-- A batch stops at an unusable item: the items in front of it are enqueued, and it raises.
pub record StopsAt (now : ℕ) (type : String) (items : List (String × ℕ × JobSpec)) (s : Store)
    (r : Result (List QueueJob) × Store) : Type 0 where
  pub front : List (String × ℕ × JobSpec)
  pub fresh : String
  pub ns : ℕ
  pub spec : JobSpec
  pub behind : List (String × ℕ × JobSpec)
  pub split : items ≡ front ++ (fresh, ns, spec) ∷ behind
  pub code : Code
  pub unusable : spec.unusable ≡ some code
  pub stored : List QueueJob
  pub left : Store
  pub enqueued : enqueue_each now type front s ≡ (ok stored, left)
  pub raised : r ≡ (err code, left)

module _ (now : ℕ) (p : QuotaPolicy) (type : String) (typed : str_eq type "" ≡ false) where
  abbrev Whole : List (String × ℕ × JobSpec) → Store → Result (List QueueJob) × Store → Type 0
  Whole items s r =
      ((js : List QueueJob) × (r.0 ≡ ok js) × (length js ≡ length items))
      ⊎ StopsAt now type items s r
