-- ===== src/Queue/Precedence.antt =====
-- The order in which `queue_claim_one` (store.py) goes through the jobs.
use rya.Prelude.{◌≤◌, ltb, ltb→lt, ℕ, ◌≡◌, inl, inr, true, false, List, arith}
use rya.Prelude.Sort.{Ordered, Ordered-sorted, Ordered-Unit, Lex}
use rya.Prelude.Int.{ltb_ℤ}
use rya.Store.Docs.{QueueJob, JobStatus}
use rya.Store.Queue.{key_of, busy, dispatch_before, queue_list, fair_before, fair_order}
use rya.Queue.Eligible.{load_of, busy-load_of}

dispatch-asym : (x y : QueueJob) → dispatch_before x y ≡ true → dispatch_before y x ≡ false
unfolding dispatch_before
dispatch-asym x y h = ground arith

dispatch-neg_trans :
    (x y z : QueueJob)
    → dispatch_before y x ≡ false
    → dispatch_before x z ≡ false
    → dispatch_before y z ≡ false
unfolding dispatch_before
dispatch-neg_trans x y z h k = ground arith

fair-asym :
    (t : List QueueJob) (x y : QueueJob) → fair_before t x y ≡ true → fair_before t y x ≡ false
unfolding fair_before
fair-asym t x y h = ground arith

fair-neg_trans :
    (t : List QueueJob) (x y z : QueueJob)
    → fair_before t y x ≡ false
    → fair_before t x z ≡ false
    → fair_before t y z ≡ false
unfolding fair_before
fair-neg_trans t x y z h k = ground arith

-- The order of dispatch: the less busy key first, then `(-priority, runAt, seq)`.
abbrev pub Served : List QueueJob → QueueJob → QueueJob → Type 0
Served t = Lex (fair_before t) (Lex dispatch_before (λ x y. Unit {0}))

pub fair_order-Ordered :
    (t : List QueueJob) (st : JobStatus) → Ordered (Served t) (fair_order t (queue_list st t))
unfolding fair_order queue_list
fair_order-Ordered t st =
    Ordered-sorted (fair_before t) (fair-asym t) (fair-neg_trans t) _ _
      (Ordered-sorted dispatch_before dispatch-asym dispatch-neg_trans _ _ (Ordered-Unit _))

-- A job that comes no later than another: the less busy key first, then the higher priority, the
-- earlier due time and the lower `seq`.
pub record Precedes (t : List QueueJob) (j b : QueueJob) : Type 0 where
  pub lighter : load_of t j.concurrency_key ≤ load_of t b.concurrency_key
  pub higher :
      load_of t j.concurrency_key ≡ load_of t b.concurrency_key
      → ltb_ℤ j.priority b.priority ≡ false
  pub sooner :
      load_of t j.concurrency_key ≡ load_of t b.concurrency_key
      → ltb_ℤ b.priority j.priority ≡ false
      → j.run_at ≤ b.run_at
  pub earlier :
      load_of t j.concurrency_key ≡ load_of t b.concurrency_key
      → ltb_ℤ b.priority j.priority ≡ false
      → j.run_at ≡ b.run_at
      → j.seq ≤ b.seq

tied :
    (t : List QueueJob) (j b : QueueJob)
    → Served t j b
    → load_of t j.concurrency_key ≡ load_of t b.concurrency_key
    → dispatch_before b j ≡ false
unfolding fair_before
tied t j b (not_after, inl lighter) e =
    let less = ltb→lt (busy t (key_of j)) (busy t (key_of b)) lighter in
    absurd (omega (arith, less, busy-load_of t j, busy-load_of t b, e))
tied t j b (not_after, inr (d, _)) e = d

dispatch-means :
    (j b : QueueJob)
    → dispatch_before b j ≡ false
    → (ltb_ℤ j.priority b.priority ≡ false)
      × (ltb_ℤ b.priority j.priority ≡ false → j.run_at ≤ b.run_at)
      × (ltb_ℤ b.priority j.priority ≡ false → j.run_at ≡ b.run_at → j.seq ≤ b.seq)
unfolding dispatch_before
dispatch-means j b e = (ground arith, λ q. ground arith, λ q r. ground arith)

not_ltb→le : (a b : ℕ) → ltb a b ≡ false → b ≤ a
not_ltb→le a b h = ground arith

pub Precedes-of_Served : (t : List QueueJob) (j b : QueueJob) → Served t j b → Precedes t j b
unfolding fair_before
Precedes-of_Served t j b h = record {
  lighter = omega (
    arith,
    not_ltb→le (busy t (key_of b)) (busy t (key_of j)) h.0,
    busy-load_of t j,
    busy-load_of t b,
  );
  higher = λ e. (dispatch-means j b (tied t j b h e)).0;
  sooner = λ e q. (dispatch-means j b (tied t j b h e)).1 q;
  earlier = λ e q r. (dispatch-means j b (tied t j b h e)).2 q r;
}
