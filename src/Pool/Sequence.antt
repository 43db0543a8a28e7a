-- ===== src/Pool/Sequence.antt =====
-- Any sequence of calls of the pool of warm interpreters (execution/pool.py, `WarmPool`).
use rya.Prelude.{
  ℕ, ◌≤◌, String, ◌≡◌, refl, ◌∙◌, inl, inr, Bool, Option, none, some, List, [], ◌∷◌, length, arith,
  Option-cases,
}
use rya.Errors.{Result}
use rya.Store.Table
use rya.Pool.Warm.{
  Template, Pool, template_key, entry_of, without, popped, acquire, use_of, get_entry, drop_entry,
  close, new_pool,
}
use rya.Pool.Keys.{
  IsKept, contains-without, Distinct-without, length-without, length-without_ne, get-popped,
  length-popped,
}
use rya.Pool.Bounded.{IsPool, touched-IsKept}
use rya.Pool.Acquire.{acquire_lem}

-- A call, with which interpreters live and how a start ends.
pub data PoolCall : Type 0 where
  acquires : (alive : Template → Bool) → (started : Result (Unit {0})) → Template → PoolCall
  gets : (key : String) → PoolCall
  drops : (key : String) → PoolCall
  closes : PoolCall

unfoldable pub pool_step : PoolCall → Pool → Pool
pool_step (acquires alive started t) p = (acquire alive started t p).1
pool_step (gets key) p = (get_entry key p).1
pool_step (drops key) p = (drop_entry key p).1
pool_step closes p = close p

unfoldable pub pool_run : List PoolCall → Pool → Pool
pool_run [] p = p
pool_run (c ∷ cs) p = pool_run cs (pool_step c p)

popped_absent :
    (key : String) (ts : List Template) → Table.get template_key key ts ≡ none → popped key ts ≡ ts
unfolding Table.get
popped_absent key [] e = refl
popped_absent key (t ∷ ts) e = ground (arith, popped_absent key ts)

dropped-count :
    (key : String) (used : List String) (ts : List Template)
    → IsKept used ts
    → length (popped key ts) ≡ length (without key used)
dropped-count key used ts h = elim (Option-cases (Table.get template_key key ts)) [
  | inl n ↦ rw (popped_absent key ts n, length-without_ne key used (h.same key ∙ rw n refl)) h.count
  | inr (t, e) ↦ omega (
    arith,
    h.count,
    length-popped key ts h.apart (rw e refl),
    length-without key used (h.same key ∙ rw e refl),
  )
]

dropped-IsKept :
    (key : String) (used : List String) (ts : List Template)
    → IsKept used ts
    → IsKept (without key used) (popped key ts)
dropped-IsKept key used ts h = record {
  apart = Table.Unique-keep template_key _ ts h.apart;
  distinct = Distinct-without key used h.distinct;
  same = λ k. ground (arith, contains-without k key used h.distinct, h.same k, get-popped k key ts);
  count = dropped-count key used ts h;
}

length-popped_le : (key : String) (ts : List Template) → length (popped key ts) ≤ length ts
length-popped_le key [] = omega arith
length-popped_le key (t ∷ ts) = ground (arith, length-popped_le key ts)

used-IsPool :
    (key : String) (o : Option Template) (p : Pool)
    → entry_of key p ≡ o
    → IsPool p
    → IsPool (use_of key o p).1
used-IsPool key none p e h = h
used-IsPool key (some t) p e h = record {
  room = h.room;
  kept = touched-IsKept key p.used p.entries t h.kept e;
  bound = h.bound;
}

acquired-IsPool :
    (alive : Template → Bool) (started : Result (Unit {0})) (t : Template) (p : Pool)
    → IsPool p
    → IsPool (acquire alive started t p).1
acquired-IsPool alive started t p h = elim (acquire_lem alive started t p h) [
  | inl (c, s, e, q, entries, used) ↦ q
  | inr (u, q, e, handed) ↦ rw e handed.ordered
]

pool_step-IsPool : (c : PoolCall) (p : Pool) → IsPool p → IsPool (pool_step c p)
unfolding pool_step get_entry drop_entry close Table.get
pool_step-IsPool (acquires alive started t) p h = acquired-IsPool alive started t p h
pool_step-IsPool (gets key) p h = used-IsPool key (entry_of key p) p refl h
pool_step-IsPool (drops key) p h = record {
  room = h.room;
  kept = dropped-IsKept key p.used p.entries h.kept;
  bound = omega (arith, h.bound, length-popped_le key p.entries);
}
pool_step-IsPool closes p h = record {
  room = h.room;
  kept = record { apart = tt; distinct = tt; same = λ k. refl; count = refl };
  bound = omega arith;
}

run-IsPool : (cs : List PoolCall) (p : Pool) → IsPool p → IsPool (pool_run cs p)
unfolding pool_run
run-IsPool [] p h = h
run-IsPool (c ∷ cs) p h = run-IsPool cs (pool_step c p) (pool_step-IsPool c p h)

new-IsPool : (n : ℕ) → IsPool (new_pool n)
unfolding new_pool Table.get
new-IsPool n = record {
  room = omega arith;
  kept = record { apart = tt; distinct = tt; same = λ k. refl; count = refl };
  bound = omega arith;
}

-- After any sequence of `acquire`, `get`, `drop` and `close` on a new pool, whichever
-- interpreters live and however their starts end, the pool holds at most `max_entries`
-- interpreters (at least one), one for each key, and its list of uses names each of their keys
-- once and no other.
pub pool_run-IsPool : (n : ℕ) (calls : List PoolCall) → IsPool (pool_run calls (new_pool n))
pool_run-IsPool n calls = run-IsPool calls (new_pool n) (new-IsPool n)
