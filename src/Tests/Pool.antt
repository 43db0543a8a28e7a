-- ===== src/Tests/Pool.antt =====
-- The theorems of Pool at concrete inputs: a pool of two interpreters that is full.
use rya.Prelude.{true, List, [], ◌∷◌}
use rya.Errors.{ok}
use rya.Store.Table
use rya.Pool.Warm.{Template, Pool, new_pool}
use rya.Pool.Sequence.{PoolCall, acquires, drops, closes, pool_run, pool_run-IsPool}
use rya.Pool.Bounded.{IsPool}

abbrev template : Template
template = record { key = "c"; serial = 3 }

abbrev full_pool : Pool
full_pool = record {
  max_entries = 2;
  entries = (record { key = "a"; serial = 1 }) ∷ (record { key = "b"; serial = 2 }) ∷ [];
  used = "b" ∷ "a" ∷ [];
  stopped = [];
}

abbrev calls : List PoolCall
calls =
    acquires (λ t. true) (ok tt) template
    ∷ acquires (λ t. true) (ok tt) (record { key = "a"; serial = 4 })
    ∷ drops "c"
    ∷ closes
    ∷ []

pool_run-IsPool_example : IsPool (pool_run calls (new_pool 1))
pool_run-IsPool_example = pool_run-IsPool 1 calls
