-- ===== src/Store/Workers.antt =====
-- store.py: the registrations of workers.
use rya.Prelude.{ℕ, String, Bool, Option, none, some, List, map, ltb}
use rya.Prelude.Sort.{sorted}
use rya.Store.{Store}
use rya.Store.Docs.{Worker, stopped}
use rya.Store.Reads.{worker_liveness}
use rya.Store.Table

abbrev pub registration_id : Worker → String
registration_id w = w.id

abbrev pub started_later : Worker → Worker → Bool
started_later a b = ltb b.started_at a.started_at

abbrev pub with_liveness : ℕ → Worker → Worker
with_liveness now w = record w { status = worker_liveness now w }

-- worker_list with no filter, and apply_worker_liveness over it
unfoldable pub worker_list : ℕ → Store → List Worker
worker_list now s = map (with_liveness now) (sorted started_later s.workers)

-- what `worker_deregister` writes
abbrev pub stopped_worker : ℕ → String → Worker → Worker
stopped_worker now reason w = record w {
  status = stopped;
  stopped_at = some now;
  stop_reason = some reason;
}

abbrev pub deregister_found : ℕ → String → Option Worker → Store → Store
deregister_found now reason none s = s
deregister_found now reason (some w) s = record s {
  workers = Table.save registration_id (stopped_worker now reason w) s.workers;
}

-- worker_deregister
unfoldable pub worker_deregister : ℕ → String → String → Store → Store
worker_deregister now i reason s =
    deregister_found now reason (Table.get registration_id i s.workers) s
