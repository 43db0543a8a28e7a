-- ===== src/Tests/Shared.antt =====
-- The theorems of Jobs, Leases and Broker at concrete inputs.
use rya.Prelude.{◌≡◌, refl, true, false, none, some, List, [], ◌∷◌, arith}
use rya.Json.{null}
use rya.Errors.{err, e_scope_denied}
use rya.Store.{Store, empty}
use rya.Store.Table
use rya.Store.Docs.{OnComplete, Lease}
use rya.Store.Groups.{create_job_group, group_job_done}
use rya.Store.Leases.{lease_acquire, lease_release, lease_get, is_taken, new_lease, slug}
use rya.Queue.Claim.{is_foreign, clashes, version_of}
use rya.Queue.Valid.{IsQueue}
use rya.Tests.Queue.{distinct, IsQueue-of_All, tagged, waiting}
use rya.Jobs.FanIn.{run_done, fires_at, group_job_done_exact}
use rya.Leases.{acquires, releases, lease_run, lease_exclusive}
use rya.Broker.Mediation.{Capability, completes, brokered_transition}
use rya.Broker.Isolation.{Request, asks_claim, asks_move, serve_all, unowned, fork_isolated}

abbrev report : OnComplete
report = record { parent_run_id = none; handler = "report"; payload = null }

abbrev grouped : Store
grouped = (create_job_group 100 "grp_1" report 2 empty).1

group_job_done_exact_example :
    (group_job_done "grp_1" true (run_done (("grp_1", true) ∷ ("grp_2", false) ∷ []) grouped)).0
    ≡ some (true, some report)
unfolding fires_at
group_job_done_exact_example =
    group_job_done_exact 100 2 "grp_1" report empty (("grp_1", true) ∷ ("grp_2", false) ∷ []) true

abbrev held : Lease
held = record {
  id = "supervisor_acme";
  name = "supervisor:acme";
  holder = "a";
  acquired_at = 100;
  expires_at = 130;
  renewed = false;
}

abbrev supervised : Store
supervised =
    lease_run (acquires 110 "supervisor:acme" "b" 60 ∷ releases "supervisor:acme" "b" ∷ [])
      (lease_acquire 100 "supervisor:acme" "a" 30 empty).1

lease_exclusive_example :
    (lease_acquire 120 "supervisor:acme" "c" 30 supervised ≡ (none, supervised))
    × (lease_release "supervisor:acme" "c" supervised ≡ (false, supervised))
    × (lease_get "supervisor:acme" supervised ≡ some held)
unfolding lease_acquire lease_get is_taken new_lease slug Table.get
lease_exclusive_example =
    lease_exclusive 100 "supervisor:acme" "a" 30 empty held
      (acquires 110 "supervisor:acme" "b" 60 ∷ releases "supervisor:acme" "b" ∷ []) "c" 120 30 refl
      ((distinct "b" "a" refl, omega arith), (distinct "b" "a" refl, tt)) (distinct "c" "a" refl)
      (omega arith)

abbrev fork : Capability
fork = record { agent = "mailer"; version_id = "v1"; dispatch = "d1" }

abbrev both : Store
both = record empty { queue = waiting ∷ tagged ∷ [] }

both-IsQueue : IsQueue both.queue
both-IsQueue = IsQueue-of_All both.queue (ground arith) (ground arith)

abbrev requests : List Request
requests = asks_claim [] 60 200 ∷ asks_move "a" (completes null) 210 ∷ []

fork_isolated_example :
    brokered_transition fork "b"
      (completes null)
      220
      (serve_all fork requests (record { store = both; owned = unowned }))
    ≡ (err e_scope_denied, serve_all fork requests (record { store = both; owned = unowned }))
unfolding is_foreign clashes version_of Table.get
fork_isolated_example =
    fork_isolated fork both requests tagged (completes null) 220 both-IsQueue refl refl
