-- ===== src/Store/Runs.antt =====
-- store.py: the runs and the approvals, one document each.
use rya.Prelude.{ℕ, String, Option}
use rya.Store.{Store}
use rya.Store.Docs.{Run, Approval}
use rya.Store.Table

abbrev pub run_id : Run → String
run_id r = r.id

abbrev pub approval_id : Approval → String
approval_id a = a.id

-- get_run, save_run
unfoldable pub get_run : String → Store → Option Run
get_run i s = Table.get run_id i s.runs

unfoldable pub save_run : ℕ → Run → Store → Store
save_run now r s = record s { runs = Table.save run_id (record r { updated_at = now }) s.runs }

-- get_approval, save_approval
unfoldable pub get_approval : String → Store → Option Approval
get_approval i s = Table.get approval_id i s.approvals

unfoldable pub save_approval : Approval → Store → Store
save_approval a s = record s { approvals = Table.save approval_id a s.approvals }
