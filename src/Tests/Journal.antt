-- ===== src/Tests/Journal.antt =====
-- The theorem of Journal at a concrete input: a step that was appended, and is revised.
use rya.Prelude.{◌≡◌, some, List, [], ◌∷◌}
use rya.Json.{null, text}
use rya.Journal.Revisions.{Entry, journal_append, journal_read, at_seq, JournalFile}
use rya.Journal.Latest.{Append, append_all, journal_read_latest}

abbrev pending_step : Entry
pending_step = record { seq = 0; body = null }

abbrev done_step : Entry
done_step = record { seq = 0; body = text "done" }

abbrev appends : List Append
appends = (100, "run_1", pending_step) ∷ (110, "run_2", pending_step) ∷ []

abbrev journals : List JournalFile
journals = append_all appends []

journal_read_latest_example :
    ((journal_append 120 "run_1" done_step journals).0.entry ≡ done_step)
    × ((journal_append 120 "run_1" done_step journals).0.revision ≡ 1)
    × (at_seq 0 (journal_read "run_1" (journal_append 120 "run_1" done_step journals).1)
        ≡ some (journal_append 120 "run_1" done_step journals).0)
journal_read_latest_example = journal_read_latest appends 120 "run_1" "run_1" done_step 0
