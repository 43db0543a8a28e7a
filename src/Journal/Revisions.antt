-- ===== src/Journal/Revisions.antt =====
-- store.py: `journal_append` and `journal_read`. The file of a run is the list of its lines.
use rya.Prelude.{
  ℕ, suc, max, String, Bool, true, Option, none, some, List, [], ◌∷◌, ◌++◌, leb, ◌==◌,
  if◌then◌else◌,
}
use rya.Json.{Json}
use rya.Store.Table

-- A step of a run's journal, as it is appended; the rest of its fields are the body.
pub record Entry : Type 0 where
  pub seq : ℕ
  pub body : Json

-- a line of the file
pub record Revision : Type 0 where
  pub entry : Entry
  pub run_id : String
  pub revision : ℕ
  pub appended_at : ℕ

pub record JournalFile : Type 0 where
  pub run_id : String
  pub lines : List Revision

abbrev pub file_id : JournalFile → String
file_id f = f.run_id

abbrev lines_in : Option JournalFile → List Revision
lines_in none = []
lines_in (some f) = f.lines

-- _read_jsonl
abbrev pub lines_of : String → List JournalFile → List Revision
lines_of run t = lines_in (Table.get file_id run t)

-- `max(revisions of the seq, default=-1) + 1`
unfoldable pub next_revision : ℕ → List Revision → ℕ
next_revision q [] = 0
next_revision q (e ∷ es) =
    let rest = next_revision q es in if e.entry.seq == q then max (suc e.revision) rest else rest

-- the record of `journal_append`
unfoldable pub new_revision : ℕ → String → Entry → List Revision → Revision
new_revision now run entry es = record {
  entry = entry;
  run_id = run;
  revision = next_revision entry.seq es;
  appended_at = now;
}

-- journal_append
unfoldable pub journal_append : ℕ → String → Entry → List JournalFile → Revision × List JournalFile
journal_append now run entry t =
    let e = new_revision now run entry (lines_of run t) in
    (e, Table.save file_id (record { run_id = run; lines = lines_of run t ++ e ∷ [] }) t)

-- a dictionary by `seq`
unfoldable pub at_seq : ℕ → List Revision → Option Revision
at_seq q [] = none
at_seq q (e ∷ es) = if e.entry.seq == q then some e else at_seq q es

unfoldable pub put_at_seq : Revision → List Revision → List Revision
put_at_seq e [] = e ∷ []
put_at_seq e (d ∷ ds) = if d.entry.seq == e.entry.seq then e ∷ ds else d ∷ put_at_seq e ds

abbrev pub is_later : Revision → Option Revision → Bool
is_later e none = true
is_later e (some d) = leb d.revision e.revision

-- the body of the loop of `journal_read`
unfoldable pub take_later : List Revision → Revision → List Revision
take_later latest e = if is_later e (at_seq e.entry.seq latest) then put_at_seq e latest else latest

abbrev pub read_lines : List Revision → List Revision → List Revision
read_lines latest [] = latest
read_lines latest (e ∷ es) = read_lines (take_later latest e) es

-- journal_read
unfoldable pub journal_read : String → List JournalFile → List Revision
journal_read run t = read_lines [] (lines_of run t)
