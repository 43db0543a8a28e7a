-- ===== src/Journal/Latest.antt =====
-- What a reader of the journal sees (store.py, `journal_append` and `journal_read`).
use rya.Prelude.{
  ℕ, suc, ◌+◌, max, String, ◌≡◌, refl, sym, ap, ◌∙◌, inl, inr, true, ◌&&◌, some, List, [], ◌∷◌,
  ◌++◌, leb, ◌==◌, str_eq, eq_iff, arith, Bool-cases, Option-cases, if◌then◌else◌,
}
use mathlib.Core.Option.{some-injective}
use rya.Store.Table
use rya.Journal.Revisions.{
  Entry, Revision, JournalFile, file_id, lines_of, next_revision, new_revision, journal_append,
  at_seq, put_at_seq, is_later, take_later, read_lines, journal_read,
}

-- An append of a worker: the clock, the run and the entry.
abbrev pub Append : Type 0
Append = ℕ × String × Entry

unfoldable pub append_all : List Append → List JournalFile → List JournalFile
append_all [] t = t
append_all ((now, run, entry) ∷ rest) t = append_all rest (journal_append now run entry t).1

-- the number of appends of one step of one run
abbrev pub appends_of : String → ℕ → List Append → ℕ
appends_of run q [] = 0
appends_of run q ((now, r, entry) ∷ rest) =
    let n = appends_of run q rest in if str_eq r run && entry.seq == q then suc n else n

read_lines-snoc :
    (latest es : List Revision) (e : Revision)
    → read_lines latest (es ++ e ∷ []) ≡ take_later (read_lines latest es) e
read_lines-snoc latest [] e = refl
read_lines-snoc latest (x ∷ xs) e = read_lines-snoc (take_later latest x) xs e

at_seq-put :
    (q : ℕ) (e : Revision) (ds : List Revision)
    → at_seq q (put_at_seq e ds) ≡ (if e.entry.seq == q then some e else at_seq q ds)
unfolding at_seq put_at_seq
at_seq-put q e [] = refl
at_seq-put q e (d ∷ ds) = ground (arith, at_seq-put q e ds)

next_revision-snoc :
    (q : ℕ) (es : List Revision) (e : Revision)
    → next_revision q (es ++ e ∷ [])
      ≡ (if e.entry.seq == q then max (next_revision q es) (suc e.revision) else next_revision q es)
unfolding next_revision
next_revision-snoc q [] e = ground arith
next_revision-snoc q (x ∷ xs) e = ground (arith, next_revision-snoc q xs e)

-- The lines of a file that was written by appends: no read revision is above the next one.
record IsOrdered (es : List Revision) : Type 0 where
  pub below :
      (q : ℕ) (d : Revision)
      → at_seq q (read_lines [] es) ≡ some d
      → leb d.revision (next_revision q es) ≡ true

module _ (now : ℕ) (run : String) (entry : Entry) (es : List Revision) (h : IsOrdered es) where
  abbrev appended : Revision
  appended = new_revision now run entry es

  later : is_later appended (at_seq entry.seq (read_lines [] es)) ≡ true
  unfolding new_revision
  later = elim (Option-cases (at_seq entry.seq (read_lines [] es))) [
    | inl n ↦ rw n refl
    | inr (d, e) ↦ rw e (h.below entry.seq d e)
  ]

  taken : read_lines [] (es ++ appended ∷ []) ≡ put_at_seq appended (read_lines [] es)
  unfolding take_later new_revision
  taken = read_lines-snoc [] es appended ∙ rw later refl

  latest_snoc :
      (q : ℕ)
      → at_seq q (read_lines [] (es ++ appended ∷ []))
        ≡ (if entry.seq == q then some appended else at_seq q (read_lines [] es))
  unfolding new_revision
  latest_snoc q = ap (at_seq q) taken ∙ at_seq-put q appended (read_lines [] es)

  next_counts :
      (q : ℕ)
      → next_revision q (es ++ appended ∷ [])
        ≡ (if entry.seq == q then suc (next_revision q es) else next_revision q es)
  unfolding new_revision
  next_counts q = ground (arith, next_revision-snoc q es appended)

  snoc-IsOrdered : IsOrdered (es ++ appended ∷ [])
  unfolding new_revision
  snoc-IsOrdered = record {
    below = λ q d e. elim (Bool-cases (entry.seq == q)) [
      | inl y ↦
          let d_is : appended ≡ d = some-injective _ _ (sym (latest_snoc q ∙ rw y refl) ∙ e) in
          let q_is : entry.seq ≡ q = ground arith in
          ground
            (arith, ap (λ x. x.revision) d_is, next_counts q, y, ap (λ k. next_revision k es) q_is)
      | inr n ↦ rw (next_counts q, n) (h.below q d (sym (latest_snoc q ∙ rw n refl) ∙ e))
    ];
  }

lines_of-append :
    (now : ℕ) (run other : String) (entry : Entry) (t : List JournalFile)
    → lines_of other (journal_append now run entry t).1 ≡ (
        if str_eq run other
        then lines_of run t ++ new_revision now run entry (lines_of run t) ∷ []
        else lines_of other t)
unfolding journal_append
lines_of-append now run other entry t = elim (Bool-cases (str_eq run other)) [
  | inl e ↦
      rw
        (
          Table.get-save file_id other
              (record {
                run_id = run;
                lines = lines_of run t ++ new_revision now run entry (lines_of run t) ∷ [];
              })
              t,
          e,
        )
        refl
  | inr e ↦
      rw
        (
          Table.get-save file_id other
              (record {
                run_id = run;
                lines = lines_of run t ++ new_revision now run entry (lines_of run t) ∷ [];
              })
              t,
          e,
        )
        refl
]

-- Every file was written by appends, and counts them.
abbrev AreOrdered : List JournalFile → Type 0
AreOrdered t = (run : String) → IsOrdered (lines_of run t)

append-AreOrdered :
    (now : ℕ) (run : String) (entry : Entry) (t : List JournalFile)
    → AreOrdered t
    → AreOrdered (journal_append now run entry t).1
append-AreOrdered now run entry t h other = elim (Bool-cases (str_eq run other)) [
  | inl e ↦
      rw (lines_of-append now run other entry t, e)
        (snoc-IsOrdered now run entry (lines_of run t) (h run))
  | inr e ↦ rw (lines_of-append now run other entry t, e) (h other)
]

append_all-AreOrdered :
    (calls : List Append) (t : List JournalFile) → AreOrdered t → AreOrdered (append_all calls t)
unfolding append_all
append_all-AreOrdered [] t h = h
append_all-AreOrdered ((now, run, entry) ∷ rest) t h =
    append_all-AreOrdered rest _ (append-AreOrdered now run entry t h)

append_counts :
    (now : ℕ) (run other : String) (entry : Entry) (t : List JournalFile) (q : ℕ)
    → AreOrdered t
    → next_revision q (lines_of other (journal_append now run entry t).1) ≡ (
        if str_eq run other && entry.seq == q
        then suc (next_revision q (lines_of other t))
        else next_revision q (lines_of other t))
append_counts now run other entry t q h = elim (Bool-cases (str_eq run other)) [
  | inl e ↦
      let same : run ≡ other = (eq_iff run other).0 e in
      rw (lines_of-append now run other entry t, e)
        (next_counts now run entry (lines_of run t) (h run) q
          ∙ ap
              (λ r.
                if entry.seq == q
                then suc (next_revision q (lines_of r t))
                else next_revision q (lines_of r t))
              same)
  | inr e ↦ rw (lines_of-append now run other entry t, e) refl
]

all_counted :
    (calls : List Append) (t : List JournalFile) (run : String) (q : ℕ)
    → AreOrdered t
    → next_revision q (lines_of run (append_all calls t))
      ≡ appends_of run q calls + next_revision q (lines_of run t)
unfolding append_all
all_counted [] t run q h = omega arith
all_counted ((now, r, entry) ∷ rest) t run q h = ground (
  arith,
  all_counted rest (journal_append now r entry t).1 run q (append-AreOrdered now r entry t h),
  append_counts now r run entry t q h,
)

nothing-AreOrdered : AreOrdered []
unfolding Table.get at_seq
nothing-AreOrdered run = record { below = λ q d e. cc }

no_lines : (run : String) (q : ℕ) → next_revision q (lines_of run []) ≡ 0
unfolding Table.get next_revision
no_lines run q = refl

read_after :
    (now : ℕ) (run other : String) (entry : Entry) (t : List JournalFile) (q : ℕ)
    → AreOrdered t
    → at_seq q (journal_read other (journal_append now run entry t).1) ≡ (
        if str_eq run other && entry.seq == q
        then some (journal_append now run entry t).0
        else at_seq q (journal_read other t))
unfolding journal_read journal_append
read_after now run other entry t q h = elim (Bool-cases (str_eq run other)) [
  | inl e ↦
      let same : run ≡ other = (eq_iff run other).0 e in
      rw (lines_of-append now run other entry t, e)
        (latest_snoc now run entry (lines_of run t) (h run) q
          ∙ ap
              (λ r.
                if entry.seq == q
                then some (new_revision now run entry (lines_of run t))
                else at_seq q (read_lines [] (lines_of r t)))
              same)
  | inr e ↦ rw (lines_of-append now run other entry t, e) refl
]

-- After any appends to the journals of any runs, from none, `journal_append` returns the entry
-- with the number of former appends of its step of its run as its revision; `journal_read` then
-- has this record at that step of that run, and at every other step and run what it had before.
pub journal_read_latest :
    (calls : List Append) (now : ℕ) (run other : String) (entry : Entry) (q : ℕ)
    → let t = append_all calls [] in
      let (e, t') = journal_append now run entry t in
      (e.entry ≡ entry)
      × (e.revision ≡ appends_of run entry.seq calls)
      × (at_seq q (journal_read other t') ≡ (
          if str_eq run other && entry.seq == q then some e else at_seq q (journal_read other t)))
unfolding journal_append new_revision
journal_read_latest calls now run other entry q =
    let t = append_all calls [] in
    let h = append_all-AreOrdered calls [] nothing-AreOrdered in
    (
      refl,
      all_counted calls [] run entry.seq nothing-AreOrdered ∙ omega (arith, no_lines run entry.seq),
      read_after now run other entry t q h,
    )
