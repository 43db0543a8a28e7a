-- ===== src/Turns/Rejections.antt =====
-- What a rejection promises (turns.py, `reject_approval` and `reject_on_stream`).
use rya.Prelude.{
  ℕ, String, ◌≡◌, refl, sym, ap, ◌∙◌, ◌⊎◌, inl, inr, true, false, Option, none, some, List, eq_iff,
  arith, Bool-cases,
}
use rya.Errors.{
  Code, Result, ok, err, e_approval_not_found, e_approval_not_pending, e_run_not_found,
}
use rya.Store.{Store}
use rya.Store.Docs.{Run, Approval, Stream}
use rya.Store.Reads.{is_terminal_status}
use rya.Store.Runs.{run_id, get_run, save_run, get_approval, save_approval}
use rya.Store.Table
use rya.Turns.Approvals.{
  is_open, run_of, enqueue_resume, rejected_by, rejected_run, reject_found, reject_approval,
}
use rya.Turns.Decisions.{get-save_approval, get_approval-id, decided_refused}

module _ (now : ℕ) (i : String) (actor : Option String) (s : Store) where
  -- what `reject_approval` writes
  abbrev pub rejects : Approval → Run → Store
  rejects a r = save_run now (rejected_run now i a r) (save_approval (rejected_by now actor a) s)

  abbrev pub final_run : Approval → Run → Run
  final_run a r = record (rejected_run now i a r) { updated_at = now }

  abbrev pub Outcome : Result Run × Store → Type 0
  Outcome x =
      ((c : Code) × (x ≡ (err c, s)))
      ⊎ ((a : Approval) × (r : Run) × (get_approval i s ≡ some a)
          × (is_open a.status ≡ true)
          × (get_run a.run_id s ≡ some r)
          × (x ≡ (ok (final_run a r), rejects a r)))

  by_run :
      (a : Approval) (o : Option Run)
      → get_approval i s ≡ some a
      → get_run a.run_id s ≡ o
      → Outcome (reject_found now i actor (some a) o s)
  unfolding reject_found
  by_run a none e f = elim (Bool-cases (is_open a.status)) [
    | inl h ↦ rw h (inl (e_run_not_found, refl))
    | inr h ↦ rw h (inl (e_approval_not_pending, refl))
  ]
  by_run a (some r) e f = elim (Bool-cases (is_open a.status)) [
    | inl h ↦ rw h (inr (a, r, e, h, f, refl))
    | inr h ↦ rw h (inl (e_approval_not_pending, refl))
  ]

  by_approval :
      (o : Option Approval)
      → get_approval i s ≡ o
      → Outcome (reject_found now i actor o (run_of o s) s)
  unfolding reject_found run_of
  by_approval none e = inl (e_approval_not_found, refl)
  by_approval (some a) e = by_run a (get_run a.run_id s) e refl

  pub reject_approval_lem : Outcome (reject_approval now i actor s)
  unfolding reject_approval
  reject_approval_lem = by_approval (get_approval i s) refl

  stored_after :
      (a : Approval) (r : Run)
      → get_approval i s ≡ some a
      → (get_approval i (rejects a r) ≡ some (rejected_by now actor a))
        × (get_run (final_run a r).id (rejects a r) ≡ some (final_run a r))
        × ((rejects a r).queue ≡ s.queue)
  unfolding save_run get_run save_approval get_approval rejected_by rejected_run
  stored_after a r e = (
    get-save_approval i (rejected_by now actor a) s (get_approval-id i a s e),
    Table.get-save run_id r.id (final_run a r) s.runs ∙ rw ((eq_iff r.id r.id).1 refl) refl,
    refl,
  )

-- A decided approval takes no rejection either.
closed_refused :
    (now : ℕ) (i : String) (actor : Option String) (a : Approval) (s : Store)
    → get_approval i s ≡ some a
    → is_open a.status ≡ false
    → reject_approval now i actor s ≡ (err e_approval_not_pending, s)
unfolding reject_approval reject_found
closed_refused now i actor a s e d = rw e (by_run (run_of (some a) s))
  where
    by_run :
        (o : Option Run) → reject_found now i actor (some a) o s ≡ (err e_approval_not_pending, s)
    by_run none = rw d refl
    by_run (some r) = rw d refl

-- When `reject_approval` returns a run, that run is stored, its status is terminal and it waits
-- for no approval, and the queue is unchanged; and while the approval stands as this call left
-- it, every later `enqueue_resume` and `reject_approval` for it is refused as not pending and
-- writes nothing.
pub reject_approval_final :
    (now : ℕ) (i : String) (actor : Option String) (s s1 later : Store) (r : Run) (now' ns' m' : ℕ)
    (fresh' : String) (actor' : Option String)
    → reject_approval now i actor s ≡ (ok r, s1)
    → get_approval i later ≡ get_approval i s1
    → (is_terminal_status r.status ≡ true)
      × (r.pending_approval ≡ none)
      × (get_run r.id s1 ≡ some r)
      × (s1.queue ≡ s.queue)
      × (enqueue_resume now' ns' fresh' i actor' m' later ≡ (err e_approval_not_pending, later))
      × (reject_approval now' i actor' later ≡ (err e_approval_not_pending, later))
unfolding is_terminal_status rejected_run rejected_by
reject_approval_final now i actor s s1 later r now' ns' m' fresh' actor' e l =
    elim (reject_approval_lem now i actor s) [
      | inl (c, x) ↦ cc
      | inr (a, r', found, opened, run, x) ↦
          let r_is : r ≡ final_run now i actor s a r' = ground (arith, e, x) in
          let s1_is : s1 ≡ rejects now i actor s a r' = ap (λ y. y.1) (sym e ∙ x) in
          let (appr, run_stored, queue) = stored_after now i actor s a r' found in
          let later_is = l ∙ ap (get_approval i) s1_is ∙ appr in
          (
            ap (λ y. is_terminal_status y.status) r_is,
            ap (λ y. y.pending_approval) r_is,
            rw (s1_is, r_is) run_stored,
            rw s1_is queue,
            decided_refused now' ns' fresh' i actor' m' (rejected_by now actor a) later later_is
                refl,
            closed_refused now' i actor' (rejected_by now actor a) later later_is refl,
          )
    ]

-- Nothing of a rejection depends on the streams.
module _ (now : ℕ) (i : String) (actor : Option String) (s : Store) (t : List Stream) where
  abbrev pub with_streams : Result Run × Store → Result Run × Store
  with_streams x = (x.0, record (x.1) { streams = t })

  found_streams :
      (o : Option Approval) (p : Option Run)
      → reject_found now i actor o p (record s { streams = t })
        ≡ with_streams (reject_found now i actor o p s)
  unfolding reject_found save_run save_approval
  found_streams none p = refl
  found_streams (some a) none = elim (Bool-cases (is_open a.status)) [
    | inl h ↦ rw h refl
    | inr h ↦ rw h refl
  ]
  found_streams (some a) (some r) = elim (Bool-cases (is_open a.status)) [
    | inl h ↦ rw h refl
    | inr h ↦ rw h refl
  ]

  pub reject_approval-streams :
      reject_approval now i actor (record s { streams = t })
      ≡ with_streams (reject_approval now i actor s)
  unfolding reject_approval get_approval run_of get_run
  reject_approval-streams = run_same (get_approval i s)
    where
      run_same :
          (o : Option Approval)
          → reject_found now i actor o
              (run_of o (record s { streams = t }))
              (record s { streams = t })
            ≡ with_streams (reject_found now i actor o (run_of o s) s)
      run_same none = found_streams none none
      run_same (some a) = found_streams (some a) (get_run a.run_id s)
