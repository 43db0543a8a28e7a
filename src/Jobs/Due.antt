-- ===== src/Jobs/Due.antt =====
-- Which job `claim_due_job` takes (store.py).
use mathlib.Core.Option.{some-injective}
use rya.Prelude.{
  ℕ, ◌≤◌, String, ◌≡◌, refl, ap, eq_iff, ◌⊎◌, inl, inr, true, false, Option, none, some, List,
  first_where, first_where-some, first_where-none, Member, Member-keep, Member-keep_of, arith,
}
use rya.Prelude.Sort.{
  Member-of_sorted, Member-sorted, Ordered, Lex, Ordered-sorted, Ordered-Unit, first_where-Ordered,
}
use rya.Store.{Store}
use rya.Store.Docs.{Job, JobState}
use rya.Store.Table
use rya.Store.Jobs.{
  job_id, save_job, same_state, name_before, due_before, list_jobs, is_mine, is_due, claim_found,
  claim_due_job,
}

is_mine-means :
    (asked owner : Option String)
    → is_mine asked owner ≡ true
    → (asked ≡ none) ⊎ (owner ≡ none) ⊎ (owner ≡ asked)
is_mine-means none owner e = inl refl
is_mine-means (some a) none e = inr (inl refl)
is_mine-means (some a) (some o) e = inr (inr (ap some ((eq_iff o a).0 e)))

is_mine-holds :
    (asked owner : Option String)
    → (asked ≡ none) ⊎ (owner ≡ none) ⊎ (owner ≡ asked)
    → is_mine asked owner ≡ true
is_mine-holds none owner h = refl
is_mine-holds (some a) none h = refl
is_mine-holds (some a) (some o) (inl e) = cc
is_mine-holds (some a) (some o) (inr (inl e)) = cc
is_mine-holds (some a) (some o) (inr (inr e)) = (eq_iff o a).1 (some-injective _ _ e)

-- A stored job that a claim may take: pending, due, and of the asking agent or of none.
pub record IsDue (now : ℕ) (agent : Option String) (s : Store) (j : Job) : Type 0 where
  pub found : Member j s.jobs
  pub waits : j.status ≡ JobState.pending
  pub due : j.run_at ≤ now
  pub mine : (agent ≡ none) ⊎ (j.agent ≡ none) ⊎ (j.agent ≡ agent)

IsDue-of :
    (now : ℕ) (agent : Option String) (s : Store) (j : Job)
    → Member j s.jobs
    → j.status ≡ JobState.pending
    → is_due now agent j ≡ true
    → IsDue now agent s j
unfolding is_due
IsDue-of now agent s j m waits e = record {
  found = m;
  waits = waits;
  due = ground arith;
  mine = is_mine-means agent j.agent (ground arith);
}

is_due-IsDue :
    (now : ℕ) (agent : Option String) (s : Store) (j : Job)
    → IsDue now agent s j
    → is_due now agent j ≡ true
unfolding is_due
is_due-IsDue now agent s j h = ground (arith, h.due, is_mine-holds agent j.agent h.mine)

state_of_same : (a b : JobState) → same_state a b ≡ true → a ≡ b
state_of_same a b e = ground arith

same_as_self : (a : JobState) → same_state a a ≡ true
same_as_self a = ground arith

due-asym : (x y : Job) → due_before x y ≡ true → due_before y x ≡ false
due-asym x y e = ground arith

due-neg_trans :
    (x y z : Job) → due_before y x ≡ false → due_before x z ≡ false → due_before y z ≡ false
due-neg_trans x y z h k = ground arith

-- In the order of the listing, an earlier job is due no later.
abbrev pub Sooner : Job → Job → Type 0
Sooner = Lex due_before (λ x y. Unit {0})

list_jobs-Ordered : (st : JobState) (t : List Job) → Ordered Sooner (list_jobs st t)
unfolding list_jobs
list_jobs-Ordered st t = Ordered-sorted due_before due-asym due-neg_trans _ _ (Ordered-Unit _)

Member-of_list_jobs :
    (st : JobState) (t : List Job) (j : Job)
    → Member j (list_jobs st t)
    → Member j t × (j.status ≡ st)
unfolding list_jobs
Member-of_list_jobs st t j m =
    let (n, e) =
      Member-keep (λ k. same_state k.status st) j _ (Member-of_sorted due_before j _ m) in
    (Member-of_sorted name_before j t n, state_of_same j.status st e)

Member-list_jobs :
    (st : JobState) (t : List Job) (j : Job)
    → Member j t
    → j.status ≡ st
    → Member j (list_jobs st t)
unfolding list_jobs
Member-list_jobs st t j m e = Member-sorted due_before j _ (
    Member-keep_of (λ k. same_state k.status st) j _ (Member-sorted name_before j t m)
      (rw e (same_as_self st)))

module _ (now : ℕ) (agent : Option String) (s : Store) where
  pick : Option Job
  pick = first_where (is_due now agent) (list_jobs JobState.pending s.jobs)

  abbrev pub claimed_of : Job → Job
  claimed_of j = record j { status = JobState.claimed }

  -- What `claim_due_job` does, on each branch.
  abbrev pub Outcome : Option Job × Store → Type 0
  Outcome x =
      ((x ≡ (none, s)) × ((b : Job) → ¬ IsDue now agent s b))
      ⊎ ((j : Job) × IsDue now agent s j
          × (x ≡ (some (claimed_of j), record s { jobs = Table.save job_id (claimed_of j) s.jobs }))
          × ((b : Job) → IsDue now agent s b → j.run_at ≤ b.run_at))

  by_pick : (o : Option Job) → pick ≡ o → Outcome (claim_found o s)
  unfolding pick save_job
  by_pick none e = inl (
    refl,
    λ b h. cc (
      first_where-none (is_due now agent) _ b e
          (Member-list_jobs JobState.pending s.jobs b h.found h.waits),
      is_due-IsDue now agent s b h,
    ),
  )
  by_pick (some j) e =
      let (m, passes) = first_where-some (is_due now agent) _ j e in
      let (found, waits) = Member-of_list_jobs JobState.pending s.jobs j m in
      inr (
        j,
        IsDue-of now agent s j found waits passes,
        refl,
        λ b h.
            elim (first_where-Ordered Sooner (is_due now agent) _ j b
              (list_jobs-Ordered JobState.pending s.jobs) e
              (Member-list_jobs JobState.pending s.jobs b h.found h.waits)
              (is_due-IsDue now agent s b h)) [
                | inl q ↦ rw q (omega arith)
                | inr (later, _) ↦ ground (arith, later)
              ],
      )

  -- `claim_due_job` returns nothing and writes nothing, and then no stored job is pending, due
  -- and of the asking agent or of none; or it returns and stores, as claimed, such a job, and no
  -- other such job is due earlier; a claim with no agent takes any agent's.
  pub claim_due_job_lem : Outcome (claim_due_job now agent s)
  unfolding claim_due_job pick
  claim_due_job_lem = by_pick pick refl
