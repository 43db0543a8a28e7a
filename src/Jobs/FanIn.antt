-- ===== src/Jobs/FanIn.antt =====
-- When a group of jobs fires (store.py, `create_job_group` and `group_job_done`).
use rya.Prelude.{
  ℕ, suc, ◌+◌, ◌-◌, max, String, ◌≡◌, refl, ap, ◌∙◌, Bool, true, false, ◌&&◌, some, List, [], ◌∷◌,
  ◌++◌, length, ◌==◌, leb, str_eq, eq_iff, arith, Bool-cases, Option-cases, inl, inr, if◌then◌else◌,
}
use rya.Store.{Store}
use rya.Store.Docs.{JobGroup, OnComplete}
use rya.Store.Groups.{
  group_id, get_group, save_group, new_group, create_job_group, fires, job_done, answer,
  group_job_done,
}
use rya.Store.Table

-- The ends of jobs, each with its group and whether the job was done or failed.
unfoldable pub run_done : List (String × Bool) → Store → Store
run_done [] s = s
run_done ((i, success) ∷ rest) s = run_done rest (group_job_done i success s).1

-- the ends of the jobs of one group
abbrev pub own : String → List (String × Bool) → List Bool
own i [] = []
own i ((j, success) ∷ rest) = if str_eq j i then success ∷ own i rest else own i rest

abbrev pub all_done : List Bool → Bool
all_done [] = true
all_done (b ∷ bs) = b && all_done bs

-- What a group promises: it fires at an end exactly when all ends so far are successes, and this
-- one is the last that it waits for.
unfoldable pub fires_at : ℕ → List Bool → Bool → Bool
fires_at count before b = all_done (before ++ b ∷ []) && (suc (length before) == max 1 count)

-- the ends, on the document alone
steps : List Bool → JobGroup → JobGroup
steps [] g = g
steps (b ∷ bs) g = steps bs (job_done b g).1

failed_group :
    (bs : List Bool) (b : Bool) (g : JobGroup)
    → g.failed ≡ true
    → (job_done b (steps bs g)).0 ≡ false
unfolding steps job_done fires
failed_group [] true g h = ground (arith)
failed_group [] false g h = refl
failed_group (true ∷ bs) b g h = failed_group bs b _ h
failed_group (false ∷ bs) b g h = failed_group bs b _ refl

-- A group that has counted `k` successes and no failure.
record Counts (count k : ℕ) (g : JobGroup) : Type 0 where
  pub remaining : g.remaining ≡ count - k
  pub fired : g.fired ≡ leb (max 1 count) k
  pub alive : g.failed ≡ false

Counts-job_done :
    (count k : ℕ) (g : JobGroup)
    → Counts count k g
    → Counts count (suc k) (job_done true g).1 × ((job_done true g).0 ≡ (suc k == max 1 count))
unfolding job_done fires
Counts-job_done count k g h = (
  record {
    remaining = omega (arith, h.remaining);
    fired = ground (arith, h.remaining, h.fired, h.alive);
    alive = h.alive;
  },
  ground (arith, h.remaining, h.fired, h.alive),
)

counted :
    (count k : ℕ) (bs : List Bool) (b : Bool) (g : JobGroup)
    → Counts count k g
    → (job_done b (steps bs g)).0
      ≡ (all_done (bs ++ b ∷ []) && (suc (k + length bs) == max 1 count))
unfolding steps job_done
counted count k [] true g h =
    let e : suc (k + 0) ≡ suc k = omega arith in rw e ((Counts-job_done count k g h).1)
counted count k [] false g h = refl
counted count k (false ∷ bs) b g h = failed_group bs b _ refl
counted count k (true ∷ bs) b g h =
    let e : suc (k + suc (length bs)) ≡ suc (suc k + length bs) = omega arith in
    rw e (counted count (suc k) bs b _ (Counts-job_done count k g h).0)

job_done-id : (b : Bool) (g : JobGroup) → (job_done b g).1.id ≡ g.id
unfolding job_done
job_done-id true g = refl
job_done-id false g = refl

job_done-on_complete : (b : Bool) (g : JobGroup) → (job_done b g).1.on_complete ≡ g.on_complete
unfolding job_done
job_done-on_complete true g = refl
job_done-on_complete false g = refl

steps-on_complete : (bs : List Bool) (g : JobGroup) → (steps bs g).on_complete ≡ g.on_complete
unfolding steps
steps-on_complete [] g = refl
steps-on_complete (b ∷ bs) g = steps-on_complete bs (job_done b g).1 ∙ job_done-on_complete b g

-- An end of another group's job leaves a group alone, one of its own is counted.
done_once :
    (i j : String) (success : Bool) (s : Store) (g : JobGroup)
    → get_group i s ≡ some g
    → get_group i (group_job_done j success s).1
      ≡ some (if str_eq j i then (job_done success g).1 else g)
unfolding group_job_done
done_once i j success s g e = elim (Option-cases (get_group j s)) [
  | inl n ↦ elim (Bool-cases (str_eq j i)) [ inl q ↦ cc ((eq_iff j i).0 q) | inr q ↦ rw (n, q) e ]
  | inr (h, f) ↦ rw f (
      Table.get-save group_id i (job_done success h).1 s.groups
      ∙ ground (
        arith,
        e,
        f,
        job_done-id success h,
        Table.get-id group_id j h s.groups f,
        eq_iff j i,
        eq_iff h.id i,
      ))
]

run_done-get :
    (i : String) (calls : List (String × Bool)) (s : Store) (g : JobGroup)
    → get_group i s ≡ some g
    → get_group i (run_done calls s) ≡ some (steps (own i calls) g)
unfolding run_done steps
run_done-get i [] s g e = e
run_done-get i ((j, success) ∷ rest) s g e = elim (Bool-cases (str_eq j i)) [
  | inl q ↦ rw q (run_done-get i rest _ _ (done_once i j success s g e ∙ rw q refl))
  | inr q ↦ rw q (run_done-get i rest _ _ (done_once i j success s g e ∙ rw q refl))
]

fires_here :
    (count : ℕ) (bs : List Bool) (b : Bool) (g : JobGroup)
    → Counts count 0 g
    → (job_done b (steps bs g)).0 ≡ fires_at count bs b
unfolding fires_at
fires_here count bs b g h =
    let e : 0 + length bs ≡ length bs = omega arith in
    counted count 0 bs b g h ∙ ap (λ n. all_done (bs ++ b ∷ []) && (suc n == max 1 count)) e

-- After a group is created under a fresh id and any ends of jobs of any groups are counted, the
-- next end of a job of the group has the answer that the specification gives for the ends of this
-- group alone: it fires exactly when all of them so far are successes and this one is the last of
-- the `count` it waits for (of one, for a count of 0); the answer to a success carries what the
-- group was created with.
pub group_job_done_exact :
    (now count : ℕ) (fresh : String) (c : OnComplete) (s : Store) (calls : List (String × Bool))
    (success : Bool)
    → (group_job_done fresh success (run_done calls (create_job_group now fresh c count s).1)).0
      ≡ some (answer success (fires_at count (own fresh calls) success) c)
unfolding create_job_group group_job_done new_group
group_job_done_exact now count fresh c s calls success =
    let g = new_group now fresh c count in
    let e : get_group fresh (save_group g s) ≡ some g =
      Table.get-save group_id fresh g s.groups ∙ rw ((eq_iff fresh fresh).1 refl) refl in
    let p : (job_done success (steps (own fresh calls) g)).0
        ≡ fires_at count (own fresh calls) success =
      fires_here count (own fresh calls) success g
        (record { remaining = omega arith; fired = ground arith; alive = refl }) in
    let q : (job_done success (steps (own fresh calls) g)).1.on_complete ≡ c =
      job_done-on_complete success _ ∙ steps-on_complete (own fresh calls) g in
    rw (run_done-get fresh calls (save_group g s) g e) (λ k. some (answer success (p k) (q k)))
