-- ===== src/Execution/Waiting.antt =====
-- What `peek` (execution/scope.py) reports of the waiting work, and when it fails.
use rya.Prelude.{
  ℕ, ◌+◌, String, ◌≡◌, refl, ◌∙◌, Bool, true, ◌&&◌, ◌||◌, Option, none, some, List, [], ◌∷◌, ◌++◌,
  map, keep, count_where, count_where-append, arith, str_eq, eq_iff, Bool-cases, inl, inr,
  if◌then◌else◌,
}
use rya.Prelude.Sort.{insert, sorted}
use rya.Errors.{ok}
use rya.Store.{Store}
use rya.Store.Docs.{QueueJob, pending, Job, JobState}
use rya.Store.Queue.{same_status, queue_list, dispatch_before}
use rya.Store.Jobs.{same_state, list_jobs, due_before, name_before}
use rya.Execution.Scope.{Claimable}
use rya.Execution.Peek.{
  Count, same_version, is_at, bump, bump_all, pending_of, tag_of_item, tag_of_job, due, waiting,
  count_before, any_unordered, sort_counts, to_claimable, as_groups, peek,
}

-- the groups of an agent and a version, in total
unfoldable pub depth_at : String → Option String → List Claimable → ℕ
depth_at a v [] = 0
depth_at a v (g ∷ gs) =
    let rest = depth_at a v gs in
    if str_eq g.agent a && same_version g.version_id v then g.depth + rest else rest

abbrev pub tagged : String → Option String → String × Option String → Bool
tagged a v t = str_eq t.0 a && same_version t.1 v

-- a queue item that a worker would run, for this agent and version
abbrev pub is_work : String → Option String → QueueJob → Bool
is_work a v j =
    same_status j.status pending
    && (str_eq j.type "chat-turn" || str_eq j.type "approval-resume")
    && tagged a v (tag_of_item j)

-- a due job of this agent; such a job names no version
abbrev pub is_due_work : ℕ → String → Option String → Job → Bool
is_due_work now a v j =
    same_state j.status JobState.pending && (due now j && tagged a v (tag_of_job j))

-- The work that waits for an agent and a version, counted in the tables.
unfoldable pub work_for : ℕ → String → Option String → Store → ℕ
work_for now a v s = count_where (is_work a v) s.queue + count_where (is_due_work now a v) s.jobs

unfoldable pub number_at : String → Option String → List Count → ℕ
number_at a v [] = 0
number_at a v (c ∷ cs) =
    let rest = number_at a v cs in if is_at a v c then c.number + rest else rest

module _ {A : Type 0} (p : A → Bool) where
  count_where-keep :
      (q : A → Bool) (xs : List A) → count_where p (keep q xs) ≡ count_where (λ x. q x && p x) xs
  count_where-keep q [] = refl
  count_where-keep q (x ∷ xs) = ground (arith, count_where-keep q xs)

  count_where-insert :
      (before : A → A → Bool) (a : A) (xs : List A)
      → count_where p (insert before a xs) ≡ count_where p (a ∷ xs)
  unfolding insert
  count_where-insert before a [] = refl
  count_where-insert before a (x ∷ xs) = ground (arith, count_where-insert before a xs)

  count_where-sorted :
      (before : A → A → Bool) (xs : List A) → count_where p (sorted before xs) ≡ count_where p xs
  unfolding sorted
  count_where-sorted before [] = refl
  count_where-sorted before (x ∷ xs) =
      count_where-insert before x (sorted before xs) ∙ ground (arith, count_where-sorted before xs)

count_where-map :
    {A B : Type 0} (p : B → Bool) (f : A → B) (xs : List A)
    → count_where p (map f xs) ≡ count_where (λ x. p (f x)) xs
count_where-map p f [] = refl
count_where-map p f (x ∷ xs) = ground (arith, count_where-map p f xs)

same_version-eq : (v w : Option String) → same_version v w ≡ true → v ≡ w
same_version-eq none none h = refl
same_version-eq none (some w) h = cc
same_version-eq (some v) none h = cc
same_version-eq (some v) (some w) h = ground (arith, eq_iff v w)

-- An entry stands for its own agent and version.
pub is_at-eq :
    (b : String) (w : Option String) (c : Count)
    → is_at b w c ≡ true
    → (c.agent ≡ b) × (c.version_id ≡ w)
is_at-eq b w c h = (ground (arith, eq_iff c.agent b), same_version-eq c.version_id w (ground arith))

number_at-bump :
    (a b : String) (v w : Option String) (cs : List Count)
    → number_at a v (bump b w cs) ≡ (if tagged a v (b, w) then 1 else 0) + number_at a v cs
unfolding number_at bump
number_at-bump a b v w [] = ground arith
number_at-bump a b v w (c ∷ cs) = elim (Bool-cases (is_at b w c)) [
  | inl e ↦ let (same_a, same_v) = is_at-eq b w c e in rw e (rw (← same_a, ← same_v) (ground arith))
  | inr e ↦ rw e (ground (arith, number_at-bump a b v w cs))
]

pub number_at-bump_all :
    (a : String) (v : Option String) (ts : List (String × Option String)) (cs : List Count)
    → number_at a v (bump_all ts cs) ≡ count_where (tagged a v) ts + number_at a v cs
unfolding bump_all
number_at-bump_all a v [] cs = omega arith
number_at-bump_all a v ((b, w) ∷ ts) cs =
    number_at-bump_all a v ts (bump b w cs) ∙ ground (arith, number_at-bump a b v w cs)

number_at-insert :
    (a : String) (v : Option String) (c : Count) (cs : List Count)
    → number_at a v (insert count_before c cs) ≡ number_at a v (c ∷ cs)
unfolding number_at insert
number_at-insert a v c [] = refl
number_at-insert a v c (d ∷ cs) = ground (arith, number_at-insert a v c cs)

number_at-sorted :
    (a : String) (v : Option String) (cs : List Count)
    → number_at a v (sorted count_before cs) ≡ number_at a v cs
unfolding number_at sorted
number_at-sorted a v [] = refl
number_at-sorted a v (c ∷ cs) =
    number_at-insert a v c (sorted count_before cs) ∙ ground (arith, number_at-sorted a v cs)

depth_at-map :
    (workspace a : String) (v : Option String) (cs : List Count)
    → depth_at a v (map (to_claimable workspace) cs) ≡ number_at a v cs
unfolding depth_at number_at
depth_at-map workspace a v [] = refl
depth_at-map workspace a v (c ∷ cs) = ground (arith, depth_at-map workspace a v cs)

module _ (a : String) (v : Option String) where
  of_kind : String → QueueJob → Bool
  of_kind kind j =
      same_status j.status pending && (str_eq j.type kind && tagged a v (tag_of_item j))

  count-listed :
      (kind : String) (s : Store)
      → count_where (tagged a v) (map tag_of_item (pending_of kind s))
        ≡ count_where (of_kind kind) s.queue
  unfolding of_kind queue_list
  count-listed kind s =
      count_where-map (tagged a v) tag_of_item (pending_of kind s)
      ∙ count_where-keep (λ j. tagged a v (tag_of_item j)) (λ j. str_eq j.type kind)
          (queue_list pending s.queue)
      ∙ count_where-sorted (λ j. str_eq j.type kind && tagged a v (tag_of_item j)) dispatch_before _
      ∙ count_where-keep (λ j. str_eq j.type kind && tagged a v (tag_of_item j))
          (λ j. same_status j.status pending) s.queue

  count-kinds :
      (js : List QueueJob)
      → count_where (of_kind "chat-turn") js + count_where (of_kind "approval-resume") js
        ≡ count_where (is_work a v) js
  unfolding of_kind
  count-kinds [] = omega arith
  count-kinds (j ∷ js) = ground (
    arith,
    count-kinds js,
    eq_iff j.type "chat-turn",
    eq_iff j.type "approval-resume",
    eq_iff "chat-turn" "approval-resume",
  )

  count-due :
      (now : ℕ) (s : Store)
      → count_where
          (tagged a v)
          (map tag_of_job (keep (due now) (list_jobs JobState.pending s.jobs)))
        ≡ count_where (is_due_work now a v) s.jobs
  unfolding list_jobs
  count-due now s =
      count_where-map (tagged a v) tag_of_job _
      ∙ count_where-keep (λ j. tagged a v (tag_of_job j)) (due now) _
      ∙ count_where-sorted (λ j. due now j && tagged a v (tag_of_job j)) due_before _
      ∙ count_where-keep (λ j. due now j && tagged a v (tag_of_job j))
          (λ j. same_state j.status JobState.pending) (sorted name_before s.jobs)
      ∙ count_where-sorted (is_due_work now a v) name_before s.jobs

  pub count-waiting :
      (now : ℕ) (s : Store) → count_where (tagged a v) (waiting now s) ≡ work_for now a v s
  unfolding waiting work_for
  count-waiting now s =
      let turns = map tag_of_item (pending_of "chat-turn" s) in
      let resumes = map tag_of_item (pending_of "approval-resume" s) in
      let jobs = map tag_of_job (keep (due now) (list_jobs JobState.pending s.jobs)) in
      count_where-append (tagged a v) (turns ++ resumes) jobs
      ∙ ground (
        arith,
        count_where-append (tagged a v) turns resumes,
        count-listed "chat-turn" s,
        count-listed "approval-resume" s,
        count-kinds s.queue,
        count-due now s,
      )

  -- The counts that `peek` sorts.
  pub number_at-waiting :
      (now : ℕ) (s : Store) → number_at a v (bump_all (waiting now s) []) ≡ work_for now a v s
  unfolding number_at
  number_at-waiting now s =
      number_at-bump_all a v (waiting now s) [] ∙ ground (arith, count-waiting now s)

as_groups-depth :
    (workspace a : String) (v : Option String) (cs : List Count) (groups : List Claimable)
    → as_groups workspace none (sort_counts cs) ≡ ok groups
    → depth_at a v groups ≡ number_at a v cs
unfolding sort_counts
as_groups-depth workspace a v cs groups e = elim (Bool-cases (any_unordered cs)) [
  | inl h ↦ cc (rw h at e)
  | inr h ↦ reported (rw h at e)
]
  where
    reported :
        as_groups workspace none (ok (sorted count_before cs)) ≡ ok groups
        → depth_at a v groups ≡ number_at a v cs
    reported q =
        let same : map (to_claimable workspace) (sorted count_before cs) ≡ groups = cc q in
        rw (← same) (depth_at-map workspace a v (sorted count_before cs) ∙ number_at-sorted a v cs)

-- When `peek` for all agents returns, the depths of its groups for an agent and a version add up
-- to the number of the pending turns and resumes in the queue table with that agent and version,
-- and, for no version, of the due pending jobs of that agent.
pub peek_depth :
    (workspace : String) (now : ℕ) (s : Store) (groups : List Claimable) (a : String)
    (v : Option String)
    → peek workspace none now s ≡ ok groups
    → depth_at a v groups ≡ work_for now a v s
unfolding peek
peek_depth workspace now s groups a v e =
    as_groups-depth workspace a v (bump_all (waiting now s) []) groups e
    ∙ number_at-waiting a v now s
