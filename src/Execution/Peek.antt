-- ===== src/Execution/Peek.antt =====
-- execution/scope.py: `peek`, the waiting work of a workspace by agent and version.
use Prim.Native.Nat.{Ordering}
use Prim.Native.String.{compare}
use rya.Prelude.{
  ℕ, suc, String, Bool, true, false, ◌&&◌, ◌||◌, Option, none, some, List, [], ◌∷◌, ◌++◌, map, keep,
  leb, str_eq, if◌then◌else◌,
}
use rya.Prelude.Sort.{sorted}
use rya.Errors.{Result, ok, err, python_error}
use rya.Store.{Store}
use rya.Store.Docs.{QueueJob, pending, Job, JobState}
use rya.Store.Queue.{queue_list, text_or}
use rya.Store.Jobs.{list_jobs}
use rya.Queue.Claim.{version_of, agent_of}
use rya.Execution.Scope.{Claimable, attributed}

-- An entry of `counts`: the key `(agent, version_id)` and its number.
pub record Count : Type 0 where
  pub agent : String
  pub version_id : Option String
  pub number : ℕ

abbrev pub same_version : Option String → Option String → Bool
same_version none none = true
same_version (some v) (some w) = str_eq v w
same_version _ _ = false

abbrev pub is_at : String → Option String → Count → Bool
is_at agent version_id c = str_eq c.agent agent && same_version c.version_id version_id

-- bump
unfoldable pub bump : String → Option String → List Count → List Count
bump agent version_id [] = (record { agent = agent; version_id = version_id; number = 1 }) ∷ []
bump agent version_id (c ∷ cs) =
    if is_at agent version_id c
    then (record c { number = suc c.number }) ∷ cs
    else c ∷ bump agent version_id cs

-- the calls of `bump`, in order
unfoldable pub bump_all : List (String × Option String) → List Count → List Count
unfolding bump
bump_all [] cs = cs
bump_all ((agent, version_id) ∷ rest) cs = bump_all rest (bump agent version_id cs)

-- `listing("pending", kind)`
abbrev pub pending_of : String → Store → List QueueJob
pending_of kind s = keep (λ j. str_eq j.type kind) (queue_list pending s.queue)

abbrev pub tag_of_item : QueueJob → String × Option String
tag_of_item j = (text_or (agent_of j) "", version_of j)

abbrev pub tag_of_job : Job → String × Option String
tag_of_job j = (text_or j.agent "", none)

abbrev pub due : ℕ → Job → Bool
due now j = leb j.run_at now

-- what the two loops of `peek` bump
unfoldable pub waiting : ℕ → Store → List (String × Option String)
waiting now s =
    map tag_of_item (pending_of "chat-turn" s)
    ++ map tag_of_item (pending_of "approval-resume" s)
    ++ map tag_of_job (keep (due now) (list_jobs JobState.pending s.jobs))

abbrev pub version_before : Option String → Option String → Bool
version_before (some v) (some w) = elim (compare v w) [ Ordering.lt ↦ true | _ ↦ false ]
version_before _ _ = false

-- the order of the keys as pairs
unfoldable pub count_before : Count → Count → Bool
count_before c d = elim (compare c.agent d.agent) [
  | Ordering.lt ↦ true
  | Ordering.eq ↦ version_before c.version_id d.version_id
  | Ordering.gt ↦ false
]

abbrev pub one_missing : Option String → Option String → Bool
one_missing none (some v) = true
one_missing (some v) none = true
one_missing _ _ = false

-- Two keys of one agent are compared by version, and `None < "v"` is a TypeError.
unfoldable pub unordered : Count → Count → Bool
unordered c d = str_eq c.agent d.agent && one_missing c.version_id d.version_id

abbrev pub any_where : {A : Type 0} → (A → Bool) → List A → Bool
any_where p [] = false
any_where p (x ∷ xs) = p x || any_where p xs

unfoldable pub any_unordered : List Count → Bool
unfolding unordered
any_unordered [] = false
any_unordered (c ∷ cs) = any_where (unordered c) cs || any_unordered cs

-- `sorted(counts.items(), ...)`. All the keys of an agent stand together in any order, and its key
-- with no version can be compared with none of the others: whatever pairs the sort compares, it
-- comes to such a pair if there is one.
unfoldable pub sort_counts : List Count → Result (List Count)
unfolding any_unordered
sort_counts cs = if any_unordered cs then err python_error else ok (sorted count_before cs)

abbrev pub to_claimable : String → Count → Claimable
to_claimable workspace c = record {
  workspace = workspace;
  agent = c.agent;
  version_id = c.version_id;
  depth = c.number;
}

-- `[c for c in out if not c.agent or c.agent in agents]`
abbrev pub only : Option (List String) → List Claimable → List Claimable
only none gs = gs
only (some agents) gs =
    keep (λ g. if attributed g then any_where (str_eq g.agent) agents else true) gs

abbrev pub as_groups : String → Option (List String) → Result (List Count) → Result (List Claimable)
as_groups workspace agents (err e) = err e
as_groups workspace agents (ok cs) = ok (only agents (map (to_claimable workspace) cs))

-- peek
unfoldable pub peek : String → Option (List String) → ℕ → Store → Result (List Claimable)
unfolding bump_all waiting sort_counts
peek workspace agents now s = as_groups workspace agents (sort_counts (bump_all (waiting now s) []))
