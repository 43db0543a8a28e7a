-- ===== src/Store/Jobs.antt =====
-- store.py: the jobs that runs schedule.
use Prim.Native.Nat.{Ordering}
use Prim.Native.String.{compare}
use rya.Prelude.{
  ℕ, String, Bool, true, false, ◌&&◌, Option, none, some, List, keep, first_where, ltb, leb, str_eq,
}
use rya.Prelude.Sort.{sorted}
use rya.Json.{Json}
use rya.Store.{Store}
use rya.Store.Docs.{Job, JobState}
use rya.Store.Table

abbrev pub job_id : Job → String
job_id j = j.id

-- get_job, save_job
unfoldable pub get_job : String → Store → Option Job
get_job i s = Table.get job_id i s.jobs

unfoldable pub save_job : Job → Store → Store
save_job j s = record s { jobs = Table.save job_id j s.jobs }

-- What `create_job` is asked for.
pub record JobRequest : Type 0 where
  pub run_id : Option String
  pub handler : String
  pub payload : Json
  pub run_at : ℕ
  pub max_attempts : ℕ
  pub group_id : Option String
  pub agent : Option String

-- the job of `create_job`; `fresh` is the id that `_new_id` makes
unfoldable pub made_job : ℕ → String → JobRequest → Job
made_job now fresh q = record {
  id = fresh;
  parent_run_id = q.run_id;
  handler = q.handler;
  payload = q.payload;
  status = JobState.pending;
  run_at = q.run_at;
  attempts = 0;
  max_attempts = q.max_attempts;
  last_error = none;
  created_at = now;
  result_run_id = none;
  group_id = q.group_id;
  agent = q.agent;
}

-- create_job
unfoldable pub create_job : ℕ → String → JobRequest → Store → Job × Store
create_job now fresh q s = let j = made_job now fresh q in (j, save_job j s)

abbrev pub same_state : JobState → JobState → Bool
same_state JobState.pending JobState.pending = true
same_state JobState.claimed JobState.claimed = true
same_state JobState.running JobState.running = true
same_state JobState.done JobState.done = true
same_state JobState.waiting_approval JobState.waiting_approval = true
same_state JobState.failed JobState.failed = true
same_state _ _ = false

-- the order of the sorted paths, and that of `runAt`
unfoldable pub name_before : Job → Job → Bool
name_before a b = elim (compare a.id b.id) [ Ordering.lt ↦ true | _ ↦ false ]

abbrev pub due_before : Job → Job → Bool
due_before a b = ltb a.run_at b.run_at

-- list_jobs(status)
unfoldable pub list_jobs : JobState → List Job → List Job
list_jobs st t = sorted due_before (keep (λ j. same_state j.status st) (sorted name_before t))

-- a job with no agent is anyone's, and a claim with no agent takes any
abbrev pub is_mine : Option String → Option String → Bool
is_mine none owner = true
is_mine (some a) none = true
is_mine (some a) (some o) = str_eq o a

-- the tests of the loop of `claim_due_job`
unfoldable pub is_due : ℕ → Option String → Job → Bool
is_due now agent j = leb j.run_at now && is_mine agent j.agent

abbrev pub claim_found : Option Job → Store → Option Job × Store
claim_found none s = (none, s)
claim_found (some j) s =
    let j' : Job = record j { status = JobState.claimed } in (some j', save_job j' s)

-- claim_due_job
unfoldable pub claim_due_job : ℕ → Option String → Store → Option Job × Store
claim_due_job now agent s =
    claim_found (first_where (is_due now agent) (list_jobs JobState.pending s.jobs)) s
