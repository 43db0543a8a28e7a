-- ===== src/Store/Queue.antt =====
-- store.py: the `queue_*` methods of `FileStore`. `now` is the clock's reading during the call.
use rya.Prelude.{
  ℕ, ◌+◌, String, Bool, true, false, ◌&&◌, ◌||◌, Option, none, some, List, [], ◌∷◌, keep,
  first_where, count_where, ltb, leb, ◌==◌, str_eq, if◌then◌else◌,
}
use rya.Prelude.Int.{ltb_ℤ}
use rya.Prelude.Sort.{sorted}
use rya.Store.Docs.{QueueJob, JobStatus, pending, running, completed, failed, cancelled}
use rya.Store.Table

abbrev pub job_id : QueueJob → String
job_id j = j.id

-- `job["updatedAt"] = now_iso()`
abbrev pub stamp : ℕ → QueueJob → QueueJob
stamp now j = record j { updated_at = now }

-- queue_save
abbrev pub queue_save : ℕ → QueueJob → List QueueJob → List QueueJob
queue_save now j t = Table.save job_id (stamp now j) t

-- queue_get
abbrev pub queue_get : String → List QueueJob → Option QueueJob
queue_get i t = Table.get job_id i t

abbrev pub same_status : JobStatus → JobStatus → Bool
same_status pending pending = true
same_status running running = true
same_status completed completed = true
same_status failed failed = true
same_status cancelled cancelled = true
same_status _ _ = false

-- the sort key `(-priority, runAt, seq)` of `queue_list`
unfoldable pub dispatch_before : QueueJob → QueueJob → Bool
dispatch_before a b =
    if ltb_ℤ b.priority a.priority
    then true
    else if ltb_ℤ a.priority b.priority
    then false
    else if ltb a.run_at b.run_at
    then true
    else if ltb b.run_at a.run_at
    then false
    else ltb a.seq b.seq

-- queue_list(status)
unfoldable pub queue_list : JobStatus → List QueueJob → List QueueJob
queue_list st t = sorted dispatch_before (keep (λ j. same_status j.status st) t)

-- `int(job.get("maxAttempts") or 1)`
abbrev pub or_one : ℕ → ℕ
or_one n = if n == 0 then 1 else n

-- `attempts >= maxAttempts`: no attempt is left
abbrev pub exhausted : QueueJob → Bool
exhausted j = leb (or_one j.max_attempts) j.attempts

-- `(job.get("leaseExpiresAt") or "9999") <= now`
unfoldable pub lease_expired : ℕ → QueueJob → Bool
lease_expired now j = elim j.lease_expires_at [ none ↦ false | some e ↦ leb e now ]

-- `a or b` on texts
abbrev pub text_or : Option String → String → String
text_or none d = d
text_or (some s) d = if str_eq s "" then d else s

-- what `queue_reap` makes of a job whose lease has expired
unfoldable pub reap_job : ℕ → QueueJob → QueueJob
reap_job now j =
    if exhausted j
    then record j {
      worker_id = none;
      lease_expires_at = none;
      status = failed;
      dead_letter = true;
      error = some (text_or j.error "lease expired");
      completed_at = some now;
    }
    else record j {
      worker_id = none;
      lease_expires_at = none;
      status = pending;
      last_error = some "lease expired";
      run_at = now;
    }

-- the loop of `queue_reap` over its listing
unfoldable pub reap_each : ℕ → List QueueJob → List QueueJob → List QueueJob
reap_each now [] t = t
reap_each now (j ∷ js) t =
    reap_each now js (if lease_expired now j then queue_save now (reap_job now j) t else t)

-- queue_reap
unfoldable pub queue_reap : ℕ → List QueueJob → List QueueJob
queue_reap now t = reap_each now (queue_list running t) t

-- `job.get("concurrencyKey") or ""`
abbrev pub key_of : QueueJob → String
key_of j = text_or j.concurrency_key ""

-- `running.get(key, 0)`: the running jobs of a key; a job with no key is not counted
unfoldable pub busy : List QueueJob → String → ℕ
busy t k =
    if str_eq k ""
    then 0
    else count_where (λ j. same_status j.status running && str_eq (key_of j) k) t

-- _fair_order
unfoldable pub fair_before : List QueueJob → QueueJob → QueueJob → Bool
fair_before t a b = ltb (busy t (key_of a)) (busy t (key_of b))

unfoldable pub fair_order : List QueueJob → List QueueJob → List QueueJob
fair_order t js = sorted (fair_before t) js

abbrev pub contains : String → List String → Bool
contains s [] = false
contains s (x ∷ xs) = str_eq x s || contains s xs

-- `if types and job.get("type") not in types: continue`
unfoldable pub type_wanted : List String → QueueJob → Bool
type_wanted [] j = true
type_wanted (x ∷ xs) j = contains j.type (x ∷ xs)

-- the running cap of the job's key leaves room; a limit of 0 is none
unfoldable pub under_cap : List QueueJob → QueueJob → Bool
under_cap t j = elim j.concurrency_limit [
  | none ↦ true
  | some l ↦ str_eq (key_of j) "" || (l == 0) || ltb (busy t (key_of j)) l
]

-- the tests of the loop of `queue_claim_one`
unfoldable pub claimable : List String → ℕ → List QueueJob → QueueJob → Bool
claimable types now t j = type_wanted types j && leb j.run_at now && under_cap t j

abbrev pub or_now : Option ℕ → ℕ → ℕ
or_now none now = now
or_now (some s) now = s

-- the writes of `queue_claim_one`
unfoldable pub start_job : String → ℕ → ℕ → QueueJob → QueueJob
start_job worker now lease j = record j {
  status = running;
  worker_id = some worker;
  lease_expires_at = some lease;
  attempts = j.attempts + 1;
  started_at = some (or_now j.started_at now);
}

-- queue_claim_one
unfoldable pub claim_first :
    String → ℕ → ℕ → Option QueueJob → List QueueJob → Option (QueueJob × List QueueJob)
claim_first worker now lease none t = none
claim_first worker now lease (some j) t =
    let j' = start_job worker now lease j in some (stamp now j', queue_save now j' t)

unfoldable pub queue_claim_one :
    String → ℕ → ℕ → List String → List QueueJob → Option (QueueJob × List QueueJob)
queue_claim_one worker now lease types t =
    claim_first worker now lease
      (first_where (claimable types now t) (fair_order t (queue_list pending t))) t

-- queue_counts, at one status
unfoldable pub queue_count : JobStatus → List QueueJob → ℕ
queue_count st t = count_where (λ j. same_status j.status st) t
