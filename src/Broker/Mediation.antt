-- ===== src/Broker/Mediation.antt =====
-- broker/server.py: `_queue_claim`, `_queue_transition`, `_worker_id` and `_own`. The capability is one
-- that the broker has read and accepted. A queue item has no `runId` of its own.
use Prim.Native.String.{◌++◌ as join}
use rya.Prelude.{
  ℕ, min, String, Bool, true, false, Option, none, some, List, [], ◌∷◌, ◌==◌, str_eq, if◌then◌else◌,
}
use rya.Json.{Json, text, arr, obj, Fields, end, get_field, truthy, as_text}
use rya.Errors.{
  Exec, Result, ok, err, e_scope_denied, python_error, then_run, pure, raise, ◌>>=◌, ◌>>◌,
}
use rya.Store.{Store}
use rya.Store.Docs.{QueueJob, Approval}
use rya.Store.Queue.{contains}
use rya.Store.Runs.{get_approval}
use rya.Queue.Claim.{ClaimFilter, claim}
use rya.Queue.Report.{heartbeat, complete, fail}

-- Capability, less its workspace, its deadline and its nonce
pub record Capability : Type 0 where
  pub agent : String
  pub version_id : String
  pub dispatch : String

-- _Owned: what one dispatch was given
pub record Owned : Type 0 where
  pub runs : List Json
  pub jobs : List String
  pub approvals : List String

-- The store behind the broker, and what the dispatch owns.
pub record Mediated : Type 0 where
  pub store : Store
  pub owned : Owned

-- `text or None`
abbrev pub or_none : String → Option String
or_none s = if str_eq s "" then none else some s

-- _worker_id
unfoldable pub worker_id : Capability → String
worker_id cap =
    join "brokered:" (join (if str_eq cap.agent "" then "-" else cap.agent) (join ":" cap.dispatch))

-- `owned.runs.add(candidate)`, which raises on a list or an object
unfoldable pub add_run : Json → Exec Owned Unit
add_run (arr xs) o = if truthy (arr xs) then (err python_error, o) else (ok tt, o)
add_run (obj fs) o = if truthy (obj fs) then (err python_error, o) else (ok tt, o)
add_run v o = if truthy v then (ok tt, record o { runs = v ∷ o.runs }) else (ok tt, o)

abbrev pub approved_of : String → Option Approval → Owned → Owned
approved_of i none o = o
approved_of i (some a) o = record o {
  approvals = i ∷ o.approvals;
  runs = if str_eq a.run_id "" then o.runs else text a.run_id ∷ o.runs;
}

-- the approval of a resume, and the run behind it; an id that is no text names none
unfoldable pub add_approval : Option String → Store → Exec Owned Unit
add_approval none s o = (ok tt, o)
add_approval (some i) s o = (ok tt, if str_eq i "" then o else approved_of i (get_approval i s) o)

-- `job.get("payload") or {}`, where it has a `get`
abbrev pub payload_of : Json → Option Fields
payload_of (obj fs) = some fs
payload_of v = if truthy v then none else some end

abbrev pub add_payload : Option Fields → Store → Exec Owned Unit
add_payload none s = raise python_error
add_payload (some fs) s = do
  add_run (get_field "runId" fs)
  add_approval (as_text (get_field "approvalId" fs)) s

-- _own
unfoldable pub own : QueueJob → Store → Exec Owned Unit
own j s o =
    add_payload (payload_of j.payload) s
      (if str_eq j.id "" then o else record o { jobs = j.id ∷ o.jobs })

-- `for job in claimed: self._own(job, owned)`
unfoldable pub own_each : List QueueJob → Store → Exec Owned Unit
own_each [] s o = (ok tt, o)
own_each (j ∷ js) s o = then_run (own j s o) (λ u. own_each js s)

-- DEFAULT_LEASE_SECONDS, and `seconds or DEFAULT_LEASE_SECONDS`
abbrev pub default_lease_seconds : ℕ
default_lease_seconds = 60

abbrev pub or_default : ℕ → ℕ
or_default n = if n == 0 then default_lease_seconds else n

-- the filters of `_queue_claim`: those of the capability
unfoldable pub forced_filter : Capability → List String → ClaimFilter
forced_filter cap types = record {
  types = types;
  version_id = or_none cap.version_id;
  agent = or_none cap.agent;
}

abbrev pub owning :
    Result (Unit {0}) × Owned → List QueueJob → Store → Result (List QueueJob) × Mediated
owning (ok u, o) rs s = (ok rs, record { store = s; owned = o })
owning (err c, o) rs s = (err c, record { store = s; owned = o })

abbrev pub claimed_by : Result (List QueueJob) × Store → Owned → Result (List QueueJob) × Mediated
claimed_by (err c, s) o = (err c, record { store = s; owned = o })
claimed_by (ok rs, s) o = owning (own_each rs s o) rs s

-- _queue_claim: one item at a time
unfoldable pub brokered_claim : Capability → List String → ℕ → ℕ → Exec Mediated (List QueueJob)
brokered_claim cap types lease_seconds now m =
    claimed_by
      (claim (worker_id cap) (forced_filter cap types) 1 (or_default lease_seconds) now m.store)
      m.owned

-- The three services that move an item on.
pub data Transition : Type 0 where
  completes : (output : Json) → Transition
  fails : (message : String) → Transition
  extends : (seconds : ℕ) → Transition

pub data Reply : Type 0 where
  item : QueueJob → Reply
  lease : ℕ × Bool → Reply

-- the operation behind a transition; an extension is at most DEFAULT_LEASE_SECONDS
unfoldable pub moved : Capability → String → Transition → ℕ → Exec Store Reply
moved cap i (completes output) now = do j ← complete i (worker_id cap) output now; pure (item j)
moved cap i (fails message) now = do j ← fail i (worker_id cap) message now; pure (item j)
moved cap i (extends seconds) now = do
  l ← heartbeat i (worker_id cap) (min (or_default seconds) default_lease_seconds) now
  pure (lease l)

abbrev pub behind : Owned → Result Reply × Store → Result Reply × Mediated
behind o (r, s) = (r, record { store = s; owned = o })

-- `if job_id not in owned.jobs: raise`
abbrev pub transition_if : Bool → Capability → String → Transition → ℕ → Exec Mediated Reply
transition_if true cap i t now m = behind m.owned (moved cap i t now m.store)
transition_if false cap i t now m = (err e_scope_denied, m)

-- _queue_transition
unfoldable pub brokered_transition : Capability → String → Transition → ℕ → Exec Mediated Reply
brokered_transition cap i t now m = transition_if (contains i m.owned.jobs) cap i t now m
