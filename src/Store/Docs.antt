-- ===== src/Store/Docs.antt =====
-- The documents that the tables hold. A time is a number of seconds: the code's fixed-width UTC
-- texts compare as these numbers do.
use rya.Prelude.{ℕ, String, Bool, Option, List}
use rya.Prelude.Int.{ℤ}
use rya.Json.{Json, Fields}

pub data JobStatus : Type 0 where
  pending running completed failed cancelled : JobStatus

-- A queue job, as `enqueue` builds it.
pub record QueueJob : Type 0 where
  pub id : String
  pub type : String
  pub payload : Json
  pub status : JobStatus
  pub attempts : ℕ
  pub max_attempts : ℕ
  pub priority : ℤ
  pub run_at : ℕ
  pub seq : ℕ
  pub tags : List String
  pub metadata : List (String × String)
  pub concurrency_key : Option String
  pub concurrency_limit : Option ℕ
  pub retry_delay : Option ℕ
  pub worker_id : Option String
  pub lease_expires_at : Option ℕ
  pub cancel_requested : Bool
  pub dead_letter : Bool
  pub output : Json
  pub error : Option String
  pub last_error : Option String
  pub created_at : ℕ
  pub started_at : Option ℕ
  pub completed_at : Option ℕ
  pub updated_at : ℕ

pub data RunStatus : Type 0 where
  queued running waiting_approval completed failed rejected needs_reconnect : RunStatus

pub data EntryStatus : Type 0 where
  pending done rejected : EntryStatus

-- A step of a run's journal; `approval_id` is that of its result, if it has one.
pub record JournalEntry : Type 0 where
  pub kind : String
  pub status : EntryStatus
  pub approval_id : Option String

pub record TraceStep : Type 0 where
  pub seq : ℕ
  pub ts : ℕ
  pub kind : String
  pub label : String

-- A run; the job that it runs for and the jobs that it scheduled are left out.
pub record Run : Type 0 where
  pub id : String
  pub agent : Option String
  pub agent_version : Option String
  pub version_id : Option String
  pub bundle_hash : Option String
  pub sdk_version : Option String
  pub environment : Option String
  pub trigger : String
  pub status : RunStatus
  pub event : Json
  pub identity : Json
  pub turn_id : Option String
  pub journal : List JournalEntry
  pub trace : List TraceStep
  pub pending_approval : Option String
  -- the code and the approval of a run's error
  pub error : Option (String × String)
  pub parent_run_id : Option String
  pub created_at : ℕ
  pub updated_at : ℕ

pub data ApprovalStatus : Type 0 where
  pending approving approved rejected expired cancelled : ApprovalStatus

-- An approval, less its body and its action.
pub record Approval : Type 0 where
  pub id : String
  pub run_id : String
  pub title : String
  pub status : ApprovalStatus
  pub resolved_at : Option ℕ
  pub resolved_by : Option String

-- A billable fact; the cost is in millionths of a dollar.
pub record MeterRecord : Type 0 where
  pub ts : ℕ
  pub input_tokens : ℕ
  pub output_tokens : ℕ
  pub cost : ℕ

pub data WorkerStatus : Type 0 where
  alive lost stopped : WorkerStatus

pub record Worker : Type 0 where
  pub id : String
  pub concurrency_key : Option String
  pub status : WorkerStatus
  pub started_at : ℕ
  pub last_heartbeat_at : Option ℕ
  pub stopped_at : Option ℕ
  pub stop_reason : Option String

pub record PolicyRecord : Type 0 where
  pub key : String
  pub value : Json
  pub version : ℕ
  pub actor : Option String
  pub previous : Json
  pub changed_at : ℕ

pub data VersionState : Type 0 where
  active retired : VersionState

pub record Version : Type 0 where
  pub id : String
  pub agent : String
  pub bundle_hash : String
  pub sdk_version : String
  pub entrypoint : String
  pub lockfile : Option String
  pub size_bytes : ℕ
  pub file_count : ℕ
  pub manifest : Fields
  pub state : VersionState
  pub metadata : Fields
  pub created_by : Option String
  pub created_at : ℕ
  pub retired_at : Option ℕ

-- A pointer that was replaced.
pub record PriorPointer : Type 0 where
  pub version_id : String
  pub replaced_at : ℕ
  pub actor : Option String

pub record Environment : Type 0 where
  pub key : String
  pub name : String
  pub agent : String
  pub current_version_id : Option String
  pub history : List PriorPointer
  pub created_at : ℕ
  pub updated_at : Option ℕ
  pub actor : Option String

-- What an attestation says, by its kind; a score is in millionths.
pub data Evidence : Type 0 where
  readiness : (blocks warnings : ℕ) → Evidence
  evals : (total passed failed : ℕ) (score : Option ℕ) (has_evals : Bool) → Evidence
  override : (environment : String) (bypassed : List String) → Evidence

pub record Attestation : Type 0 where
  pub id : String
  pub version_id : String
  pub created_at : ℕ
  pub actor : Option String
  pub bundle_hash : Option String
  pub ok : Bool
  pub evidence : Evidence

pub record Frame : Type 0 where
  pub seq : ℕ
  pub kind : String
  pub payload : Json
  pub ts : ℕ

pub record Stream : Type 0 where
  pub turn_id : String
  pub frames : List Frame

-- A named lease; `id` is the file that holds it.
pub record Lease : Type 0 where
  pub id : String
  pub name : String
  pub holder : String
  pub acquired_at : ℕ
  pub expires_at : ℕ
  pub renewed : Bool

-- The job that a group creates when all of its jobs are done.
pub record OnComplete : Type 0 where
  pub parent_run_id : Option String
  pub handler : String
  pub payload : Json

pub record JobGroup : Type 0 where
  pub id : String
  pub remaining : ℕ
  pub fired : Bool
  pub failed : Bool
  pub on_complete : OnComplete
  pub created_at : ℕ

pub data JobState : Type 0 where
  pending claimed running done waiting_approval failed : JobState

-- A job that a run schedules, bound to a handler of an agent.
pub record Job : Type 0 where
  pub id : String
  pub parent_run_id : Option String
  pub handler : String
  pub payload : Json
  pub status : JobState
  pub run_at : ℕ
  pub attempts : ℕ
  pub max_attempts : ℕ
  pub last_error : Option String
  pub created_at : ℕ
  pub result_run_id : Option String
  pub group_id : Option String
  pub agent : Option String
