-- ===== src/Turns/Start.antt =====
-- turns.py: `create_turn` and `enqueue_event`. `version` is what the caller knows of the version it
-- runs, and `agent` is the name in its manifest.
use rya.Prelude.{ℕ, String, Option, none, some, List, [], ◌∷◌, ◌++◌}
use rya.Prelude.Int.{pos}
use rya.Json.{Json, null, text, whole, obj, Fields, field, end}
use rya.Errors.{Exec, ok, pure, ◌>>=◌, ◌>>◌}
use rya.Store.{Store}
use rya.Store.Docs.{Run, RunStatus, queued, JobStatus}
use rya.Store.Runs.{save_run}
use rya.Quotas.Admission.{require_admission, run}
use rya.Queue.Enqueue.{JobSpec, enqueue, given_id}

pub record SourceVersion : Type 0 where
  pub id : Option String
  pub manifest_version : Option String
  pub bundle_hash : Option String
  pub sdk_version : Option String

-- TurnSource, less its store; a source with no version has one with no entries
pub record TurnSource : Type 0 where
  pub agent : Option String
  pub agent_version : Option String
  pub version : SourceVersion

-- `if value: metadata[key] = value`
abbrev pub tag : String → Option String → List (String × String)
tag k none = []
tag k (some v) = (k, v) ∷ []

abbrev pub opt_text : Option String → Json
opt_text none = null
opt_text (some s) = text s

-- the job options that both kinds of turn jobs use; the rest of them are the defaults of `enqueue`
unfoldable pub pinned_spec : Json → ℕ → List (String × String) → Option String → JobSpec
pinned_spec payload max_attempts metadata key = record {
  payload = payload;
  job_id = none;
  max_attempts = max_attempts;
  delay_seconds = 0;
  priority = pos 0;
  tags = [];
  metadata = metadata;
  concurrency_key = key;
  concurrency_limit = none;
  retry_delay = none;
  unusable = none;
}

-- `**({"runId": run_id} if run_id else {})`
abbrev run_field : Option String → Fields
run_field none = end
run_field (some r) = field "runId" (text r) end

-- the job of `create_turn`
unfoldable pub turn_spec : TurnSource → String → Json → Json → ℕ → Option String → JobSpec
turn_spec source type payload identity max_attempts run_id =
    pinned_spec
      (obj (
        field "type" (text type)
          (field "payload" payload (field "identity" identity (run_field (given_id run_id))))))
      max_attempts
      (tag "versionId" (given_id source.version.id) ++ tag "agent" (given_id source.agent))
      source.version.id

pub record Turn : Type 0 where
  pub turn_id : String
  pub status : JobStatus

-- create_turn
unfoldable pub create_turn :
    ℕ → ℕ → String → TurnSource → String → Json → Json → ℕ → Option String → Exec Store Turn
create_turn now ns fresh source type payload identity max_attempts run_id = do
  j ← enqueue now ns fresh "chat-turn" (turn_spec source type payload identity max_attempts run_id)
  pure (record { turn_id = j.id; status = j.status })

-- What a call of `enqueue_event` is given, with the ids that it makes.
pub record EventCall : Type 0 where
  pub type : String
  pub payload : Json
  pub trigger_source : String
  pub identity : Json
  pub environment : Option String
  pub max_attempts : ℕ
  pub event_id : String
  pub run_id : String
  pub turn_id : String

-- `a or b`
abbrev pub version_or : Option String → Option String → Option String
version_or none b = b
version_or (some a) b = some a

-- the run that `enqueue_event` writes
unfoldable pub queued_run : ℕ → TurnSource → EventCall → Run
queued_run now source call = record {
  id = call.run_id;
  agent = source.agent;
  agent_version = version_or (given_id source.version.manifest_version) source.agent_version;
  version_id = source.version.id;
  bundle_hash = source.version.bundle_hash;
  sdk_version = source.version.sdk_version;
  environment = call.environment;
  trigger = "event";
  status = queued;
  event = obj (
      field "id" (text call.event_id) (
        field "type" (text call.type) (
          field "source" (text call.trigger_source) (
            field "agentId" (opt_text source.agent)
              (field "payload" call.payload (field "createdAt" (whole (pos now)) end))))));
  identity = call.identity;
  turn_id = none;
  journal = [];
  trace = [];
  pending_approval = none;
  error = none;
  parent_run_id = none;
  created_at = now;
  updated_at = now;
}

pub record Started : Type 0 where
  pub run_id : String
  pub turn_id : String
  pub status : RunStatus

-- enqueue_event
unfoldable pub enqueue_event : ℕ → ℕ → TurnSource → EventCall → Exec Store Started
enqueue_event now ns source call = do
  require_admission run none now
  (λ s. (ok tt, save_run now (queued_run now source call) s))
  turn ←
      create_turn now ns call.turn_id source call.type call.payload call.identity call.max_attempts
        (some call.run_id)
  pure (record { run_id = call.run_id; turn_id = turn.turn_id; status = queued })
