-- ===== src/Store/Reads.antt =====
-- store.py: the counts and the policy rows that admission reads.
use rya.Prelude.{
  ℕ, ◌+◌, ◌-◌, String, Bool, true, false, not, Option, none, some, List, [], ◌∷◌, ◌++◌, count_where,
  ltb, leb, if◌then◌else◌,
}
use rya.Json.{Json, null}
use rya.Store.{Store}
use rya.Store.Docs.{
  RunStatus, completed, failed, rejected, needs_reconnect, Run, MeterRecord, Worker, WorkerStatus,
  alive, lost, stopped, PolicyRecord,
}
use rya.Store.Table

-- `status in TERMINAL_RUN_STATUSES` (turns.py)
unfoldable pub is_terminal_status : RunStatus → Bool
is_terminal_status completed = true
is_terminal_status failed = true
is_terminal_status rejected = true
is_terminal_status needs_reconnect = true
is_terminal_status _ = false

-- `run_counts`, summed over the statuses that are not terminal
unfoldable pub unfinished_runs : List Run → ℕ
unfinished_runs rs = count_where (λ r. not (is_terminal_status r.status)) rs

-- `run_counts(since)`, summed
unfoldable pub runs_since : ℕ → List Run → ℕ
runs_since since rs = count_where (λ r. leb since r.created_at) rs

-- `meter_totals(since)`: the tokens, and the cost in millionths of a dollar
unfoldable pub tokens_since : ℕ → List MeterRecord → ℕ
tokens_since since [] = 0
tokens_since since (m ∷ ms) =
    (if leb since m.ts then m.input_tokens + m.output_tokens else 0) + tokens_since since ms

unfoldable pub cost_since : ℕ → List MeterRecord → ℕ
cost_since since [] = 0
cost_since since (m ∷ ms) = (if leb since m.ts then m.cost else 0) + cost_since since ms

-- WORKER_LOST_SECONDS
abbrev pub worker_lost_seconds : ℕ
worker_lost_seconds = 120

abbrev pub is_stale : ℕ → Option ℕ → Bool
is_stale now none = true
is_stale now (some beat) = ltb worker_lost_seconds (now - beat)

-- worker_liveness, the status: only an `alive` worker is demoted
unfoldable pub worker_liveness : ℕ → Worker → WorkerStatus
worker_liveness now w = elim w.status [
  | alive ↦ if is_stale now w.last_heartbeat_at then lost else alive
  | lost ↦ lost
  | stopped ↦ stopped
]

abbrev pub is_alive : WorkerStatus → Bool
is_alive alive = true
is_alive _ = false

-- `len(worker_list(status="alive"))`: the status is applied after the liveness pass
unfoldable pub alive_workers : ℕ → List Worker → ℕ
alive_workers now ws = count_where (λ w. is_alive (worker_liveness now w)) ws

abbrev pub policy_id : PolicyRecord → String
policy_id r = r.key

abbrev value_of : Option PolicyRecord → Json
value_of none = null
value_of (some r) = r.value

-- policy_get; an absent row reads as `None`
unfoldable pub policy_get : String → Store → Json
policy_get key s = value_of (Table.get policy_id key s.policies)

abbrev revision_of : Option PolicyRecord → ℕ
revision_of none = 0
revision_of (some r) = r.version

-- policy_set; the log keeps every write
unfoldable pub policy_set : ℕ → String → Json → Option String → Store → Store
policy_set now key value actor s =
    let prior = Table.get policy_id key s.policies in
    let rec : PolicyRecord = record {
      key = key;
      value = value;
      version = revision_of prior + 1;
      actor = actor;
      previous = value_of prior;
      changed_at = now;
    } in
    record s {
      policies = Table.save policy_id rec s.policies;
      policy_log = s.policy_log ++ rec ∷ [];
    }
