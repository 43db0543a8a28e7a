-- ===== src/Turns/Approvals.antt =====
-- turns.py: the decisions about an approval, `enqueue_resume`, `reject_approval` and
-- `reject_on_stream`, and `is_terminal`.
use rya.Prelude.{
  ℕ, String, Bool, true, false, ◌&&◌, ◌||◌, Option, none, some, List, [], ◌∷◌, ◌++◌, length,
  first_where, str_eq, if◌then◌else◌,
}
use rya.Prelude.Int.{pos}
use rya.Json.{Json, null, text, whole, obj, field, end, get_field}
use rya.Errors.{
  Exec, ok, err, e_approval_not_found, e_approval_not_pending, e_run_not_found, e_run_not_paused,
  ◌>>=◌,
}
use rya.Store.{Store}
use rya.Store.Docs.{
  Run, RunStatus, Approval, ApprovalStatus, JournalEntry, EntryStatus, Frame, QueueJob,
}
use rya.Store.Runs.{get_run, save_run, get_approval, save_approval}
use rya.Store.Streams.{stream_append}
use rya.Queue.Enqueue.{JobSpec, enqueue, given_id}
use rya.Turns.Start.{tag, opt_text, pinned_spec}

abbrev pub is_pending : ApprovalStatus → Bool
is_pending ApprovalStatus.pending = true
is_pending _ = false

-- `status in ("pending", APPROVING)`
abbrev pub is_open : ApprovalStatus → Bool
is_open ApprovalStatus.pending = true
is_open ApprovalStatus.approving = true
is_open _ = false

abbrev pub is_paused : RunStatus → Bool
is_paused RunStatus.waiting_approval = true
is_paused _ = false

-- the options of the job of `enqueue_resume`
unfoldable pub resume_spec : String → Option String → ℕ → Run → JobSpec
resume_spec i actor max_attempts r =
    pinned_spec (obj (field "approvalId" (text i) (field "actor" (opt_text actor) end)))
      max_attempts (tag "agent" (given_id r.agent) ++ tag "versionId" (given_id r.version_id))
      r.version_id

unfoldable pub approving_by : Option String → Approval → Approval
approving_by actor a = record a { status = ApprovalStatus.approving; resolved_by = actor }

-- enqueue_resume, from the approval and the run that were found
unfoldable pub resume_found :
    ℕ → ℕ → String → String → Option String → ℕ → Option Approval → Option Run → Exec Store QueueJob
resume_found now ns fresh i actor max_attempts none r s = (err e_approval_not_found, s)
resume_found now ns fresh i actor max_attempts (some a) none s =
    if is_pending a.status then (err e_run_not_found, s) else (err e_approval_not_pending, s)
resume_found now ns fresh i actor max_attempts (some a) (some r) s =
    if is_pending a.status
    then if is_paused r.status
      then enqueue now ns fresh "approval-resume" (resume_spec i actor max_attempts r)
          (save_approval (approving_by actor a) s)
      else (err e_run_not_paused, s)
    else (err e_approval_not_pending, s)

-- `store.get_run(approval["runId"]) if approval else None`
unfoldable pub run_of : Option Approval → Store → Option Run
run_of none s = none
run_of (some a) s = get_run a.run_id s

-- enqueue_resume
unfoldable pub enqueue_resume : ℕ → ℕ → String → String → Option String → ℕ → Exec Store QueueJob
enqueue_resume now ns fresh i actor max_attempts s =
    let a = get_approval i s in resume_found now ns fresh i actor max_attempts a (run_of a s) s

-- `entry.get("kind") == "approval" and result.approvalId == approval_id`
abbrev asks : String → JournalEntry → Bool
asks i e = str_eq e.kind "approval" && elim e.approval_id [ none ↦ false | some j ↦ str_eq j i ]

-- the loop over the journal: the first step that asked for the approval is rejected
unfoldable pub reject_entry : String → List JournalEntry → List JournalEntry
reject_entry i [] = []
reject_entry i (e ∷ es) =
    if asks i e then record e { status = EntryStatus.rejected } ∷ es else e ∷ reject_entry i es

unfoldable pub rejected_by : ℕ → Option String → Approval → Approval
rejected_by now actor a = record a {
  status = ApprovalStatus.rejected;
  resolved_at = some now;
  resolved_by = actor;
}

-- what `reject_approval` makes of the run
unfoldable pub rejected_run : ℕ → String → Approval → Run → Run
rejected_run now i a r = record r {
  journal = reject_entry i r.journal;
  status = RunStatus.rejected;
  error = some ("E_APPROVAL_REJECTED", i);
  pending_approval = none;
  trace =
      r.trace
      ++ (record { seq = length r.trace; ts = now; kind = "approval.rejected"; label = a.title })
        ∷ [];
}

unfoldable pub reject_found :
    ℕ → String → Option String → Option Approval → Option Run → Exec Store Run
reject_found now i actor none r s = (err e_approval_not_found, s)
reject_found now i actor (some a) none s =
    if is_open a.status then (err e_run_not_found, s) else (err e_approval_not_pending, s)
reject_found now i actor (some a) (some r) s =
    if is_open a.status
    then (
      ok (record (rejected_run now i a r) { updated_at = now }),
      save_run now (rejected_run now i a r) (save_approval (rejected_by now actor a) s),
    )
    else (err e_approval_not_pending, s)

-- reject_approval
unfoldable pub reject_approval : ℕ → String → Option String → Exec Store Run
reject_approval now i actor s =
    let a = get_approval i s in reject_found now i actor a (run_of a s) s

-- the texts of the statuses
unfoldable pub status_text : RunStatus → String
status_text RunStatus.queued = "queued"
status_text RunStatus.running = "running"
status_text RunStatus.waiting_approval = "waiting_approval"
status_text RunStatus.completed = "completed"
status_text RunStatus.failed = "failed"
status_text RunStatus.rejected = "rejected"
status_text RunStatus.needs_reconnect = "needs_reconnect"

abbrev error_json : Option (String × String) → Json
error_json none = null
error_json (some (code, approval)) =
    obj (field "code" (text code) (field "approvalId" (text approval) end))

-- _summary, less the tokens and the cost
unfoldable pub summary : Run → Json
summary r = obj (
    field "id" (text r.id) (
      field "status" (text (status_text r.status)) (
        field "trigger" (text r.trigger) (
          field "pendingApproval" (opt_text r.pending_approval) (
            field "error" (error_json r.error)
              (field "traceLength" (whole (pos (length r.trace))) end))))))

abbrev title_of : Option Approval → Json
title_of none = null
title_of (some a) = text a.title

-- the frame that announces a rejection
unfoldable pub rejection_frame : String → Option String → Option Approval → String × Json
rejection_frame i actor a = (
  "trace",
  obj (
      field "kind" (text "approval.rejected") (
        field "label" (title_of a) (
          field "data" (obj (field "approvalId" (text i) (field "actor" (opt_text actor) end)))
            end))),
)

unfoldable pub append_frame : ℕ → String → String × Json → Store → Store
append_frame now turn f s = record s { streams = (stream_append now turn (f ∷ []) s.streams).1 }

abbrev turn_of : Option Run → Option String
turn_of none = none
turn_of (some r) = given_id r.turn_id

-- `if turn_id: store.stream_append(turn_id, [{"kind": "run", ...}])`
unfoldable pub summarised : ℕ → String → Exec Store Run → Exec Store Run
summarised now turn m = do r ← m; (λ s. (ok r, append_frame now turn ("run", summary r) s))

unfoldable pub reject_streamed :
    ℕ → String → Option String → Option Approval → Option String → Exec Store Run
reject_streamed now i actor a none s = reject_approval now i actor s
reject_streamed now i actor a (some turn) s =
    summarised now turn (reject_approval now i actor)
      (append_frame now turn (rejection_frame i actor a) s)

-- reject_on_stream
unfoldable pub reject_on_stream : ℕ → String → Option String → Exec Store Run
reject_on_stream now i actor s =
    let a = get_approval i s in reject_streamed now i actor a (turn_of (run_of a s)) s

-- `status in TERMINAL_RUN_STATUSES`, on the text of a frame
abbrev terminal_text : Json → Bool
terminal_text (text s) =
    str_eq s "completed" || str_eq s "failed" || str_eq s "rejected" || str_eq s "needs_reconnect"
terminal_text _ = false

abbrev status_field : Json → Json
status_field (obj fs) = get_field "status" fs
status_field _ = null

unfoldable pub ends_turn : Frame → Bool
ends_turn f =
    str_eq f.kind "error" || (str_eq f.kind "run" && terminal_text (status_field f.payload))

-- is_terminal
unfoldable pub is_terminal : List Frame → Option Frame
is_terminal fs = first_where ends_turn fs
