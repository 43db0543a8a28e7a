-- ===== src/Tests/Turns.antt =====
-- The theorems of Turns at concrete inputs: a run of version v1 that waits for an approval of its turn.
use rya.Prelude.{◌≡◌, refl, ◌≢◌, inl, ◌++◌, none, some, List, [], ◌∷◌, arith, Member, true}
use rya.Prelude.Sort
use rya.Prelude.Int.{pos, negsuc}
use rya.Json.{null, text, obj, whole, field, end}
use rya.Errors.{ok, err, e_approval_not_pending, e_quota_exceeded}
use rya.Store.{Store, empty}
use rya.Store.Table
use rya.Store.Docs.{Run, RunStatus, Approval, ApprovalStatus, EntryStatus, QueueJob, Stream}
use rya.Store.Runs.{get_run, get_approval, save_approval}
use rya.Store.Streams.{stream_read, stream_append, numbered}
use rya.Store.Queue.{
  queue_get, queue_count, start_job, stamp, queue_claim_one, claim_first, fair_order, queue_list,
  queue_reap, reap_each, claimable, type_wanted, under_cap, dispatch_before, fair_before, busy,
}
use rya.Queue.Claim.{
  ClaimFilter, claim, claim_run, claim_loop, is_foreign, clashes, version_of, sort_claim,
}
use rya.Queue.Enqueue.{enqueue, enqueue_new, enqueue_unless, existing_job, new_job, put_job}
use rya.Quotas.Admission.{
  require_admission, check_admission, applicable, applies_to, consumption, usage_for, verdict_of,
  violation_of, violations,
}
use rya.Quotas.Casts.{int_of, float_of}
use rya.Quotas.Policy.{resolve_quota, coerce_row, all_known, coerce_limit, coerce_policy, limit_of}
use rya.Purge.{require_active, lifecycle}
use rya.Orgs.{org_violations, read_verdict}
use rya.Store.Reads.{
  policy_get, alive_workers, cost_since, is_terminal_status, runs_since, tokens_since,
  unfinished_runs, worker_liveness,
}
use rya.Queue.Valid.{IsQueue}
use rya.Queue.History.{run}
use rya.Tests.Queue.{IsQueue-of_All, distinct}
use rya.Turns.Start.{pinned_spec, TurnSource, EventCall, enqueue_event}
use rya.Turns.Approvals.{
  resume_found, run_of, resume_spec, approving_by, reject_found, enqueue_resume, reject_approval,
  reject_on_stream,
}
use rya.Turns.Streaming.{
  Append, stream_append-AreNumbered, AreNumbered, append_all, cursor, stream_read_resumed,
}
use rya.Turns.Decisions.{IsResumable, resume_once, resume_refused, resume_job}
use rya.Turns.Pinned.{resume_stays_with_version}
use rya.Turns.Rejections.{reject_approval_final, final_run}
use rya.Turns.Announced.{reject_on_stream_ends, new_frames, Announced, EndsWith}
use rya.Turns.Events.{Outcome, enqueue_event_lem}

abbrev paused : Run
paused = record {
  id = "run_1";
  agent = some "mailer";
  agent_version = none;
  version_id = some "v1";
  bundle_hash = none;
  sdk_version = none;
  environment = none;
  trigger = "event";
  status = RunStatus.waiting_approval;
  event = null;
  identity = null;
  turn_id = some "t1";
  journal =
      (record { kind = "approval"; status = EntryStatus.pending; approval_id = some "apr_1" }) ∷ [];
  trace = [];
  pending_approval = some "apr_1";
  error = none;
  parent_run_id = none;
  created_at = 100;
  updated_at = 100;
}

abbrev request : Approval
request = record {
  id = "apr_1";
  run_id = "run_1";
  title = "Send";
  status = ApprovalStatus.pending;
  resolved_at = none;
  resolved_by = none;
}

abbrev waits : Store
waits = record empty { runs = paused ∷ []; approvals = request ∷ [] }

-- a queue that takes no jobs
abbrev full : Store
full = record waits {
  policies =
      (record {
        key = "quotas";
        value = obj (field "maxQueueDepth" (whole (pos 0)) end);
        version = 1;
        actor = none;
        previous = null;
        changed_at = 5;
      })
      ∷ [];
}

abbrev lines : List Stream
lines = (stream_append 5 "t1" (("token", text "a") ∷ ("token", text "b") ∷ []) []).1

two_lines :
    stream_read "t1" (negsuc 0) lines
    ≡ numbered 5 0 (("token", text "a") ∷ ("token", text "b") ∷ [])
unfolding stream_read stream_append numbered Table.get Table.save
two_lines = refl

nothing-AreNumbered : AreNumbered []
unfolding Table.get
nothing-AreNumbered turn = tt

abbrev more : List Append
more = (6, "t2", ("token", text "x") ∷ []) ∷ (7, "t1", ("token", text "c") ∷ []) ∷ []

stream_read_resumed_example :
    AreNumbered (append_all more lines)
    × (stream_read "t1" (pos 0) lines
          ++ stream_read "t1"
              (cursor (pos 0) (stream_read "t1" (pos 0) lines))
              (append_all more lines)
        ≡ stream_read "t1" (pos 0) (append_all more lines))
stream_read_resumed_example = stream_read_resumed "t1" (pos 0) more lines (
    stream_append-AreNumbered 5 "t1" (("token", text "a") ∷ ("token", text "b") ∷ []) []
      nothing-AreNumbered)

abbrev resumed : Store
resumed = (enqueue_resume 200 7 "qj_1" "apr_1" (some "ann") 3 waits).1

abbrev resume : QueueJob
resume = resume_job 200 7 "qj_1" "apr_1" (some "ann") 3 waits paused

is_resumed : enqueue_resume 200 7 "qj_1" "apr_1" (some "ann") 3 waits ≡ (ok resume, resumed)
unfolding enqueue_resume resume_found get_approval Table.get run_of get_run enqueue resume_spec
    pinned_spec enqueue_new require_admission require_active policy_get save_approval
    check_admission resolve_quota coerce_row org_violations read_verdict lifecycle enqueue_unless
    existing_job new_job put_job applicable applies_to consumption usage_for verdict_of violation_of
    violations float_of int_of all_known coerce_limit coerce_policy limit_of queue_count
    alive_workers cost_since is_terminal_status runs_since tokens_since unfinished_runs
    worker_liveness Table.save approving_by
is_resumed = refl

resume_once_example :
    ((a : Approval) × (r : Run) × IsResumable "apr_1" waits a r
      × (resume ≡ resume_job 200 7 "qj_1" "apr_1" (some "ann") 3 waits r)
      × (resumed.runs ≡ waits.runs))
    × (queue_get "qj_1" resumed.queue ≡ some resume)
    × (enqueue_resume 210 8 "qj_2" "apr_1" (some "bob") 3 resumed
        ≡ (err e_approval_not_pending, resumed))
unfolding new_job resume_spec pinned_spec
resume_once_example =
    resume_once 200 7 "qj_1" "apr_1" (some "ann") 3 waits resume resumed resumed 210 8 "qj_2"
      (some "bob") 3 is_resumed refl

abbrev stuck : Store
stuck = (enqueue_resume 200 7 "qj_1" "apr_1" (some "ann") 3 full).1

full-IsResumable : IsResumable "apr_1" full request paused
unfolding get_approval get_run Table.get
full-IsResumable = record { approval = refl; waits = refl; run = refl; paused = refl }

is_stuck : enqueue_resume 200 7 "qj_1" "apr_1" (some "ann") 3 full ≡ (err e_quota_exceeded, stuck)
unfolding enqueue_resume resume_found get_approval Table.get run_of get_run enqueue resume_spec
    pinned_spec enqueue_new require_admission require_active policy_get save_approval
    check_admission resolve_quota coerce_row org_violations read_verdict lifecycle enqueue_unless
    existing_job new_job put_job applicable applies_to consumption usage_for verdict_of violation_of
    violations float_of int_of all_known coerce_limit coerce_policy limit_of queue_count
    alive_workers cost_since is_terminal_status runs_since tokens_since unfinished_runs
    worker_liveness Table.save approving_by
is_stuck = refl

resume_refused_example :
    (stuck.queue ≡ full.queue)
    × (enqueue_resume 210 8 "qj_2" "apr_1" (some "ann") 3 stuck
        ≡ (err e_approval_not_pending, stuck))
resume_refused_example =
    resume_refused 200 7 "qj_1" "apr_1" (some "ann") 3 full request paused e_quota_exceeded stuck
      stuck 210 8 "qj_2" (some "ann") 3 full-IsResumable is_stuck refl

abbrev only_v2 : ClaimFilter
only_v2 = record { types = []; version_id = some "v2"; agent = none }

-- a job that every worker may run
abbrev free_job : QueueJob
free_job = record resume { id = "qj_0"; metadata = [] }

abbrev waits_too : Store
waits_too = record waits { queue = free_job ∷ [] }

abbrev handed : Store
handed = record waits_too {
  approvals = (record request { status = ApprovalStatus.approving; resolved_by = some "ann" }) ∷ [];
  queue = free_job ∷ resume ∷ [];
}

is_handed : enqueue_resume 200 7 "qj_1" "apr_1" (some "ann") 3 waits_too ≡ (ok resume, handed)
unfolding enqueue_resume resume_found get_approval Table.get run_of get_run enqueue resume_spec
    pinned_spec enqueue_new require_admission require_active policy_get save_approval
    check_admission resolve_quota coerce_row org_violations read_verdict lifecycle enqueue_unless
    existing_job new_job put_job applicable applies_to consumption usage_for verdict_of violation_of
    violations float_of int_of all_known coerce_limit coerce_policy limit_of queue_count
    alive_workers cost_since is_terminal_status runs_since tokens_since unfinished_runs
    worker_liveness Table.save approving_by
is_handed = refl

free_queue : IsQueue waits_too.queue
unfolding new_job resume_spec pinned_spec
free_queue = IsQueue-of_All waits_too.queue (ground arith) (ground arith)

abbrev claimed : List QueueJob
claimed = (claim_run "w2" only_v2 5 60 300 handed.queue).claimed

resume_stays_with_version_example : free_job.id ≢ resume.id
unfolding claim claim_run run new_job get_approval get_run Table.get claim_loop queue_claim_one
    claim_first fair_order Sort.sorted Sort.insert queue_list queue_reap reap_each resume_spec
    pinned_spec is_foreign clashes version_of claimable type_wanted under_cap sort_claim start_job
    dispatch_before fair_before busy Table.save
resume_stays_with_version_example =
    resume_stays_with_version 200 7 "qj_1" "apr_1" (some "ann") 3 waits_too handed resume request
      paused "v1" "v2" [] "w2" only_v2 5 60 300 claimed
      (stamp 300 (start_job "w2" 300 360 free_job)) free_queue refl is_handed refl refl refl tt
      (distinct "w2" "" refl) refl (distinct "v1" "v2" refl) refl first
  where
    first : Member (stamp 300 (start_job "w2" 300 360 free_job)) claimed
    first = inl refl

abbrev refused : Store
refused = (reject_approval 200 "apr_1" (some "ann") waits).1

abbrev rejected : Run
rejected = final_run 200 "apr_1" (some "ann") waits request paused

is_rejected : reject_approval 200 "apr_1" (some "ann") waits ≡ (ok rejected, refused)
unfolding reject_approval reject_found get_approval Table.get run_of get_run
is_rejected = refl

reject_approval_final_example :
    (is_terminal_status rejected.status ≡ true)
    × (rejected.pending_approval ≡ none)
    × (get_run rejected.id refused ≡ some rejected)
    × (refused.queue ≡ waits.queue)
    × (enqueue_resume 210 8 "qj_2" "apr_1" (some "bob") 3 refused
        ≡ (err e_approval_not_pending, refused))
    × (reject_approval 210 "apr_1" (some "bob") refused ≡ (err e_approval_not_pending, refused))
reject_approval_final_example =
    reject_approval_final 200 "apr_1" (some "ann") waits refused refused rejected 210 8 3 "qj_2"
      (some "bob") is_rejected refl

reject_on_stream_ends_example :
    Announced 200 "apr_1"
      (some "ann")
      waits
      request
      "t1"
      (reject_approval 200 "apr_1" (some "ann") waits)
      (reject_on_stream 200 "apr_1" (some "ann") waits)
    × EndsWith (reject_approval 200 "apr_1" (some "ann") waits).0 (
        new_frames 200 "apr_1"
          (some "ann")
          waits
          request
          "t1"
          (reject_approval 200 "apr_1" (some "ann") waits).0)
unfolding get_approval get_run Table.get
reject_on_stream_ends_example =
    reject_on_stream_ends 200 "apr_1" (some "ann") waits request "t1" paused refl refl refl

abbrev mailer : TurnSource
mailer = record {
  agent = some "mailer";
  agent_version = none;
  version = record {
    id = some "v1";
    manifest_version = none;
    bundle_hash = none;
    sdk_version = none;
  };
}

abbrev message : EventCall
message = record {
  type = "message.received";
  payload = null;
  trigger_source = "api";
  identity = null;
  environment = none;
  max_attempts = 3;
  event_id = "evt_1";
  run_id = "run_2";
  turn_id = "qj_3";
}

enqueue_event_lem_example :
    Outcome 200 9 mailer message waits
      (distinct "run_2" "" refl)
      (enqueue_event 200 9 mailer message waits)
enqueue_event_lem_example = enqueue_event_lem 200 9 mailer message waits (distinct "run_2" "" refl)
