-- ===== src/Turns/Events.antt =====
-- What `enqueue_event` (turns.py) leaves behind, on every branch.
use rya.Prelude.{
  ℕ, String, arith, ◌≡◌, ◌≢◌, refl, ◌∙◌, ◌⊎◌, inl, inr, Option, some, none, ◌++◌, eq_iff,
}
use rya.Json.{Json, field, obj, text, end}
use rya.Errors.{Code, Result, ok, err, then_run, pure}
use rya.Store.{Store}
use rya.Store.Docs.{RunStatus, JobStatus, QueueJob}
use rya.Store.Runs.{run_id, get_run, save_run}
use rya.Store.Queue.{stamp, queue_save, queue_get}
use rya.Store.Table
use rya.Quotas.Admission.{run, Verdict}
use rya.Quotas.Cases.{IsAdmitted, admission_cases}
use rya.Queue.Enqueue.{given_id, new_job}
use rya.Queue.Claim.{lookup}
use rya.Queue.Tables.{queue_get-save_self}
use rya.Queue.Accepted.{Accepts, enqueue-Accepts}
use rya.Turns.Start.{
  TurnSource, tag, pinned_spec, turn_spec, Turn, create_turn, EventCall, queued_run, Started,
  enqueue_event,
}

tags :
    (v a : Option String)
    → (lookup "versionId" (tag "versionId" v ++ tag "agent" a) ≡ v)
      × (lookup "agent" (tag "versionId" v ++ tag "agent" a) ≡ a)
tags none none = (refl, refl)
tags none (some a) = (refl, refl)
tags (some v) none = (refl, refl)
tags (some v) (some a) = (refl, refl)

module _ (now ns : ℕ) (source : TurnSource) (call : EventCall) (s : Store)
    (named : call.run_id ≢ "") where
  -- the table of runs with the new one
  abbrev pub with_run : Store
  with_run = save_run now (queued_run now source call) s

  -- A run that was handed out: it waits under the id that the caller has, and so does its turn,
  -- pinned to the version of the run.
  pub record IsStarted (x : Started) (s1 : Store) : Type 0 where
    pub admitted : (v : Verdict) × IsAdmitted run none now s v
    pub stored : get_run x.run_id s1 ≡ some (queued_run now source call)
    pub job : QueueJob
    pub turn : queue_get x.turn_id s1.queue ≡ some job
    pub waits : (job.status ≡ JobStatus.pending) × (x.status ≡ RunStatus.queued)
    pub version : lookup "versionId" job.metadata ≡ given_id source.version.id
    pub agent : lookup "agent" job.metadata ≡ given_id source.agent
    pub names :
        (type payload identity : Json) × (job.payload
          ≡ obj (
              field "type" type (
                field "payload" payload
                  (field "identity" identity (field "runId" (text x.run_id) end)))))

  abbrev pub Outcome : Result Started × Store → Type 0
  Outcome x =
      ((c : Code) × (x ≡ (err c, s)))
      ⊎ ((c : Code) × ((v : Verdict) × IsAdmitted run none now s v) × (x ≡ (err c, with_run)))
      ⊎ ((y : Started) × (s1 : Store) × (x ≡ (ok y, s1)) × IsStarted y s1)

  abbrev turn_job : QueueJob
  turn_job =
      new_job now ns call.turn_id "chat-turn"
        (turn_spec source call.type call.payload call.identity call.max_attempts (some call.run_id))

  given : given_id (some call.run_id) ≡ some call.run_id
  given = ground (arith, eq_iff call.run_id "")

  run_stored : get_run call.run_id with_run ≡ some (queued_run now source call)
  unfolding get_run save_run queued_run
  run_stored =
      Table.get-save run_id call.run_id (queued_run now source call) s.runs
      ∙ rw ((eq_iff call.run_id call.run_id).1 refl) refl

  accepted :
      (v : Verdict)
      → IsAdmitted run none now s v
      → (x : Result QueueJob × Store)
      → Accepts now ns call.turn_id "chat-turn"
          (turn_spec source call.type call.payload call.identity call.max_attempts
            (some call.run_id))
          with_run
          x
      → Outcome (
          then_run
            (then_run x (λ j. pure (record { turn_id = j.id; status = j.status })))
            (λ (t : Turn).
              pure
                (record { run_id = call.run_id; turn_id = t.turn_id; status = RunStatus.queued })))
  unfolding new_job turn_spec pinned_spec save_run get_run
  accepted v h x (inl (c, e)) = inr (inl (c, (v, h), rw e refl))
  accepted v h x (inr e) = inr (
      inr (
        record { run_id = call.run_id; turn_id = call.turn_id; status = RunStatus.queued },
        record with_run { queue = queue_save now turn_job with_run.queue },
        rw e refl,
        record {
          admitted = (v, h);
          stored = run_stored;
          job = stamp now turn_job;
          turn = queue_get-save_self call.turn_id now turn_job with_run.queue refl;
          waits = (refl, refl);
          version = (tags (given_id source.version.id) (given_id source.agent)).0;
          agent = (tags (given_id source.version.id) (given_id source.agent)).1;
          names = (text call.type, call.payload, call.identity, rw given refl);
        },
      ))

  -- When the id of the run that `enqueue_event` makes is not empty, the call is refused and
  -- nothing is written; or the run is admitted and the job refused, and the queued run is all
  -- that is written; or it returns a run that was admitted and is stored as queued, with a stored
  -- pending turn whose payload names the run and whose job carries the version and the agent of
  -- the run.
  pub enqueue_event_lem : Outcome (enqueue_event now ns source call s)
  unfolding enqueue_event create_turn turn_spec pinned_spec
  enqueue_event_lem =
      admission_cases Outcome run none now s _
        (λ v h. accepted v h _ (
          enqueue-Accepts now ns call.turn_id "chat-turn"
            (turn_spec source call.type call.payload call.identity call.max_attempts
              (some call.run_id))
            with_run refl refl))
        (λ c. inl (c, refl))
