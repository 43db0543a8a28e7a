-- ===== src/Turns/Pinned.antt =====
-- The job of a resume (turns.py) and the claims of workers of other versions (queue.py).
use mathlib.Core.Path.{subst}
use mathlib.Core.Option.{some-injective}
use rya.Prelude.{
  ℕ, String, ◌≡◌, refl, sym, ap, ◌∙◌, ◌≢◌, true, Option, none, some, List, [], ◌∷◌, ◌++◌, Member,
  eq_iff, arith,
}
use rya.Errors.{ok}
use rya.Store.{Store}
use rya.Store.Docs.{Run, Approval, QueueJob}
use rya.Store.Runs.{save_approval, get_run, get_approval}
use rya.Queue.Tables.{queue_save-IsTable, new-Evolves}
use rya.Store.Queue.{queue_save, queue_get}
use rya.Queue.Enqueue.{JobSpec, given_id, new_job}
use rya.Queue.Claim.{ClaimFilter, claim, lookup, clashes, is_foreign, version_of}
use rya.Queue.Claiming.{claim_returns}
use rya.Queue.Valid.{IsQueue, Life-IsValid}
use rya.Queue.Arrivals.{IsFresh}
use rya.Queue.History.{Call, claims, run, step, run-IsQueue, run-SameSpec, AreFreshCalls}
use rya.Turns.Start.{tag, pinned_spec}
use rya.Turns.Approvals.{enqueue_resume, resume_spec}
use rya.Turns.Decisions.{decided, resumed_is, resume_once, resume_job, stored}

-- The version of a resume's job is that of the run.
tagged :
    (agent : Option String) (v : String)
    → lookup "versionId" (tag "agent" agent ++ tag "versionId" (some v)) ≡ some v
tagged none v = refl
tagged (some a) v = refl

module _ (now ns : ℕ) (fresh i : String) (actor : Option String) (m : ℕ) (s : Store) (r : Run)
    (v : String) where
  pinned :
      given_id r.version_id ≡ some v → version_of (resume_job now ns fresh i actor m s r) ≡ some v
  unfolding version_of new_job resume_spec pinned_spec
  pinned e =
      ap (λ o. lookup "versionId" (tag "agent" (given_id r.agent) ++ tag "versionId" o)) e
      ∙ tagged (given_id r.agent) v

  new-IsQueue :
      (spec : JobSpec) (type : String) (t : List QueueJob)
      → IsQueue t
      → queue_get fresh t ≡ none
      → given_id spec.job_id ≡ none
      → IsQueue (queue_save now (new_job now ns fresh type spec) t)
  unfolding new_job
  new-IsQueue spec type t q absent unnamed = record {
    apart = queue_save-IsTable now (new_job now ns fresh type spec) t q.apart;
    valid = λ k.
        Life-IsValid
          (new-Evolves now (new_job now ns fresh type spec) t ns fresh type spec (rw unnamed absent)
            refl k)
          (q.valid k);
  }

  stored-IsQueue :
      (a : Approval)
      → IsQueue s.queue
      → IsFresh fresh s
      → IsQueue (stored now ns fresh i actor m s r (decided now ns fresh i actor m s a)).queue
  unfolding save_approval resume_spec pinned_spec
  stored-IsQueue a q new =
      new-IsQueue (resume_spec i actor m r) "approval-resume" s.queue q new refl

-- What a worker of version `w` may run is not tagged with another.
other_is_foreign :
    (f : ClaimFilter) (v w : String) (j : QueueJob)
    → f.version_id ≡ some w
    → version_of j ≡ some v
    → v ≢ w
    → is_foreign f.version_id f.agent j ≡ true
unfolding is_foreign clashes
other_is_foreign f v w j e h n = rw (e, h) (ground (arith, eq_iff v w))

-- When `enqueue_resume` returns a job for a paused run of version `v`, then after any calls of
-- the queue's operations, on a valid queue whose new ids are fresh, no claim of a named worker
-- that asks for another version returns that job.
pub resume_stays_with_version :
    (now ns : ℕ) (fresh i : String) (actor : Option String) (m : ℕ) (s s1 : Store) (j : QueueJob)
    (a : Approval) (r : Run) (v w : String) (calls : List Call) (worker : String) (f : ClaimFilter)
    (limit lease_seconds later : ℕ) (rs : List QueueJob) (x : QueueJob)
    → IsQueue s.queue
    → IsFresh fresh s
    → enqueue_resume now ns fresh i actor m s ≡ (ok j, s1)
    → get_approval i s ≡ some a
    → get_run a.run_id s ≡ some r
    → given_id r.version_id ≡ some v
    → AreFreshCalls calls s1
    → worker ≢ ""
    → f.version_id ≡ some w
    → v ≢ w
    → (claim worker f limit lease_seconds later (run calls s1)).0 ≡ ok rs
    → Member x rs
    → x.id ≢ j.id
unfolding run step version_of
resume_stays_with_version now ns fresh i actor m s s1 j a r v w calls worker f limit lease_seconds
      later rs x q new resumed found runs pin fresh_calls named wants differs returned mem same =
    let (a', r', h, job_is, s1_is) = resumed_is now ns fresh i actor m s j s1 resumed in
    let same_run : r' ≡ r = some-injective _ _ (
      sym h.run
      ∙ ap (λ (y : Approval). get_run y.run_id s) (some-injective _ _ (sym h.approval ∙ found))
      ∙ runs) in
    let tagged_v : version_of j ≡ some v =
      ap version_of job_is ∙ pinned now ns fresh i actor m s r' v (rw same_run pin) in
    let q1 : IsQueue s1.queue =
      subst (λ y. IsQueue y.queue) (sym s1_is)
        (stored-IsQueue now ns fresh i actor m s r' v a' q new) in
    let here : queue_get j.id s1.queue ≡ some j =
      (resume_once now ns fresh i actor m s j s1 s1 now ns fresh actor m resumed refl).1 in
    let (k, k_is, kept) = run-SameSpec calls s1 j.id j q1.apart fresh_calls here in
    let q2 = run-IsQueue calls s1 q1 fresh_calls in
    let (k', k'_is, kept') =
      run-SameSpec (claims worker f limit lease_seconds later ∷ []) (run calls s1) j.id k q2.apart
        (tt, tt) k_is in
    let (taken, own, x_is) =
      claim_returns worker f limit lease_seconds later (run calls s1) named q2 rs returned x mem in
    let x_k : x ≡ k' = some-injective _ _ (
      sym x_is
      ∙ ap (λ y. queue_get y (claim worker f limit lease_seconds later (run calls s1)).1.queue) same
      ∙ k'_is) in
    let x_v : version_of x ≡ some v =
      ap version_of x_k ∙ ap (lookup "versionId") (kept'.metadata ∙ kept.metadata) ∙ tagged_v in
    cc (own, other_is_foreign f v w x wants x_v differs)
