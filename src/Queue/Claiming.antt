-- ===== src/Queue/Claiming.antt =====
-- `claim` (queue.py) as a whole: what it returns, and what becomes of every other job.
use mathlib.Core.Path.{subst}
use rya.Prelude.{
  ℕ, ◌+◌, ◌≤◌, String, ◌≡◌, refl, sym, ap, ◌∙◌, ◌≢◌, ◌⊎◌, inl, inr, false, some, List, arith,
  Member, length, eq_iff,
}
use mathlib.Core.Option.{some-injective}
use rya.Errors.{ok}
use rya.Store.{Store}
use rya.Store.Docs.{QueueJob, running}
use rya.Store.Queue.{job_id, stamp, queue_get, start_job, queue_reap}
use rya.Queue.Claim.{
  Claims, is_foreign, release_job, release_all, ClaimFilter, wanted_of, max_claim_limit, claim_run,
  claim,
}
use rya.Queue.Life.{rests, changed, starts}
use rya.Queue.Valid.{IsValid, IsQueue}
use rya.Queue.Reap.{queue_reap-IsTable, queue_reap-Evolves}
use rya.Queue.Claims.{Taken, Handled, Holds, begins-Holds, claim_loop-Holds, length-claim_loop}
use rya.Queue.Tables.{IsTable, Evolves, Evolves-trans}
use rya.Queue.Released.{
  release_all-IsTable, get-release_all_ne, get-release_all, release_all-Evolves, IsRefunded, refund,
}

-- A job is claimed, or stands as it stood.
abbrev pub Settled : String → ℕ → ℕ → String → QueueJob → List QueueJob → List QueueJob → Type 0
Settled worker now lease i j claimed t =
    ((r : QueueJob) × Member r claimed
      × (r ≡ stamp now (start_job worker now lease j))
      × (queue_get i t ≡ some r))
    ⊎ ((k : QueueJob) × (queue_get i t ≡ some k) × IsRefunded j k)

module _ (worker : String) (f : ClaimFilter) (limit lease_seconds now : ℕ) (q : List QueueJob) where
  abbrev pub final : Claims
  final = claim_run worker f limit lease_seconds now q

  module _ (u : IsTable q) where
    pub final-Holds :
        Holds worker now
          (now + lease_seconds)
          f.types
          (wanted_of limit)
          f.version_id
          f.agent
          (queue_reap now q)
          final
    unfolding claim_run
    final-Holds =
        claim_loop-Holds worker now (now + lease_seconds) f.types (wanted_of limit) f.version_id
          f.agent (queue_reap now q) max_claim_limit _
          (begins-Holds worker now (now + lease_seconds) f.types (wanted_of limit) f.version_id
            f.agent (queue_reap now q) (queue_reap-IsTable now q u))

    abbrev pub after : List QueueJob
    after = release_all now final.released final.table

    runs :
        (r : QueueJob)
        → Handled worker now
            (now + lease_seconds)
            f.types
            (wanted_of limit)
            f.version_id
            f.agent
            (queue_reap now q)
            final
            r
        → r.status ≡ running
    unfolding start_job
    runs r m = ap (λ k. k.status) (final-Holds.taken r m).started

    -- What is claimed is not what is handed back.
    pub stays : (r : QueueJob) → Member r final.claimed → queue_get r.id after ≡ some r
    stays r m =
        get-release_all_ne now final.released final.table r.id (λ k n e. cc (
          final-Holds.own r m,
          final-Holds.foreign k n,
          final-Holds.stored k (inr n),
          final-Holds.stored r (inl m),
        ))
        ∙ final-Holds.stored r (inl m)

    returned :
        (r : QueueJob)
        → Member r final.released
        → queue_get r.id after ≡ some (stamp now (release_job r))
    returned r m = get-release_all now final.released final.table r final-Holds.apart m

    -- A handled job is the one that stood under its id.
    origin :
        (i : String) (j r : QueueJob)
        → queue_get i (queue_reap now q) ≡ some j
        → (t : Taken worker now
            (now + lease_seconds)
            f.types
            (wanted_of limit)
            f.version_id
            f.agent
            (queue_reap now q)
            r)
        → r.id ≡ i
        → t.job ≡ j
    unfolding start_job
    origin i j r e t m =
        let same : t.job.id ≡ i = sym (ap job_id t.started) ∙ m in
        some-injective _ _ (sym t.stored ∙ (ap (λ x. queue_get x (queue_reap now q)) same ∙ e))

    -- A job that the loop did not reach is not handed back either.
    unhandled :
        (i : String) (j : QueueJob)
        → queue_get i (queue_reap now q) ≡ some j
        → queue_get i final.table ≡ queue_get i (queue_reap now q)
        → queue_get i after ≡ some j
    unhandled i j e untouched =
        get-release_all_ne now final.released final.table i (λ k n h.
          let t = final-Holds.taken k (inr n) in
          let same = origin i j k e t h in
          let here = ap (λ x. queue_get x final.table) (sym h) ∙ final-Holds.stored k (inr n) in
          let is_j : k ≡ j = some-injective _ _ (sym here ∙ untouched ∙ e) in
          cc (t.waits, ap (λ x. x.status) same, runs k (inr n), ap (λ x. x.status) is_j))
        ∙ untouched
        ∙ e

    pub kept :
        (i : String) (j : QueueJob)
        → queue_get i (queue_reap now q) ≡ some j
        → IsValid j
        → Settled worker now (now + lease_seconds) i j final.claimed after
    kept i j e v = elim (final-Holds.frame i) [
      | inl (r, inl m, h) ↦
          let t = final-Holds.taken r (inl m) in
          let same = origin i j r e t h in
          inl (
            r,
            m,
            t.started ∙ ap (λ x. stamp now (start_job worker now (now + lease_seconds) x)) same,
            ap (λ x. queue_get x after) (sym h) ∙ stays r m,
          )
      | inl (r, inr m, h) ↦
          let t = final-Holds.taken r (inr m) in
          let same = origin i j r e t h in
          let begun =
            t.started ∙ ap (λ x. stamp now (start_job worker now (now + lease_seconds) x)) same in
          inr (
            stamp now (release_job r),
            ap (λ x. queue_get x after) (sym h) ∙ returned r m,
            subst (λ x. IsRefunded j (stamp now (release_job x))) (sym begun)
                (refund worker now (now + lease_seconds) j (rw same at t.waits) v),
          )
      | inr untouched ↦ inr (j, unhandled i j e untouched, record { same = refl })
    ]

    final-Evolves : Evolves (queue_reap now q) final.table
    unfolding start_job
    final-Evolves i = elim (final-Holds.frame i) [
      | inl (r, m, h) ↦
          let t = final-Holds.taken r m in
          let same : t.job.id ≡ i = sym (ap job_id t.started) ∙ h in
          let was : queue_get i (queue_reap now q) ≡ some t.job =
            ap (λ x. queue_get x (queue_reap now q)) (sym same) ∙ t.stored in
          let is_r : queue_get i final.table ≡ some r =
            ap (λ x. queue_get x final.table) (sym h) ∙ final-Holds.stored r m in
          rw (was, is_r) (changed rests (starts worker now (now + lease_seconds) t.waits t.started))
      | inr e ↦ rw e rests
    ]

    pub after-Evolves : Evolves q after
    after-Evolves = Evolves-trans q (queue_reap now q) _ (queue_reap-Evolves now q u) (
        Evolves-trans (queue_reap now q) final.table _ final-Evolves (
          release_all-Evolves now final.released final.table final-Holds.apart
            (λ r m. (final-Holds.stored r (inr m), runs r (inr m)))))

    pub after-IsTable : IsTable after
    after-IsTable = release_all-IsTable now final.released final.table final-Holds.table

    pub length-final : length final.claimed ≤ wanted_of limit
    unfolding claim_run
    length-final =
        length-claim_loop worker now (now + lease_seconds) f.types (wanted_of limit) f.version_id
          f.agent (queue_reap now q) max_claim_limit _ (omega arith)

module _ (worker : String) (f : ClaimFilter) (limit lease_seconds now : ℕ) (s : Store)
    (named : worker ≢ "") (ok_queue : IsQueue s.queue) (rs : List QueueJob)
    (returned_jobs : (claim worker f limit lease_seconds now s).0 ≡ ok rs) where
  parts :
      (rs ≡ (final worker f limit lease_seconds now s.queue).claimed)
      × ((claim worker f limit lease_seconds now s).1.queue
          ≡ after worker f limit lease_seconds now s.queue ok_queue.apart)
  unfolding claim
  parts = ground (arith, eq_iff worker "")

  -- When a named worker's claim on a valid queue returns jobs, they are at most `max(1,
  -- min(limit, 50))`.
  pub length-claim : length rs ≤ wanted_of limit
  length-claim = rw parts.0 (length-final worker f limit lease_seconds now s.queue ok_queue.apart)

  -- When a named worker's claim on a valid queue returns jobs, each of them is a waiting job of
  -- the reaped queue that this call started, carries no version and no agent other than those the
  -- worker asks for, and is stored as it was returned.
  pub claim_returns :
      (r : QueueJob)
      → Member r rs
      → Taken worker now
          (now + lease_seconds)
          f.types
          (wanted_of limit)
          f.version_id
          f.agent
          (queue_reap now s.queue)
          r
        × (is_foreign f.version_id f.agent r ≡ false)
        × (queue_get r.id (claim worker f limit lease_seconds now s).1.queue ≡ some r)
  claim_returns r m =
      let h = final-Holds worker f limit lease_seconds now s.queue ok_queue.apart in
      let own = subst (Member r) parts.0 m in
      (
        h.taken r (inl own),
        h.own r own,
        ap (queue_get r.id) parts.1
            ∙ stays worker f limit lease_seconds now s.queue ok_queue.apart r own,
      )
