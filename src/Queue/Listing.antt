-- ===== src/Queue/Listing.antt =====
-- What `queue_list` and `queue_claim_one` select (store.py).
use rya.Prelude.{
  ◌+◌, refl, ℕ, String, ◌≡◌, sym, ap, ◌∙◌, ◌⊎◌, inl, inr, true, Option, none, some, List, arith,
  Member, Member-keep, Member-keep_of, first_where, first_where-some, first_where-none,
  Option-cases,
}
use rya.Prelude.Sort.{Member-sorted, Member-of_sorted, first_where-Ordered}
use rya.Store.Table
use rya.Store.Docs.{QueueJob, JobStatus, pending, running}
use rya.Store.Queue.{
  job_id, stamp, queue_save, same_status, dispatch_before, queue_list, fair_before, fair_order,
  claimable, start_job, claim_first, queue_claim_one,
}
use rya.Queue.Eligible.{Eligible, Eligible-of, claimable-Eligible}
use rya.Queue.Precedence.{Served, Precedes, Precedes-of_Served, fair_order-Ordered}

pub same_status-eq : (a b : JobStatus) → same_status a b ≡ true → a ≡ b
same_status-eq a b h = ground arith

same_status_refl : (a b : JobStatus) → a ≡ b → same_status a b ≡ true
same_status_refl a b h = ground arith

module _ (st : JobStatus) (j : QueueJob) (t : List QueueJob) where
  -- A listing holds the jobs of its status, and all of them.
  pub Member-of_queue_list : Member j (queue_list st t) → Member j t × (j.status ≡ st)
  unfolding queue_list
  Member-of_queue_list m =
      let (found, passes) =
        Member-keep (λ k. same_status k.status st) j t (Member-of_sorted dispatch_before j _ m) in
      (found, same_status-eq j.status st passes)

  pub Member-queue_list : Member j t → j.status ≡ st → Member j (queue_list st t)
  unfolding queue_list
  Member-queue_list m e =
      Member-sorted dispatch_before j _
        (Member-keep_of (λ k. same_status k.status st) j t m (same_status_refl j.status st e))

none≢some : {A : Type 0} {a : A} → none ≡ some a → ⊥
none≢some e = cc

pair_of_some :
    {A B : Type 0} {a c : A} {b d : B}
    → ◌≡◌ {A = Option (A × B)} (some (a, b)) (some (c, d))
    → (a ≡ c) × (b ≡ d)
pair_of_some e = ground arith

module _ (worker : String) (now lease : ℕ) (types : List String) (t : List QueueJob) where
  -- What a successful `queue_claim_one` did.
  pub record Claimed (j k : QueueJob) (u : List QueueJob) : Type 0 where
    pub eligible : Eligible types now t j
    pub started : k ≡ record j {
      status = running;
      worker_id = some worker;
      lease_expires_at = some lease;
      attempts = j.attempts + 1;
      started_at = some (elim j.started_at [ none ↦ now | some at ↦ at ]);
      updated_at = now;
    }
    pub written : u ≡ Table.save job_id k t
    pub first : (b : QueueJob) → Eligible types now t b → (b ≡ j) ⊎ Precedes t j b

  started_now :
      (j : QueueJob)
      → stamp now (start_job worker now lease j) ≡ record j {
        status = running;
        worker_id = some worker;
        lease_expires_at = some lease;
        attempts = j.attempts + 1;
        started_at = some (elim j.started_at [ none ↦ now | some at ↦ at ]);
        updated_at = now;
      }
  unfolding start_job
  started_now j = by_start j.started_at
    where
      by_start :
          (o : Option ℕ)
          → stamp now (start_job worker now lease (record j { started_at = o })) ≡ record j {
            status = running;
            worker_id = some worker;
            lease_expires_at = some lease;
            attempts = j.attempts + 1;
            started_at = some (elim o [ none ↦ now | some at ↦ at ]);
            updated_at = now;
          }
      by_start none = refl
      by_start (some at) = refl

  pub started_as :
      (j k : QueueJob) (u : List QueueJob)
      → Claimed j k u
      → k ≡ stamp now (start_job worker now lease j)
  started_as j k u c = c.started ∙ sym (started_now j)

  pub written_as :
      (j k : QueueJob) (u : List QueueJob)
      → Claimed j k u
      → u ≡ queue_save now (start_job worker now lease j) t
  written_as j k u c = c.written ∙ ap (λ x. Table.save job_id x t) (started_as j k u c)

  pick : Option QueueJob
  pick = first_where (claimable types now t) (fair_order t (queue_list pending t))

  pick-Eligible : (j : QueueJob) → pick ≡ some j → Eligible types now t j
  unfolding pick fair_order
  pick-Eligible j e =
      let (m, passes) = first_where-some (claimable types now t) _ j e in
      let (found, waits) =
        Member-of_queue_list pending j t (Member-of_sorted (fair_before t) j _ m) in
      Eligible-of types now t j found waits passes

  Member-fair_order :
      (b : QueueJob) → Eligible types now t b → Member b (fair_order t (queue_list pending t))
  unfolding fair_order
  Member-fair_order b h =
      Member-sorted (fair_before t) b _ (Member-queue_list pending b t h.found h.waits)

  pick-first : (j b : QueueJob) → pick ≡ some j → Eligible types now t b → (b ≡ j) ⊎ Served t j b
  unfolding pick
  pick-first j b e h =
      first_where-Ordered (Served t) (claimable types now t) _ j b (fair_order-Ordered t pending) e
        (Member-fair_order b h) (claimable-Eligible types now t b h)

  -- A successful `queue_claim_one` takes a job that waits, is due, of a wanted type (any, if the
  -- list is empty) and under the running cap of its key, writes its start alone (running, the
  -- worker, the lease, one attempt more and the first start), returns it, and no other such job
  -- comes before it in the order of dispatch: the less busy key first, then the higher priority,
  -- the earlier due time and the lower `seq`.
  pub queue_claim_one-some :
      (k : QueueJob) (u : List QueueJob)
      → queue_claim_one worker now lease types t ≡ some (k, u)
      → (j : QueueJob) × Claimed j k u
  unfolding queue_claim_one claim_first pick
  queue_claim_one-some k u e = elim (Option-cases pick) [
    | inl n ↦ absurd (none≢some (sym (ap (λ o. claim_first worker now lease o t) n) ∙ e))
    | inr (j, s) ↦
        let (k_eq, u_eq) = pair_of_some (sym e ∙ ap (λ o. claim_first worker now lease o t) s) in
        (
          j,
          record {
            eligible = pick-Eligible j s;
            started = k_eq ∙ started_now j;
            written = rw k_eq u_eq;
            first = λ b h. elim (pick-first j b s h) [
              | inl q ↦ inl q
              | inr o ↦ inr (Precedes-of_Served t j b o)
            ];
          },
        )
  ]

  -- `queue_claim_one` finds nothing only if no job of the queue waits, is due, of a wanted type
  -- and under its cap.
  pub queue_claim_one-none :
      (b : QueueJob) → queue_claim_one worker now lease types t ≡ none → ¬ Eligible types now t b
  unfolding queue_claim_one claim_first pick
  queue_claim_one-none b e h = elim (Option-cases pick) [
    | inl n ↦ cc (
      first_where-none (claimable types now t) _ b n (Member-fair_order b h),
      (claimable-Eligible types now t b h),
    )
    | inr (j, s) ↦ absurd (none≢some (sym e ∙ ap (λ o. claim_first worker now lease o t) s))
  ]
