-- ===== src/Queue/Claims.antt =====
-- The loop of `claim` (queue.py): what it holds while it runs.
use rya.Prelude.{
  ℕ, zero, suc, ◌≤◌, String, ◌≡◌, refl, sym, ap, ◌∙◌, ◌≢◌, ◌⊎◌, inl, inr, true, false, Option, none,
  some, List, [], ◌∷◌, ◌++◌, arith, Member, Member-append, Member-append_left, Member-append_right,
  All, All-of_Member, length, length-append, leb, str_eq, eq_iff, Bool-cases, Option-cases,
}
use rya.Store.Docs.{QueueJob, pending, running}
use rya.Store.Queue.{job_id, stamp, queue_get, start_job, queue_claim_one}
use rya.Store.Table
use rya.Queue.Claim.{Claims, is_foreign, sort_claim, claim_loop}
use rya.Queue.Listing.{Claimed, started_as, written_as, queue_claim_one-some}
use rya.Queue.Tables.{
  IsTable, queue_save-IsTable, queue_get_of_Member, queue_get-save_self, queue_get-save_ne,
}

started-id :
    (worker : String) (now lease : ℕ) (j : QueueJob) → (start_job worker now lease j).id ≡ j.id
unfolding start_job
started-id worker now lease j = refl

started-status :
    (worker : String) (now lease : ℕ) (j : QueueJob)
    → (stamp now (start_job worker now lease j)).status ≡ running
unfolding start_job
started-status worker now lease j = refl

module _ (worker : String) (now lease : ℕ) (types : List String) (wanted : ℕ)
    (version agent : Option String) (start : List QueueJob) where
  -- `r` is a waiting job of the table that the loop began with, as the loop started it.
  pub record Taken (r : QueueJob) : Type 0 where
    pub job : QueueJob
    pub stored : queue_get job.id start ≡ some job
    pub waits : job.status ≡ pending
    pub started : r ≡ stamp now (start_job worker now lease job)

  abbrev pub Handled : Claims → QueueJob → Type 0
  Handled c r = Member r c.claimed ⊎ Member r c.released

  -- The invariant of the loop.
  pub record Holds (c : Claims) : Type 0 where
    pub table : IsTable c.table
    pub apart : Table.Unique job_id c.released
    pub stored : (r : QueueJob) → Handled c r → queue_get r.id c.table ≡ some r
    pub taken : (r : QueueJob) → Handled c r → Taken r
    pub own : (r : QueueJob) → Member r c.claimed → is_foreign version agent r ≡ false
    pub foreign : (r : QueueJob) → Member r c.released → is_foreign version agent r ≡ true
    -- whatever was not handled is as it was
    pub frame :
        (i : String)
        → ((r : QueueJob) × Handled c r × (r.id ≡ i)) ⊎ (queue_get i c.table ≡ queue_get i start)

  pub begins-Holds : IsTable start → Holds (record { claimed = []; released = []; table = start })
  begins-Holds u = record {
    table = u;
    apart = tt;
    stored = λ r h. absurd (none_handled r h);
    taken = λ r h. absurd (none_handled r h);
    own = λ r m. absurd m;
    foreign = λ r m. absurd m;
    frame = λ i. inr refl;
  }
    where
      none_handled : (r : QueueJob) → ⊥ ⊎ ⊥ → ⊥
      none_handled r (inl m) = m
      none_handled r (inr m) = m

  Taken-running : (r : QueueJob) → Taken r → r.status ≡ running
  Taken-running r k = ap (λ j. j.status) k.started ∙ started-status worker now lease k.job

  -- One more job is claimed: the facts that both branches of the loop share.
  module _ (c : Claims) (h : Holds c) (j k : QueueJob) (u : List QueueJob)
      (got : Claimed worker now lease types c.table j k u) where
    new_id : k.id ≡ j.id
    new_id =
        ap job_id (started_as worker now lease types c.table j k u got)
        ∙ started-id worker now lease j

    was_stored : queue_get j.id c.table ≡ some j
    was_stored = queue_get_of_Member j c.table h.table got.eligible.found

    -- A job that is handled already runs, so it is not the one that waits.
    others : (r : QueueJob) → Handled c r → r.id ≢ j.id
    others r m e =
        let same : some r ≡ some j =
          sym (h.stored r m) ∙ (ap (λ i. queue_get i c.table) e ∙ was_stored) in
        let runs = Taken-running r (h.taken r m) in ground (arith, got.eligible.waits, runs, same)

    new_stored : queue_get k.id u ≡ some k
    new_stored =
        ap (queue_get k.id) (written_as worker now lease types c.table j k u got)
        ∙ queue_get-save_self k.id now (start_job worker now lease j) c.table
            (started-id worker now lease j ∙ sym new_id)
        ∙ ap some (sym (started_as worker now lease types c.table j k u got))

    old_stored : (r : QueueJob) → Handled c r → queue_get r.id u ≡ some r
    old_stored r m = rw (written_as worker now lease types c.table j k u got) (
        queue_get-save_ne r.id now (start_job worker now lease j) c.table
          (λ e. others r m (sym e ∙ started-id worker now lease j))
        ∙ h.stored r m)

    new_taken : Taken k
    new_taken = record {
      job = j;
      stored = elim (h.frame j.id) [
        | inl (r, m, e) ↦ absurd (others r m e)
        | inr e ↦ sym e ∙ was_stored
      ];
      waits = got.eligible.waits;
      started = (started_as worker now lease types c.table j k u got);
    }

    new-IsTable : IsTable u
    new-IsTable =
        rw (written_as worker now lease types c.table j k u got)
          (queue_save-IsTable now (start_job worker now lease j) c.table h.table)

    new_frame :
        (d : Claims)
        → d.table ≡ u
        → ((r : QueueJob) → (r ≡ k) ⊎ Handled c r → Handled d r)
        → (i : String)
        → ((r : QueueJob) × Handled d r × (r.id ≡ i)) ⊎ (queue_get i d.table ≡ queue_get i start)
    new_frame d e into i = elim (Bool-cases (str_eq j.id i)) [
      | inl q ↦ inl (k, into k (inl refl), new_id ∙ (eq_iff j.id i).0 q)
      | inr n ↦ elim (h.frame i) [
        | inl (r, m, q) ↦ inl (r, into r (inr m), q)
        | inr q ↦ inr (
            rw (e, (written_as worker now lease types c.table j k u got))
              (queue_get-save_ne i now (start_job worker now lease j) c.table
                  (λ s. cc ((eq_iff j.id i).1 (sym (started-id worker now lease j) ∙ s)))
                ∙ q))
      ]
    ]

    -- The new job is in no released one's place.
    new_apart : All (λ y. str_eq (job_id k) (job_id y) ≡ false) c.released
    new_apart =
        All-of_Member _ c.released
          (λ r m. ground (arith, others r (inr m), new_id, eq_iff (job_id k) (job_id r)))

    claimed_next :
        is_foreign version agent k ≡ false
        → Holds (record c { claimed = c.claimed ++ k ∷ []; table = u })
    claimed_next own = record {
      table = new-IsTable;
      apart = h.apart;
      stored = λ r m. elim (split r m) [ inl e ↦ rw e new_stored | inr o ↦ old_stored r o ];
      taken = λ r m. elim (split r m) [ inl e ↦ rw e new_taken | inr o ↦ h.taken r o ];
      own = λ r m. elim (Member-append r c.claimed (k ∷ []) m) [
        | inl o ↦ h.own r o
        | inr (inl e) ↦ rw e own
        | inr (inr n) ↦ absurd n
      ];
      foreign = h.foreign;
      frame = new_frame _ refl into;
    }
      where
        split :
            (r : QueueJob)
            → Member r (c.claimed ++ k ∷ []) ⊎ Member r c.released
            → (r ≡ k) ⊎ Handled c r
        split r (inr m) = inr (inr m)
        split r (inl m) = elim (Member-append r c.claimed (k ∷ []) m) [
          | inl o ↦ inr (inl o)
          | inr (inl e) ↦ inl e
          | inr (inr n) ↦ absurd n
        ]

        into :
            (r : QueueJob)
            → (r ≡ k) ⊎ Handled c r
            → Member r (c.claimed ++ k ∷ []) ⊎ Member r c.released
        into r (inl e) = inl (Member-append_right r c.claimed (k ∷ []) (inl e))
        into r (inr (inl m)) = inl (Member-append_left r c.claimed (k ∷ []) m)
        into r (inr (inr m)) = inr m

    released_next :
        is_foreign version agent k ≡ true
        → Holds (record c { released = c.released ++ k ∷ []; table = u })
    released_next other = record {
      table = new-IsTable;
      apart = Table.Unique-snoc job_id c.released k h.apart new_apart;
      stored = λ r m. elim (split r m) [ inl e ↦ rw e new_stored | inr o ↦ old_stored r o ];
      taken = λ r m. elim (split r m) [ inl e ↦ rw e new_taken | inr o ↦ h.taken r o ];
      own = h.own;
      foreign = λ r m. elim (Member-append r c.released (k ∷ []) m) [
        | inl o ↦ h.foreign r o
        | inr (inl e) ↦ rw e other
        | inr (inr n) ↦ absurd n
      ];
      frame = new_frame _ refl into;
    }
      where
        split :
            (r : QueueJob)
            → Member r c.claimed ⊎ Member r (c.released ++ k ∷ [])
            → (r ≡ k) ⊎ Handled c r
        split r (inl m) = inr (inl m)
        split r (inr m) = elim (Member-append r c.released (k ∷ []) m) [
          | inl o ↦ inr (inr o)
          | inr (inl e) ↦ inl e
          | inr (inr n) ↦ absurd n
        ]

        into :
            (r : QueueJob)
            → (r ≡ k) ⊎ Handled c r
            → Member r c.claimed ⊎ Member r (c.released ++ k ∷ [])
        into r (inl e) = inr (Member-append_right r c.released (k ∷ []) (inl e))
        into r (inr (inl m)) = inl m
        into r (inr (inr m)) = inr (Member-append_left r c.released (k ∷ []) m)

    pub sort_claim-Holds : Holds (sort_claim version agent k u c)
    unfolding sort_claim
    sort_claim-Holds = elim (Bool-cases (is_foreign version agent k)) [
      | inl e ↦ rw e (released_next e)
      | inr e ↦ rw e (claimed_next e)
    ]

  abbrev loop : ℕ → Claims → Claims
  loop = claim_loop worker now lease types wanted version agent

  abbrev attempt : Claims → Option (QueueJob × List QueueJob)
  attempt c = queue_claim_one worker now lease types c.table

  loop_full : (n : ℕ) (c : Claims) → leb wanted (length c.claimed) ≡ true → loop (suc n) c ≡ c
  unfolding claim_loop
  loop_full n c e = rw (e, claim_loop)

  loop_idle :
      (n : ℕ) (c : Claims)
      → leb wanted (length c.claimed) ≡ false
      → attempt c ≡ none
      → loop (suc n) c ≡ c
  unfolding claim_loop
  loop_idle n c e q = rw (e, q, claim_loop)

  loop_next :
      (n : ℕ) (c : Claims) (k : QueueJob) (u : List QueueJob)
      → leb wanted (length c.claimed) ≡ false
      → attempt c ≡ some (k, u)
      → loop (suc n) c ≡ loop n (sort_claim version agent k u c)
  unfolding claim_loop
  loop_next n c k u e q = rw (e, q, claim_loop)

  -- The loop keeps it.
  pub claim_loop-Holds : (n : ℕ) (c : Claims) → Holds c → Holds (loop n c)
  claim_loop-Holds zero c h = unfold claim_loop in h
  claim_loop-Holds (suc n) c h = elim (Bool-cases (leb wanted (length c.claimed))) [
    | inl e ↦ rw (loop_full n c e) h
    | inr e ↦ elim (Option-cases (attempt c)) [
      | inl q ↦ rw (loop_idle n c e q) h
      | inr ((k, u), q) ↦
          let (j, got) = queue_claim_one-some worker now lease types c.table k u q in
          rw (loop_next n c k u e q)
            (claim_loop-Holds n (sort_claim version agent k u c) (sort_claim-Holds c h j k u got))
    ]
  ]

  one_more :
      (c : Claims) (k : QueueJob) (u : List QueueJob)
      → leb wanted (length c.claimed) ≡ false
      → length (sort_claim version agent k u c).claimed ≤ wanted
  unfolding sort_claim
  one_more c k u e = ground (arith, length-append c.claimed (k ∷ []))

  -- It claims no more than was wanted.
  pub length-claim_loop :
      (n : ℕ) (c : Claims) → length c.claimed ≤ wanted → length (loop n c).claimed ≤ wanted
  length-claim_loop zero c h = unfold claim_loop in h
  length-claim_loop (suc n) c h = elim (Bool-cases (leb wanted (length c.claimed))) [
    | inl e ↦ rw (loop_full n c e) h
    | inr e ↦ elim (Option-cases (attempt c)) [
      | inl q ↦ rw (loop_idle n c e q) h
      | inr ((k, u), q) ↦
          rw (loop_next n c k u e q)
            (length-claim_loop n (sort_claim version agent k u c) (one_more c k u e))
    ]
  ]
