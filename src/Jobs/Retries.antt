-- ===== src/Jobs/Retries.antt =====
-- What `run_job` (runtime/engine.py) makes of a job, whatever its handler does.
use rya.Prelude.{
  ℕ, suc, zero, ◌+◌, ◌^◌, ◌≤◌, ◌<◌, String, ◌≡◌, refl, ◌∙◌, ◌≢◌, ◌⊎◌, inl, inr, Bool, true, false,
  Option, none, some, ltb, eq_iff, arith, Bool-cases,
}
use rya.Errors.{Exec, Code, Result, ok, err, e_handler_not_found, then_run}
use rya.Store.{Store}
use rya.Store.Docs.{Job, JobState, JobGroup, Run, RunStatus, OnComplete}
use rya.Store.Groups.{get_group, save_group, job_done, done_of, group_job_done}
use rya.Store.Jobs.{job_id, get_job, save_job, create_job, made_job}
use rya.Store.Runs.{save_run}
use rya.Store.Table
use rya.Quotas.Admission.{run}
use rya.Quotas.Cases.{admission_cases}
use rya.Queue.Enqueue.{given_id}
use rya.Turns.Start.{TurnSource}
use rya.Jobs.Work.{
  Ended, Worked, job_run, admitted, new_run, retry_delay, failed_attempt, settled, begun,
  create_next, fired, ended_well, counted_in, fan_in, end_job, finish_job, run_found, run_job,
}

-- The end of a job's run, by the end of its handler.
pub record IsSettled (now : ℕ) (j : Job) (end : Ended) (k : Job) : Type 0 where
  pub same : (k.id ≡ j.id) × (k.max_attempts ≡ j.max_attempts) × (k.handler ≡ j.handler)
  pub outcome :
      ((k.status ≡ JobState.done) × (end.status ≡ RunStatus.completed) × (k.attempts ≡ j.attempts))
      ⊎ ((k.status ≡ JobState.waiting_approval)
          × (end.status ≡ RunStatus.waiting_approval)
          × (k.attempts ≡ j.attempts))
      ⊎ ((k.status ≡ JobState.pending)
          × (k.attempts ≡ suc j.attempts)
          × (k.attempts < j.max_attempts)
          × (now < k.run_at)
          × (k.run_at ≤ now + 30))
      ⊎ ((k.status ≡ JobState.failed)
          × (k.attempts ≡ suc j.attempts)
          × (j.max_attempts ≤ k.attempts))

power-positive : (n : ℕ) → 1 ≤ 2 ^ n
power-positive zero = omega arith
power-positive (suc n) = omega (arith, power-positive n)

retry_delay-bounds : (n : ℕ) → (1 ≤ retry_delay n) × (retry_delay n ≤ 30)
unfolding retry_delay
retry_delay-bounds zero = (omega arith, omega arith)
retry_delay-bounds (suc n) = (omega (arith, power-positive n), omega arith)

module _ (w : Worked) (j : Job) where
  failed-IsSettled :
      (end : Ended) → IsSettled w.now j end (failed_attempt w.now end.message (begun w j))
  unfolding failed_attempt
  failed-IsSettled end = elim (Bool-cases (ltb (j.attempts + 1) j.max_attempts)) [
    | inl e ↦ rw e (record {
      same = (refl, refl, refl);
      outcome = inr (
          inr (
            inl (
              refl,
              omega arith,
              ground (arith, e),
              omega (arith, retry_delay-bounds (j.attempts + 1)),
              omega (arith, retry_delay-bounds (j.attempts + 1)),
            )));
    })
    | inr e ↦ rw e (record {
      same = (refl, refl, refl);
      outcome = inr (inr (inr (refl, omega arith, ground (arith, e))));
    })
  ]

  settled-IsSettled : (end : Ended) → IsSettled w.now j end (settled w.now end (begun w j))
  unfolding settled
  settled-IsSettled end = by_status end.status refl
    where
      by_status :
          (st : RunStatus)
          → end.status ≡ st
          → IsSettled w.now j end (settled w.now (record end { status = st }) (begun w j))
      by_status RunStatus.completed e = record {
        same = (refl, refl, refl);
        outcome = inl (refl, e, refl);
      }
      by_status RunStatus.waiting_approval e = record {
        same = (refl, refl, refl);
        outcome = inr (inl (refl, e, refl));
      }
      by_status RunStatus.queued e = failed-IsSettled end
      by_status RunStatus.running e = failed-IsSettled end
      by_status RunStatus.failed e = failed-IsSettled end
      by_status RunStatus.rejected e = failed-IsSettled end
      by_status RunStatus.needs_reconnect e = failed-IsSettled end

-- The fan-in of a group leaves the stored jobs alone, but for the one that it creates.
create_next-get :
    (w : Worked) (source : TurnSource) (i : String) (a : Bool × Option OnComplete) (s : Store)
    → w.next_id ≢ i
    → get_job i (create_next w source a s) ≡ get_job i s
unfolding create_job save_job get_job made_job
create_next-get w source i (true, some c) s n =
    Table.get-save job_id i (made_job w.now w.next_id _) s.jobs ∙ ground (arith, eq_iff w.next_id i)
create_next-get w source i (true, none) s n = refl
create_next-get w source i (false, some c) s n = refl
create_next-get w source i (false, none) s n = refl

fired-get :
    (w : Worked) (source : TurnSource) (i : String) (success : Bool) (g : Option JobGroup)
    (s : Store)
    → w.next_id ≢ i
    → get_job i (fired w source (done_of success g s)) ≡ get_job i s
unfolding get_job
fired-get w source i success none s n = refl
fired-get w source i success (some g) s n =
    create_next-get w source i _ (save_group (job_done success g).1 s) n

fan_in-get :
    (w : Worked) (source : TurnSource) (i : String) (k : Job) (s : Store)
    → w.next_id ≢ i
    → get_job i (fan_in w source k s) ≡ get_job i s
unfolding fan_in group_job_done
fan_in-get w source i k s n = by_group (given_id k.group_id) (ended_well k.status)
  where
    by_group :
        (g : Option String) (success : Option Bool)
        → get_job i (counted_in w source g success s) ≡ get_job i s
    by_group none success = refl
    by_group (some g) none = refl
    by_group (some g) (some success) = fired-get w source i success (get_group g s) s n

module _ (handles : String → Bool) (execute : Run → Exec Store Ended) (w : Worked)
    (source : TurnSource) (i : String) (s : Store) where
  -- What a call that got as far as the handler did.
  pub record Ran (j : Job) (x : Result Ended × Store) : Type 0 where
    pub run : Run
    pub before : Store
    pub begins :
        get_job i before
        ≡ some (record j { status = JobState.running; result_run_id = some w.run_id })
    pub ends :
        ((c : Code) × (t : Store) × (execute run before ≡ (err c, t)) × (x ≡ (err c, t)))
        ⊎ ((end : Ended) × (t : Store) × (execute run before ≡ (ok end, t))
            × (x.0 ≡ ok end)
            × ((k : Job) × (get_job i x.1 ≡ some k) × IsSettled w.now j end k))

  abbrev pub Outcome : Job → Result Ended × Store → Type 0
  Outcome j x = ((c : Code) × (x ≡ (err c, s))) ⊎ Ran j x

  stored : (k : Job) (t : Store) → k.id ≡ i → get_job i (save_job k t) ≡ some k
  unfolding get_job save_job
  stored k t e = Table.get-save job_id i k t.jobs ∙ rw ((eq_iff k.id i).1 e) refl

  executed :
      (j : Job) (r : Run) (s1 : Store)
      → j.id ≡ i
      → w.next_id ≢ i
      → (y : Result Ended × Store) → execute r (save_job (begun w j) s1) ≡ y
      → Outcome j (then_run y (end_job handles execute w source j))
  unfolding end_job
  executed j r s1 e n (err c, t) q = inr (record {
    run = r;
    before = save_job (begun w j) s1;
    begins = stored (begun w j) s1 e;
    ends = inl (c, t, q, refl);
  })
  executed j r s1 e n (ok end, t) q =
      let k = settled w.now end (begun w j) in
      let h = settled-IsSettled w j end in
      inr (record {
        run = r;
        before = save_job (begun w j) s1;
        begins = stored (begun w j) s1 e;
        ends = inr (
          end,
          t,
          q,
          refl,
          (k, fan_in-get w source i k (save_job k t) n ∙ stored k t (h.same.0 ∙ e), h),
        );
      })

  finished :
      (j : Job) (r : Run) (s1 : Store)
      → j.id ≡ i
      → w.next_id ≢ i
      → Outcome j (finish_job handles execute w source j r s1)
  unfolding finish_job
  finished j r s1 e n = executed j r s1 e n (execute r (save_job (begun w j) s1)) refl

  -- the run of the job, and what follows it
  abbrev starts : Job → Result (Unit {0}) × Store → Result Ended × Store
  starts j x =
      then_run
        (then_run x (λ u t. (ok (job_run w source j), save_run w.now (job_run w source j) t)))
        (λ r. finish_job handles execute w source j r)

  by_parent :
      (j : Job) (o : Option String)
      → j.id ≡ i
      → w.next_id ≢ i
      → Outcome j (starts j (admitted o w.now s))
  by_parent j (some parent) e n = finished j _ _ e n
  by_parent j none e n =
      admission_cases (λ x. Outcome j (starts j x)) run none w.now s _ (λ v h. finished j _ _ e n)
        (λ c. inl (c, refl))

  pub run_job_lem :
      (j : Job)
      → get_job i s ≡ some j
      → w.next_id ≢ i
      → Outcome j (run_job handles execute w source i s)
  unfolding run_job run_found new_run get_job
  run_job_lem j e n =
      let same : j.id ≡ i = Table.get-id job_id i j s.jobs e in
      rw e (elim (Bool-cases (handles j.handler)) [
        | inr h ↦ rw h (inl (e_handler_not_found, refl))
        | inl h ↦ rw h (by_parent j j.parent_run_id same n)
      ])
