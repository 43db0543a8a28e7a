-- ===== src/Jobs/Lost.antt =====
-- A claimed job (store.py, `claim_due_job`) whose run is refused (runtime/engine.py, `run_job`).
use mathlib.Core.Option.{some-injective}
use rya.Prelude.{ℕ, String, ◌≡◌, sym, ap, ◌∙◌, ◌≢◌, inl, inr, Bool, ◌⊎◌, Option, some}
use rya.Errors.{Code, Exec, err}
use rya.Store.{Store}
use rya.Store.Docs.{Job, JobState, Run}
use rya.Store.Jobs.{job_id, get_job, claim_due_job}
use rya.Store.Table
use rya.Turns.Start.{TurnSource}
use rya.Jobs.Due.{claim_due_job_lem}
use rya.Jobs.Work.{Ended, Worked, run_job}
use rya.Jobs.Retries.{run_job_lem}

-- A job that does not wait is not what a claim returns.
claimed_waited :
    (now : ℕ) (agent : Option String) (s s' : Store) (i : String) (j k : Job)
    → Table.Unique job_id s.jobs
    → get_job i s ≡ some j
    → j.status ≢ JobState.pending
    → claim_due_job now agent s ≡ (some k, s')
    → k.id ≢ i
unfolding get_job
claimed_waited now agent s s' i j k u e busy q same = elim (claim_due_job_lem now agent s) [
  | inl (x, _) ↦ absurd (cc (x, q))
  | inr (b, due, x, _) ↦
      let k_is : some (record b { status = JobState.claimed }) ≡ some k =
        ap (λ y. y.0) (sym x ∙ q) in
      let b_id : b.id ≡ i = ap job_id (some-injective _ _ k_is) ∙ same in
      let here : Table.get job_id i s.jobs ≡ some b =
        ap (λ y. Table.get job_id y s.jobs) (sym b_id)
        ∙ Table.get_of_Member job_id b s.jobs u due.found in
      let b_j : b ≡ j = some-injective _ _ (sym here ∙ e) in
      busy (sym (ap (λ y. y.status) b_j) ∙ due.waits)
]

-- When `run_job` on a claimed job raises, the handlers' runs leave the stored job alone, the id
-- made for a next job is another, and the job ids of the store that is left are apart, then
-- nothing is written or the job is left as running under the run of the call, and a job that a
-- later `claim_due_job` returns from that store is another one.
pub run_job_refused :
    (handles : String → Bool) (execute : Run → Exec Store Ended) (w : Worked) (source : TurnSource)
    (s s1 s2 : Store) (j k : Job) (c : Code) (now : ℕ) (agent : Option String)
    → ((r : Run) (t : Store) → get_job j.id (execute r t).1 ≡ get_job j.id t)
    → get_job j.id s ≡ some j
    → j.status ≡ JobState.claimed
    → w.next_id ≢ j.id
    → run_job handles execute w source j.id s ≡ (err c, s1)
    → Table.Unique job_id s1.jobs
    → claim_due_job now agent s1 ≡ (some k, s2)
    → ((s1 ≡ s)
        ⊎ (get_job j.id s1
            ≡ some (record j { status = JobState.running; result_run_id = some w.run_id })))
      × (k.id ≢ j.id)
run_job_refused handles execute w source s s1 s2 j k c now agent keeps e claimed n refused u taken =
    elim (run_job_lem handles execute w source j.id s j e n) [
      | inl (d, x) ↦
          let same : s1 ≡ s = ap (λ y. y.1) (sym refused ∙ x) in
          (
            inl same,
            claimed_waited now agent s1 s2 j.id j k u (ap (get_job j.id) same ∙ e)
                (λ q. cc (q, claimed)) taken,
          )
      | inr ran ↦ elim ran.ends [
        | inl (d, t, raised, x) ↦
            let same : s1 ≡ t = ap (λ y. y.1) (sym refused ∙ x) in
            let left : get_job j.id s1
                ≡ some (record j { status = JobState.running; result_run_id = some w.run_id }) =
              ap (get_job j.id) (same ∙ ap (λ y. y.1) (sym raised))
              ∙ (keeps ran.run ran.before ∙ ran.begins) in
            (inr left, claimed_waited now agent s1 s2 j.id _ k u left (λ q. cc q) taken)
        | inr (end, t, q, x, rest) ↦ absurd (cc (x, refused))
      ]
    ]
