-- ===== src/Queue/Reap.antt =====
-- `queue_reap` (store.py): no lease that has run out survives it.
use rya.Prelude.{
  ℕ, String, ◌≡◌, refl, sym, ap, ◌∙◌, ◌⊎◌, inl, inr, false, ◌&&◌, some, List, [], ◌∷◌, arith,
  Member, str_eq, eq_iff, Bool-cases, All-Member, if◌then◌else◌,
}
use rya.Store.Docs.{QueueJob, running}
use rya.Store.Queue.{
  job_id, stamp, queue_save, queue_get, same_status, lease_expired, reap_job, reap_each, queue_list,
  queue_reap, dispatch_before,
}
use rya.Store.Table
use rya.Queue.Life.{expires}
use rya.Queue.Listing.{same_status-eq, Member-of_queue_list, Member-queue_list}
use rya.Queue.Tables.{
  IsTable, Evolves, Evolves-refl, Evolves-trans, queue_save-IsTable, Change-Evolves,
  queue_get_of_Member, queue_get-save_ne,
}

-- Not running, or under a lease that still holds.
abbrev pub IsLive : ℕ → QueueJob → Type 0
IsLive now j = (same_status j.status running && lease_expired now j) ≡ false

reaped-id : (now : ℕ) (j : QueueJob) → (reap_job now j).id ≡ j.id
unfolding reap_job
reaped-id now j = ground arith

unexpired : (now : ℕ) (j : QueueJob) → lease_expired now j ≡ false → IsLive now j
unexpired now j e = ground arith

reaped-IsLive : (now : ℕ) (j : QueueJob) → IsLive now (stamp now (reap_job now j))
unfolding reap_job
reaped-IsLive now j = ground arith

-- The jobs of the listing that are still to come: each is stored as it was listed, and runs.
abbrev Listed : List QueueJob → List QueueJob → Type 0
Listed js t = (j : QueueJob) → Member j js → (queue_get j.id t ≡ some j) × (j.status ≡ running)

-- One round of the loop.
abbrev round : ℕ → QueueJob → List QueueJob → List QueueJob
round now j t = if lease_expired now j then queue_save now (reap_job now j) t else t

module _ (now : ℕ) where
  round-IsTable : (j : QueueJob) (t : List QueueJob) → IsTable t → IsTable (round now j t)
  round-IsTable j t u = elim (Bool-cases (lease_expired now j)) [
    | inl e ↦ rw e (queue_save-IsTable now (reap_job now j) t u)
    | inr e ↦ rw e u
  ]

  round-Evolves :
      (j : QueueJob) (t : List QueueJob)
      → queue_get j.id t ≡ some j
      → j.status ≡ running
      → Evolves t (round now j t)
  round-Evolves j t stored runs = elim (Bool-cases (lease_expired now j)) [
    | inl e ↦ rw e (
        Change-Evolves now (reap_job now j) t j (rw (reaped-id now j) stored)
          (expires now runs refl))
    | inr e ↦ rw e (Evolves-refl t)
  ]

  round_ne :
      (j : QueueJob) (t : List QueueJob) (i : String)
      → str_eq i j.id ≡ false
      → queue_get i (round now j t) ≡ queue_get i t
  round_ne j t i n = elim (Bool-cases (lease_expired now j)) [
    | inl e ↦ rw e (
        queue_get-save_ne i now (reap_job now j) t
          (λ q. cc ((eq_iff i j.id).1 (sym q ∙ reaped-id now j))))
    | inr e ↦ rw e
  ]

  Listed-round :
      (j : QueueJob) (js t : List QueueJob)
      → Table.Unique job_id (j ∷ js)
      → Listed (j ∷ js) t
      → Listed js (round now j t)
  Listed-round j js t u l k m =
      let (stored, runs) = l k (inr m) in
      (round_ne j t k.id (All-Member _ k js u.0 m) ∙ stored, runs)

  pub reap_each-IsTable : (js t : List QueueJob) → IsTable t → IsTable (reap_each now js t)
  unfolding reap_each
  reap_each-IsTable [] t u = u
  reap_each-IsTable (j ∷ js) t u = reap_each-IsTable js (round now j t) (round-IsTable j t u)

  reap_each-Evolves :
      (js t : List QueueJob) → Table.Unique job_id js → Listed js t → Evolves t (reap_each now js t)
  unfolding reap_each
  reap_each-Evolves [] t u l = Evolves-refl t
  reap_each-Evolves (j ∷ js) t u l =
      let (stored, runs) = l j (inl refl) in
      Evolves-trans t (round now j t) _ (round-Evolves j t stored runs)
        (reap_each-Evolves js (round now j t) u.1 (Listed-round j js t u l))

  -- A job is live, or the loop has still to come to it.
  abbrev Covered : List QueueJob → List QueueJob → Type 0
  Covered js t = (k : QueueJob) → Member k t → IsLive now k ⊎ Member k js

  round-Covered :
      (j : QueueJob) (js t : List QueueJob)
      → IsTable t
      → Covered (j ∷ js) t
      → Covered js (round now j t)
  round-Covered j js t u c k m = elim (Bool-cases (lease_expired now j)) [
    | inl e ↦ elim (Table.Member-save job_id (stamp now (reap_job now j)) k t u (rw e at m)) [
      | inl q ↦ inl (rw q (reaped-IsLive now j))
      | inr (old, n) ↦ elim (c k old) [
        | inl live ↦ inl live
        | inr (inl q) ↦ absurd (n (ap job_id q ∙ sym (reaped-id now j)))
        | inr (inr later) ↦ inr later
      ]
    ]
    | inr e ↦ elim (c k (rw e at m)) [
      | inl live ↦ inl live
      | inr (inl q) ↦ inl (rw q (unexpired now j e))
      | inr (inr later) ↦ inr later
    ]
  ]

  reap_each-IsLive :
      (js t : List QueueJob)
      → IsTable t
      → Covered js t
      → (k : QueueJob) → Member k (reap_each now js t)
      → IsLive now k
  unfolding reap_each
  reap_each-IsLive [] t u c k m = elim (c k m) [ inl live ↦ live | inr n ↦ absurd n ]
  reap_each-IsLive (j ∷ js) t u c k m =
      reap_each-IsLive js (round now j t) (round-IsTable j t u) (round-Covered j js t u c) k m

  module _ (t : List QueueJob) (u : IsTable t) where
    pub queue_reap-IsTable : IsTable (queue_reap now t)
    unfolding queue_reap
    queue_reap-IsTable = reap_each-IsTable (queue_list running t) t u

    pub queue_reap-Evolves : Evolves t (queue_reap now t)
    unfolding queue_reap queue_list
    queue_reap-Evolves =
        reap_each-Evolves (queue_list running t) t
          (Table.Unique-sorted job_id dispatch_before _ (Table.Unique-keep job_id _ t u))
          λ j m.
            let (found, runs) = Member-of_queue_list running j t m in
            (queue_get_of_Member j t u found, runs)

    starts-Covered : Covered (queue_list running t) t
    starts-Covered k m = elim (Bool-cases (same_status k.status running)) [
      | inl e ↦ inr (Member-queue_list running k t m (same_status-eq k.status running e))
      | inr e ↦ inl (rw e)
    ]

    -- After a reap of a queue whose ids are apart, no running job is under a lease that has run
    -- out.
    pub queue_reap-IsLive : (k : QueueJob) → Member k (queue_reap now t) → IsLive now k
    unfolding queue_reap
    queue_reap-IsLive = reap_each-IsLive (queue_list running t) t u starts-Covered
