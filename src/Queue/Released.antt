-- ===== src/Queue/Released.antt =====
-- The jobs that `claim` hands back (queue.py): `release_all`, and the attempt that is refunded.
use rya.Prelude.{
  ℕ, String, ◌≡◌, refl, sym, ◌∙◌, ◌≢◌, inl, inr, some, List, [], ◌∷◌, arith, Member, All-Member,
  eq_iff,
}
use rya.Store.Docs.{QueueJob, pending, running}
use rya.Store.Queue.{job_id, stamp, queue_save, queue_get, start_job}
use rya.Store.Table
use rya.Queue.Claim.{release_job, release_all}
use rya.Queue.Life.{returns}
use rya.Queue.Valid.{IsValid}
use rya.Queue.Tables.{
  IsTable, Evolves, Evolves-refl, Evolves-trans, Change-Evolves, queue_save-IsTable,
  queue_get-save_self, queue_get-save_ne,
}

released-id : (j : QueueJob) → (release_job j).id ≡ j.id
unfolding release_job
released-id j = refl

module _ (now : ℕ) where
  pub release_all-IsTable : (rs t : List QueueJob) → IsTable t → IsTable (release_all now rs t)
  unfolding release_all
  release_all-IsTable [] t u = u
  release_all-IsTable (r ∷ rs) t u =
      release_all-IsTable rs _ (queue_save-IsTable now (release_job r) t u)

  -- A job that is not handed back stays as it is.
  pub get-release_all_ne :
      (rs t : List QueueJob) (i : String)
      → ((r : QueueJob) → Member r rs → r.id ≢ i)
      → queue_get i (release_all now rs t) ≡ queue_get i t
  unfolding release_all
  get-release_all_ne [] t i n = refl
  get-release_all_ne (r ∷ rs) t i n =
      get-release_all_ne rs _ i (λ k m. n k (inr m))
      ∙ queue_get-save_ne i now (release_job r) t (λ e. n r (inl refl) (sym (released-id r) ∙ e))

  -- Each one that is handed back waits again.
  pub get-release_all :
      (rs t : List QueueJob) (r : QueueJob)
      → Table.Unique job_id rs
      → Member r rs
      → queue_get r.id (release_all now rs t) ≡ some (stamp now (release_job r))
  unfolding release_all
  get-release_all [] t r u m = elim m [ ]
  get-release_all (k ∷ rs) t r u (inr m) = get-release_all rs _ r u.1 m
  get-release_all (k ∷ rs) t r u (inl e) = rw e (
      get-release_all_ne rs _ k.id (λ y m q. cc (All-Member _ y rs u.0 m, (eq_iff y.id k.id).1 q))
      ∙ queue_get-save_self k.id now (release_job k) t (released-id k))

  pub release_all-Evolves :
      (rs t : List QueueJob)
      → Table.Unique job_id rs
      → ((r : QueueJob) → Member r rs → (queue_get r.id t ≡ some r) × (r.status ≡ running))
      → Evolves t (release_all now rs t)
  unfolding release_all
  release_all-Evolves [] t u h = Evolves-refl t
  release_all-Evolves (r ∷ rs) t u h =
      let (stored, runs) = h r (inl refl) in
      Evolves-trans t (queue_save now (release_job r) t) _
        (Change-Evolves now (release_job r) t r (rw (released-id r) stored) (returns now runs refl))
        (release_all-Evolves rs _ u.1 (λ k m. (
          queue_get-save_ne k.id now (release_job r) t
                (λ e. cc (All-Member _ k rs u.0 m, (eq_iff k.id r.id).1 (sym e ∙ released-id r)))
              ∙ (h k (inr m)).0,
          (h k (inr m)).1,
        )))

-- The job as it was, but for the time of its first start and the time of the last write.
pub record IsRefunded (j k : QueueJob) : Type 0 where
  pub same : k ≡ record j { started_at = k.started_at; updated_at = k.updated_at }

pub refund :
    (worker : String) (now lease : ℕ) (j : QueueJob)
    → j.status ≡ pending
    → IsValid j
    → IsRefunded j (stamp now (release_job (stamp now (start_job worker now lease j))))
unfolding release_job start_job
refund worker now lease j e v = record { same = ground arith }
