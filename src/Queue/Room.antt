-- ===== src/Queue/Room.antt =====
-- The room that the quota leaves for the jobs of `enqueue_batch` (queue.py).
use rya.Prelude.{
  ℕ, suc, ◌+◌, ◌-◌, ◌<◌, ◌≤◌, ◌≡◌, refl, true, Option, none, some, List, [], ◌∷◌, arith,
}
use rya.Errors.{ok}
use rya.Store.{Store}
use rya.Store.Docs.{QueueJob, pending}
use rya.Store.Table
use rya.Store.Queue.{job_id, stamp, queue_save, queue_count}
use rya.Store.Reads.{policy_get, tokens_since, cost_since}
use rya.Orgs.{org_violations}
use rya.Purge.{Lifecycle, lifecycle, is_active}
use rya.Quotas.Policy.{
  concurrent_runs, runs_today, queue_depth, tokens_today, cost_today, workers, QuotaPolicy,
  limit_of, resolve_quota,
}
use rya.Quotas.Admission.{
  job, applies_to, Verdict, consumption, usage_for, day_start, verdict_of, check_admission,
  require_admission,
}
use rya.Quotas.Cases.{IsAdmitted, admits}
use rya.Quotas.Exact.{Under, HasRoom, verdict_exact, admitted-Under}
use rya.Queue.Enqueue.{batch_usage}

save_one_more :
    (k : QueueJob) (t : List QueueJob)
    → queue_count pending (Table.save job_id k t) ≤ suc (queue_count pending t)
unfolding queue_count Table.save
save_one_more k [] = ground arith
save_one_more k (x ∷ xs) = ground (arith, save_one_more k xs)

abbrev pub AtMost : ℕ → Option ℕ → Type 0
AtMost n none = Unit
AtMost n (some limit) = n ≤ limit

AtMost-of_Under : (d n : ℕ) (l : Option ℕ) → Under (d + (n - 1)) l → AtMost (d + n) l
AtMost-of_Under d n none u = tt
AtMost-of_Under d n (some l) u = omega arith

-- The workspace is active, and its quota leaves room for `n` more jobs.
pub record RoomFor (n now : ℕ) (p : QuotaPolicy) (s : Store) : Type 0 where
  pub lives : Lifecycle
  pub state : lifecycle s ≡ ok lives
  pub active : is_active lives ≡ true
  pub quota : resolve_quota s ≡ ok p
  pub depth : AtMost (queue_count pending s.queue + n) p.max_queue_depth
  pub tokens : Under (tokens_since (day_start now) s.meter) p.max_tokens_per_day
  pub cost : Under (cost_since (day_start now) s.meter) p.max_cost_per_day
  pub org : org_violations s ≡ []

module _ (now : ℕ) (p : QuotaPolicy) (s : Store) where
  AtMost-mono : (a b : ℕ) (l : Option ℕ) → a ≤ b → AtMost b l → AtMost a l
  AtMost-mono a b none h u = tt
  AtMost-mono a b (some l) h u = omega arith

  Under-of_AtMost : (a b : ℕ) (l : Option ℕ) → a < b → AtMost b l → Under a l
  Under-of_AtMost a b none h u = tt
  Under-of_AtMost a b (some l) h u = omega arith

  room-HasRoom : (n : ℕ) → RoomFor (suc n) now p s → HasRoom p job (consumption now s)
  unfolding consumption limit_of applies_to
  room-HasRoom n h concurrent_runs a = cc
  room-HasRoom n h runs_today a = cc
  room-HasRoom n h queue_depth a = Under-of_AtMost _ _ p.max_queue_depth (omega arith) h.depth
  room-HasRoom n h tokens_today a = h.tokens
  room-HasRoom n h cost_today a = h.cost
  room-HasRoom n h workers a = cc

  -- So a new job is admitted.
  pub room_admits :
      (n : ℕ)
      → RoomFor (suc n) now p s
      → require_admission job none now s ≡ (ok (verdict_of p job none now s), s)
  unfolding check_admission
  room_admits n h =
      admits job none now s h.lives (verdict_of p job none now s) h.state h.active
        (rw (h.quota, check_admission)) ((verdict_exact p job now s).1 (room-HasRoom n h, h.org))

  -- A job more takes one place.
  pub put_room :
      (n : ℕ) (j : QueueJob)
      → RoomFor (suc n) now p s
      → RoomFor n now p (record s { queue = queue_save now j s.queue })
  unfolding lifecycle policy_get resolve_quota org_violations
  put_room n j h = record {
    lives = h.lives;
    state = h.state;
    active = h.active;
    quota = h.quota;
    depth =
        AtMost-mono _ _ p.max_queue_depth (omega (arith, save_one_more (stamp now j) s.queue))
          h.depth;
    tokens = h.tokens;
    cost = h.cost;
    org = h.org;
  }

  pub keep_room : (n : ℕ) → RoomFor (suc n) now p s → RoomFor n now p s
  keep_room n h = record {
    lives = h.lives;
    state = h.state;
    active = h.active;
    quota = h.quota;
    depth = AtMost-mono _ _ p.max_queue_depth (omega arith) h.depth;
    tokens = h.tokens;
    cost = h.cost;
    org = h.org;
  }

-- The room that an admitted charge leaves.
pub charged_room :
    (n now : ℕ) (s : Store) (v : Verdict)
    → IsAdmitted job (some (batch_usage now n s)) now s v
    → (p : QuotaPolicy) × RoomFor n now p s
unfolding batch_usage usage_for consumption limit_of applies_to
charged_room n now s v h =
    let (l, state, active) = h.lives in
    let (p, quota, under, org) =
      admitted-Under job (some (batch_usage now n s)) now s v h.checked h.allowed in
    (
      p,
      record {
        lives = l;
        state = state;
        active = active;
        quota = quota;
        depth = AtMost-of_Under _ n p.max_queue_depth (under queue_depth refl);
        tokens = under tokens_today refl;
        cost = under cost_today refl;
        org = org;
      },
    )
