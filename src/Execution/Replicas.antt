-- ===== src/Execution/Replicas.antt =====
-- How many workers a plan (execution/supervisor.py, `plan`) starts for one key.
use rya.Prelude.{
  ℕ, zero, suc, ◌-◌, ◌≤◌, max, String, ◌≡◌, refl, ap, true, false, Option, none, some, List, [],
  ◌∷◌, map, count_where, count_where-append, All, arith, str_eq, eq_iff, Bool-cases, inl, inr,
  if◌then◌else◌,
}
use rya.Prelude.Sort.{sorted, All-sorted}
use rya.Store.{Store}
use rya.Store.Docs.{Worker}
use rya.Store.Table
use rya.Execution.Scope.{Claimable, Scope, version, tenant}
use rya.Execution.Fleet.{
  Config, View, Target, target_key, Action, starts, WorkerSpec, live_count, replicas, group_target,
  group_targets, warm_target, warm_targets, or_add, prewarm_keys, tenant_targets, targets,
  key_before, spec_for, start_each, start_spec, plan_target, plan_targets, reap_of,
}
use rya.Execution.Spent.{is_start_of, started_for}

module _ (c : Config) (s : Store) where
  -- No more are started for a key than its target misses, and none for another key.
  each-within :
      (k : String) (n : ℕ) (b : Option ℕ) (a : Action)
      → count_where (is_start_of k) (start_each c s n b a).0 ≤ (if is_start_of k a then n else 0)
  unfolding start_each
  each-within k zero b a = ground arith
  each-within k (suc n) none a = ground (arith, each-within k n none a)
  each-within k (suc n) (some zero) a = ground arith
  each-within k (suc n) (some (suc b)) a = ground (arith, each-within k n (some b) a)

  spec-within :
      (k : String) (o : Option WorkerSpec) (n : ℕ) (t : Target) (b : Option ℕ)
      → count_where (is_start_of k) (start_spec c s o n t b).0 ≤ (if str_eq t.key k then n else 0)
  spec-within k none n t b = ground arith
  spec-within k (some p) n t b = each-within k n b (starts t.key t.reason p)

  abbrev OtherKey : String → Target → Type 0
  OtherKey k t = str_eq t.key k ≡ false

  others-none :
      (k : String) (v : View) (ts : List Target) (b : Option ℕ)
      → All (OtherKey k) ts
      → count_where (is_start_of k) (plan_targets c s v ts b) ≡ 0
  unfolding plan_targets plan_target
  others-none k v [] b h = refl
  others-none k v (t ∷ ts) b h =
      let o = spec_for c s t.key t.reason in
      let n = t.want - live_count t.key v in
      let p = start_spec c s o n t b in
      ground (
        arith,
        h.0,
        count_where-append (is_start_of k) p.0 (plan_targets c s v ts p.1),
        spec-within k o n t b,
        others-none k v ts p.1 h.1,
      )

  other_keys :
      (k : String) (t : Target) (ts : List Target)
      → str_eq t.key k ≡ true
      → All (λ u. str_eq (target_key u) (target_key t) ≡ false) ts
      → All (OtherKey k) ts
  other_keys k t [] e h = tt
  other_keys k t (u ∷ ts) e h = (
    ground (arith, h.0, eq_iff t.key k, eq_iff u.key t.key, eq_iff u.key k),
    other_keys k t ts e h.1,
  )

  abbrev pub Wants : ℕ → Target → Type 0
  Wants m t = t.want ≤ m

  pub key-within :
      (m : ℕ) (k : String) (v : View) (ts : List Target) (b : Option ℕ)
      → Table.Unique target_key ts
      → All (Wants m) ts
      → started_for k (plan_targets c s v ts b) ≤ m - live_count k v
  unfolding started_for plan_targets plan_target
  key-within m k v [] b u h = omega arith
  key-within m k v (t ∷ ts) b u h =
      let o = spec_for c s t.key t.reason in
      let n = t.want - live_count t.key v in
      let p = start_spec c s o n t b in
      let total = count_where-append (is_start_of k) p.0 (plan_targets c s v ts p.1) in
      elim (Bool-cases (str_eq t.key k)) [
        | inl e ↦
            let same = (eq_iff t.key k).0 e in
            ground (
              arith,
              total,
              e,
              h.0,
              ap (λ x. live_count x v) same,
              spec-within k o n t b,
              others-none k v ts p.1 (other_keys k t ts e u.0),
            )
        | inr e ↦ ground (arith, total, e, spec-within k o n t b, key-within m k v ts p.1 u.1 h.1)
      ]

  abbrev pub IsPlanned : List Target → Type 0
  IsPlanned ts = Table.Unique target_key ts × All (Wants (max 1 c.policy.max_replicas_per_key)) ts

  IsPlanned-save :
      (t : Target) (ts : List Target)
      → Wants (max 1 c.policy.max_replicas_per_key) t
      → IsPlanned ts
      → IsPlanned (Table.save target_key t ts)
  IsPlanned-save t ts w h = (
    Table.Unique-save target_key t ts h.0,
    Table.All-save target_key (Wants (max 1 c.policy.max_replicas_per_key)) t ts w h.1,
  )

  group_targets-IsPlanned :
      (gs : List Claimable) (ts : List Target) → IsPlanned ts → IsPlanned (group_targets c s gs ts)
  unfolding group_targets replicas
  group_targets-IsPlanned [] ts h = h
  group_targets-IsPlanned (g ∷ gs) ts h =
      group_targets-IsPlanned gs _
        (ground (arith, h, IsPlanned-save (group_target c s g) ts (omega arith) h))

  or_add-IsPlanned :
      (o : Option Target) (k : String) (ts : List Target)
      → IsPlanned ts
      → IsPlanned (or_add c s o (warm_target c s k) ts)
  or_add-IsPlanned none k ts h = IsPlanned-save (warm_target c s k) ts (omega arith) h
  or_add-IsPlanned (some t) k ts h = h

  warm_targets-IsPlanned :
      (ks : List String) (ts : List Target) → IsPlanned ts → IsPlanned (warm_targets c s ks ts)
  unfolding warm_targets
  warm_targets-IsPlanned [] ts h = h
  warm_targets-IsPlanned (k ∷ ks) ts h =
      warm_targets-IsPlanned ks _ (or_add-IsPlanned (Table.get target_key k ts) k ts h)

  tenant_targets-IsPlanned : (v : View) → IsPlanned (tenant_targets c s v)
  unfolding tenant_targets replicas
  tenant_targets-IsPlanned v = ground arith

  pub targets-IsPlanned : (v : View) → IsPlanned (targets c s v)
  unfolding targets
  targets-IsPlanned v = by_scope c.scope
    where
      by_scope :
          (sc : Scope)
          → IsPlanned (elim sc [
            | tenant ↦ tenant_targets c s v
            | version ↦ sorted key_before (
                warm_targets c s
                  (prewarm_keys c s s.environments)
                  (group_targets c s v.claimable []))
          ])
      by_scope tenant = tenant_targets-IsPlanned v
      by_scope version =
          let h =
            warm_targets-IsPlanned (prewarm_keys c s s.environments) _
              (group_targets-IsPlanned v.claimable [] (tt, tt)) in
          (
            Table.Unique-sorted target_key key_before _ h.0,
            All-sorted key_before (Wants (max 1 c.policy.max_replicas_per_key)) _ h.1,
          )

  pub no_starts_for :
      (k : String) (ws : List Worker) → count_where (is_start_of k) (map (reap_of c s) ws) ≡ 0
  no_starts_for k [] = refl
  no_starts_for k (w ∷ ws) = no_starts_for k ws
