-- ===== src/Execution/Served.antt =====
-- Which workers a plan starts (execution/supervisor.py, `plan` and `_spec_for`): only such as can run,
-- and one for all work that one can run.
use rya.Prelude.{
  ℕ, zero, suc, String, ◌≡◌, refl, ◌∙◌, ◌⊎◌, true, false, ◌&&◌, Option, none, some, List, [], ◌∷◌,
  map, Member, All, All-append, str_eq, eq_iff, Bool-cases, inl, inr,
}
use rya.Errors.{Result, ok, err}
use rya.Store.{Store}
use rya.Store.Docs.{Worker, Version}
use rya.Store.Table
use rya.Deployments.Tables.{version_get}
use rya.Deployments.Actions.{is_retired}
use rya.Execution.Scope.{Scope, version, tenant, parse_key, ParsedKey, Claimable, attributed}
use rya.Execution.Fleet.{
  Config, View, Target, target_key, Action, starts, WorkerSpec, Reason, resolve_key, worker_budget,
  group_target, group_targets, warm_target, warm_targets, or_add, targets, spec_at, if_live,
  parsed_spec, spec_for, start_each, start_spec, plan_target, plan_targets, reap_of, plan,
}

module _ (c : Config) (s : Store) where
  -- A version that is stored and not retired, or a working tree where a project is mounted, or a
  -- claimer of the whole workspace.
  abbrev pub IsRunnable : WorkerSpec → Type 0
  IsRunnable p = elim p.version_id [
    | none ↦ (p.scope ≡ tenant) ⊎ ((c.policy.allow_unpinned && c.has_project) ≡ true)
    | some v ↦ (rec : Version) × (version_get v s ≡ some rec) × (is_retired rec ≡ false)
  ]

  abbrev pub Runs : Action → Type 0
  Runs (starts key r p) = IsRunnable p
  Runs _ = Unit

  live-IsRunnable :
      (w : String) (a : Option String) (i : String) (r : Reason) (o : Option Version)
      (q : WorkerSpec)
      → version_get i s ≡ o
      → let k : ParsedKey = record {
        scope = version;
        workspace = w;
        agent = a;
        version_id = some i;
      } in
        if_live c s o (spec_at c s k r) ≡ some q → IsRunnable q
  live-IsRunnable w a i r none q e h = cc
  live-IsRunnable w a i r (some rec) q e h = elim (Bool-cases (is_retired rec)) [
    | inl t ↦ cc (rw t at h)
    | inr f ↦
        let same : spec_at c s
              (record { scope = version; workspace = w; agent = a; version_id = some i }) r
            ≡ q =
          cc (rw f at h) in
        rw (← same) (rec, e, f)
  ]

  key-IsRunnable :
      (k : ParsedKey) (r : Reason) (q : WorkerSpec)
      → parsed_spec c s (ok k) r ≡ some q
      → IsRunnable q
  key-IsRunnable k r q e = by_scope k.scope k.workspace k.agent k.version_id e
    where
      by_scope :
          (sc : Scope) (w : String) (a v : Option String)
          → parsed_spec c s (ok (record { scope = sc; workspace = w; agent = a; version_id = v })) r
            ≡ some q
          → IsRunnable q
      by_scope tenant w a v h =
          let none_named : q.version_id ≡ none = cc h in
          let wide : q.scope ≡ tenant = cc h in rw none_named (inl wide)
      by_scope version w a none h = elim (Bool-cases (c.policy.allow_unpinned && c.has_project)) [
        | inl t ↦
            let made = rw t at h in
            let none_named : q.version_id ≡ none = cc made in rw none_named (inr t)
        | inr f ↦ cc (rw f at h)
      ]
      by_scope version w a (some i) h = live-IsRunnable w a i r (version_get i s) q refl h

  spec_for-IsRunnable :
      (key : String) (r : Reason) (q : WorkerSpec) → spec_for c s key r ≡ some q → IsRunnable q
  unfolding spec_for
  spec_for-IsRunnable key r q h = of_result (parse_key key) h
    where
      of_result : (k : Result ParsedKey) → parsed_spec c s k r ≡ some q → IsRunnable q
      of_result (ok k) e = key-IsRunnable k r q e
      of_result (err x) e = cc

  each-Runs : (n : ℕ) (b : Option ℕ) (a : Action) → Runs a → All Runs (start_each c s n b a).0
  unfolding start_each
  each-Runs zero b a h = tt
  each-Runs (suc n) none a h = (h, each-Runs n none a h)
  each-Runs (suc n) (some zero) a h = tt
  each-Runs (suc n) (some (suc b)) a h = (h, each-Runs n (some b) a h)

  spec-Runs :
      (o : Option WorkerSpec) (n : ℕ) (t : Target) (b : Option ℕ)
      → ((q : WorkerSpec) → o ≡ some q → IsRunnable q)
      → All Runs (start_spec c s o n t b).0
  spec-Runs none n t b h = tt
  spec-Runs (some q) n t b h = each-Runs n b (starts t.key t.reason q) (h q refl)

  targets-Run : (v : View) (ts : List Target) (b : Option ℕ) → All Runs (plan_targets c s v ts b)
  unfolding plan_targets plan_target
  targets-Run v [] b = tt
  targets-Run v (t ∷ ts) b =
      All-append Runs _ _
        (spec-Runs (spec_for c s t.key t.reason) _ t b (spec_for-IsRunnable t.key t.reason))
        (targets-Run v ts _)

  reaps-Run : (ws : List Worker) → All Runs (map (reap_of c s) ws)
  reaps-Run [] = tt
  reaps-Run (w ∷ ws) = (tt, reaps-Run ws)

  -- Every worker that a plan starts can run: its version is stored and not retired, or it has
  -- none and a project is mounted and unpinned workers are allowed, or it serves the whole
  -- workspace.
  pub plan-Runs : (v : View) → All Runs (plan c s v)
  unfolding plan
  plan-Runs v =
      All-append Runs _ _ (reaps-Run v.lost) (targets-Run v (targets c s v) (worker_budget v s))

  -- The target of a group stays in the table of targets.
  abbrev pub Wanted : String → List Target → Type 0
  Wanted k ts = (t : Target) × (Table.get target_key k ts ≡ some t)

  Wanted-save :
      (k : String) (t : Target) (ts : List Target)
      → Wanted k ts
      → Wanted k (Table.save target_key t ts)
  Wanted-save k t ts (u, e) = elim (Bool-cases (str_eq t.key k)) [
    | inl h ↦ (t, Table.get-save target_key k t ts ∙ rw h refl)
    | inr h ↦ (u, Table.get-save target_key k t ts ∙ rw h e)
  ]

  save-Wanted :
      (k : String) (t : Target) (ts : List Target)
      → t.key ≡ k
      → Wanted k (Table.save target_key t ts)
  save-Wanted k t ts e = (t, Table.get-save target_key k t ts ∙ rw ((eq_iff t.key k).1 e) refl)

  groups-keep :
      (k : String) (gs : List Claimable) (ts : List Target)
      → Wanted k ts
      → Wanted k (group_targets c s gs ts)
  unfolding group_targets
  groups-keep k [] ts h = h
  groups-keep k (g ∷ gs) ts h = groups-keep k gs _ (elim (Bool-cases (attributed g)) [
    | inl e ↦ rw e (Wanted-save k (group_target c s g) ts h)
    | inr e ↦ rw e h
  ])

  pub groups-want :
      (g : Claimable) (gs : List Claimable) (ts : List Target)
      → Member g gs
      → attributed g ≡ true
      → Wanted (resolve_key c s g) (group_targets c s gs ts)
  unfolding group_targets
  groups-want g [] ts m e = elim m [ ]
  groups-want g (x ∷ gs) ts (inl q) e =
      rw (← q, e)
        (groups-keep (resolve_key c s g) gs _ (save-Wanted _ (group_target c s g) ts refl))
  groups-want g (x ∷ gs) ts (inr m) e = groups-want g gs _ m e

  or_add-keeps :
      (o : Option Target) (k j : String) (ts : List Target)
      → Wanted k ts
      → Wanted k (or_add c s o (warm_target c s j) ts)
  or_add-keeps none k j ts h = Wanted-save k (warm_target c s j) ts h
  or_add-keeps (some t) k j ts h = h

  pub warm-keep :
      (k : String) (ks : List String) (ts : List Target)
      → Wanted k ts
      → Wanted k (warm_targets c s ks ts)
  unfolding warm_targets
  warm-keep k [] ts h = h
  warm-keep k (j ∷ ks) ts h = warm-keep k ks _ (or_add-keeps (Table.get target_key j ts) k j ts h)
