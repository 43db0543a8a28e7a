-- ===== src/Execution/Spent.antt =====
-- What a plan (execution/supervisor.py, `plan`) takes from the budget of workers.
use rya.Prelude.{
  ℕ, zero, suc, ◌+◌, ◌-◌, ◌≤◌, String, ◌≡◌, refl, ap, Bool, true, false, Option, none, some, List,
  [], ◌∷◌, map, count_where, count_where-append, arith, str_eq,
}
use rya.Store.{Store}
use rya.Store.Docs.{Worker}
use rya.Execution.Fleet.{
  Config, View, Target, Action, starts, WorkerSpec, live_count, spec_for, start_each, start_spec,
  plan_target, plan_targets, reap_of,
}

abbrev pub is_start : Action → Bool
is_start (starts k r p) = true
is_start _ = false

abbrev pub is_start_of : String → Action → Bool
is_start_of key (starts k r p) = str_eq k key
is_start_of key _ = false

-- the workers that a plan starts, and those of one key
unfoldable pub started : List Action → ℕ
started acts = count_where is_start acts

unfoldable pub started_for : String → List Action → ℕ
started_for key acts = count_where (is_start_of key) acts

module _ (c : Config) (s : Store) where
  -- The budget that is left pays for what comes later.
  spent :
      (n b : ℕ) (a : Action)
      → (b' : ℕ) × ((start_each c s n (some b) a).1 ≡ some b')
        × (count_where is_start (start_each c s n (some b) a).0 + b' ≤ b)
  unfolding start_each
  spent zero b a = (b, refl, omega arith)
  spent (suc n) zero a = (0, refl, omega arith)
  spent (suc n) (suc b) a = let (b', e, h) = spent n b a in (b', e, ground arith)

  spec_spent :
      (o : Option WorkerSpec) (n b : ℕ) (t : Target)
      → (b' : ℕ) × ((start_spec c s o n t (some b)).1 ≡ some b')
        × (count_where is_start (start_spec c s o n t (some b)).0 + b' ≤ b)
  spec_spent none n b t = (b, refl, omega arith)
  spec_spent (some p) n b t = spent n b (starts t.key t.reason p)

  pub targets-within :
      (v : View) (ts : List Target) (b : ℕ) → started (plan_targets c s v ts (some b)) ≤ b
  unfolding started plan_targets plan_target
  targets-within v [] b = omega arith
  targets-within v (t ∷ ts) b =
      let o = spec_for c s t.key t.reason in
      let n = t.want - live_count t.key v in
      let (b', e, h) = spec_spent o n b t in
      let first = (start_spec c s o n t (some b)).0 in
      ground (
        arith,
        count_where-append is_start first (plan_targets c s v ts (start_spec c s o n t (some b)).1),
        ap (plan_targets c s v ts) e,
        targets-within v ts b',
      )

  pub no_starts : (ws : List Worker) → count_where is_start (map (reap_of c s) ws) ≡ 0
  no_starts [] = refl
  no_starts (w ∷ ws) = no_starts ws
