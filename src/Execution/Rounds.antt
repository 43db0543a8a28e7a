-- ===== src/Execution/Rounds.antt =====
-- execution/scope.py and worker.py: a claimer that serves the groups of its workspace in turn.
use rya.Prelude.{
  ℕ, zero, suc, ◌+◌, ◌-◌, max, String, Bool, true, false, not, ◌&&◌, ◌||◌, Option, List, [], ◌∷◌,
  ◌++◌, map, keep, length, ltb, ◌==◌, str_eq, if◌then◌else◌,
}
use rya.Prelude.Sort.{sorted}
use rya.Store.{Store}
use rya.Execution.Scope.{Claimable, attributed, group_key}
use rya.Execution.Peek.{any_where}
use rya.Execution.Fleet.{resolve_version}

-- FairOrder: the dispatches served for each key
abbrev pub FairOrder : Type 0
FairOrder = List (String × ℕ)

-- `self._served.get(key, 0)`
unfoldable pub served_of : String → FairOrder → ℕ
served_of k [] = 0
served_of k ((j, n) ∷ d) = if str_eq j k then n else served_of k d

-- served
unfoldable pub mark_served : String → ℕ → FairOrder → FairOrder
mark_served k n [] = (k, n) ∷ []
mark_served k n ((j, m) ∷ d) = if str_eq j k then (j, m + n) ∷ d else (j, m) ∷ mark_served k n d

abbrev pub enumerated : ℕ → List Claimable → List (ℕ × Claimable)
enumerated i [] = []
enumerated i (g ∷ gs) = (i, g) ∷ enumerated (suc i) gs

-- the sort key of `order`: the dispatches served, then the position
unfoldable pub rank_before : FairOrder → ℕ × Claimable → ℕ × Claimable → Bool
unfolding group_key
rank_before d (i, g) (j, h) =
    let a = served_of (group_key g) d in
    let b = served_of (group_key h) d in ltb a b || (a == b && ltb i j)

abbrev pub group_of : ℕ × Claimable → Claimable
group_of (i, g) = g

-- order
unfoldable pub order : FairOrder → List Claimable → List Claimable
unfolding rank_before
order d groups = map group_of (sorted (rank_before d) (enumerated 0 groups))

-- What a fork of a template reports, or the error of the template; the number counts items.
pub data Outcome : Type 0 where
  failed : Outcome
  drained : ℕ → Outcome

abbrev pub open_to : List String → Claimable → Bool
open_to exhausted g = not (any_where (str_eq (group_key g)) exhausted)

-- `ready`
unfoldable pub ready : FairOrder → List String → List Claimable → List Claimable
unfolding order
ready d exhausted candidates = keep (open_to exhausted) (order d candidates)

-- What the loop of `_drain_tenant` carries; `world` is all that a fork may change.
pub record Drain (W : Type 0) : Type 0 where
  pub fair : FairOrder
  pub exhausted : List String
  pub served : List String
  pub errors : List String
  pub budget : ℕ
  pub world : W

abbrev pub retired : {W : Type 0} → String → Drain W → Drain W
retired k d = record d { exhausted = k ∷ d.exhausted }

-- what follows the fork of one group
unfoldable pub after_fork : {W : Type 0} → String → Outcome → Drain W → Drain W
after_fork k failed d = retired k (record d { errors = d.errors ++ k ∷ [] })
after_fork k (drained zero) d = retired k d
after_fork k (drained (suc n)) d = record d {
  served = d.served ++ k ∷ [];
  budget = d.budget - suc n;
}

-- `template_for` and `drain`, for a group and the version that serves it
module _ {W : Type 0} (fork : Claimable → Option String → W → Outcome × W) (store_of : W → Store)
    (environment : Option String) (candidates : List Claimable) where
  -- one round of the loop
  unfoldable pub serve_group : Claimable → Drain W → Drain W
  unfolding mark_served after_fork resolve_version
  serve_group g d =
      let (out, w) = fork g (resolve_version environment g (store_of d.world)) d.world in
      after_fork (group_key g) out
        (record d { fair = mark_served (group_key g) 1 d.fair; world = w })

  -- the loop; the number counts the rounds of its `range` that are left
  unfoldable pub drain_loop : ℕ → Drain W → Drain W
  unfolding serve_group ready
  drain_loop zero d = d
  drain_loop (suc n) d = elim (d.budget == 0) [
    | true ↦ d
    | false ↦ elim (ready d.fair d.exhausted candidates) [
      | [] ↦ d
      | g ∷ rest ↦ drain_loop n (serve_group g d)
    ]
  ]

-- `[g for g in groups if g.attributed]`
abbrev pub candidates_of : List Claimable → List Claimable
candidates_of groups = keep attributed groups

abbrev pub drain_start : {W : Type 0} → FairOrder → ℕ → W → Drain W
drain_start fair limit w = record {
  fair = fair;
  exhausted = [];
  served = [];
  errors = [];
  budget = max 1 limit;
  world = w;
}

-- _drain_tenant, behind its `peek`
unfoldable pub drain_tenant :
    {W : Type 0}
    → (Claimable → Option String → W → Outcome × W)
    → (W → Store)
    → Option String
    → List Claimable
    → FairOrder
    → ℕ
    → W
    → Drain W
unfolding drain_loop
drain_tenant fork store_of environment groups fair limit w =
    let candidates = candidates_of groups in
    drain_loop fork store_of environment candidates (max 1 limit + length candidates + 1)
      (drain_start fair limit w)
