-- ===== src/Execution/Drained.antt =====
-- A drain of a workspace (worker.py, `_drain_tenant`) ends when its work does.
use rya.Prelude.{
  ℕ, zero, suc, ◌+◌, ◌≤◌, ◌<◌, max, String, ◌≡◌, refl, ap, ◌⊎◌, inl, inr, Bool, true, false, Option,
  List, [], ◌∷◌, map, length, count_where, Member, Member-keep, arith, ◌==◌, eq_iff,
}
use rya.Prelude.Sort.{Member-of_sorted}
use rya.Store.{Store}
use rya.Execution.Scope.{Claimable, group_key}
use rya.Execution.Fleet.{resolve_version}
use rya.Execution.Rounds.{
  FairOrder, enumerated, rank_before, group_of, order, Outcome, failed, drained, open_to, ready,
  Drain, after_fork, serve_group, drain_loop, candidates_of, drain_start, drain_tenant, mark_served,
}

Member-of_enumerated :
    (n i : ℕ) (g : Claimable) (gs : List Claimable) → Member (i, g) (enumerated n gs) → Member g gs
Member-of_enumerated n i g [] m = elim m [ ]
Member-of_enumerated n i g (x ∷ gs) (inl e) = inl (ap group_of e)
Member-of_enumerated n i g (x ∷ gs) (inr m) = inr (Member-of_enumerated (suc n) i g gs m)

Member-of_map :
    (g : Claimable) (rs : List (ℕ × Claimable))
    → Member g (map group_of rs)
    → (i : ℕ) × Member (i, g) rs
Member-of_map g [] m = elim m [ ]
Member-of_map g ((i, x) ∷ rs) (inl e) = (i, inl (ap (λ y. (i, y)) e))
Member-of_map g ((i, x) ∷ rs) (inr m) = let (j, n) = Member-of_map g rs m in (j, inr n)

-- A group that is ready is a candidate that the drain has not given up.
pub Member-of_ready :
    (d : FairOrder) (ex : List String) (g : Claimable) (gs : List Claimable)
    → Member g (ready d ex gs)
    → Member g gs × (open_to ex g ≡ true)
unfolding ready order
Member-of_ready d ex g gs m =
    let (n, e) = Member-keep (open_to ex) g (order d gs) m in
    let (i, r) = Member-of_map g _ n in
    (Member-of_enumerated 0 i g gs (Member-of_sorted (rank_before d) (i, g) (enumerated 0 gs) r), e)

-- Fewer drained pass a stricter test that an item fails.
count_where_mono :
    {A : Type 0} (p q : A → Bool) (xs : List A)
    → ((x : A) → q x ≡ true → p x ≡ true)
    → count_where q xs ≤ count_where p xs
count_where_mono p q [] h = omega arith
count_where_mono p q (x ∷ xs) h = ground (arith, count_where_mono p q xs h, h x)

count_where_lt :
    {A : Type 0} (p q : A → Bool) (g : A) (xs : List A)
    → ((x : A) → q x ≡ true → p x ≡ true)
    → Member g xs
    → p g ≡ true
    → q g ≡ false
    → count_where q xs < count_where p xs
count_where_lt p q g [] h m e f = elim m [ ]
count_where_lt p q g (x ∷ xs) h (inl s) e f =
    ground (arith, count_where_mono p q xs h, h x, ap p s, ap q s)
count_where_lt p q g (x ∷ xs) h (inr m) e f = ground (arith, count_where_lt p q g xs h m e f, h x)

length-count : {A : Type 0} (p : A → Bool) (xs : List A) → count_where p xs ≤ length xs
length-count p [] = omega arith
length-count p (x ∷ xs) = ground (arith, length-count p xs)

module _ {W : Type 0} (fork : Claimable → Option String → W → Outcome × W) (store_of : W → Store)
    (environment : Option String) (candidates : List Claimable) where
  -- what is left to do: the budget, and the groups that are not given up
  abbrev remaining : Drain W → ℕ
  remaining d = d.budget + count_where (open_to d.exhausted) candidates

  -- Nothing is left of the budget, or no group is ready.
  abbrev pub IsFinished : Drain W → Type 0
  IsFinished d = (d.budget ≡ 0) ⊎ (ready d.fair d.exhausted candidates ≡ [])

  gives_up :
      (g : Claimable) (ex : List String)
      → Member g candidates
      → open_to ex g ≡ true
      → count_where (open_to (group_key g ∷ ex)) candidates < count_where (open_to ex) candidates
  gives_up g ex m e =
      count_where_lt (open_to ex) (open_to (group_key g ∷ ex)) g candidates (λ x h. ground (arith))
        m e (ground (arith, eq_iff (group_key g) (group_key g)))

  after_fork-lt :
      (g : Claimable) (out : Outcome) (d : Drain W)
      → 0 < d.budget
      → Member g candidates
      → open_to d.exhausted g ≡ true
      → remaining (after_fork (group_key g) out d) < remaining d
  unfolding after_fork
  after_fork-lt g failed d b m e = omega (arith, gives_up g d.exhausted m e)
  after_fork-lt g (drained zero) d b m e = omega (arith, gives_up g d.exhausted m e)
  after_fork-lt g (drained (suc n)) d b m e = omega arith

  serve_group-lt :
      (g : Claimable) (d : Drain W)
      → 0 < d.budget
      → Member g candidates
      → open_to d.exhausted g ≡ true
      → remaining (serve_group fork store_of environment candidates g d) < remaining d
  unfolding serve_group
  serve_group-lt g d b m e =
      let (out, w) = fork g (resolve_version environment g (store_of d.world)) d.world in
      after_fork-lt g out (record d { fair = mark_served (group_key g) 1 d.fair; world = w }) b m e

  -- As many rounds as there is left to do are enough.
  loop-IsFinished :
      (n : ℕ) (d : Drain W)
      → remaining d ≤ n
      → IsFinished (drain_loop fork store_of environment candidates n d)
  unfolding drain_loop
  loop-IsFinished zero d h = inl (omega (arith, h))
  loop-IsFinished (suc n) d h =
      by_budget (d.budget == 0) refl _
        (by_ready (loop-IsFinished n) (ready d.fair d.exhausted candidates) refl)
    where
      by_budget :
          (b : Bool)
          → (d.budget == 0) ≡ b
          → (e : Drain W) → (0 < d.budget → IsFinished e)
          → IsFinished (elim b [ true ↦ d | false ↦ e ])
      by_budget true q e f = inl (ground arith)
      by_budget false q e f = f (ground arith)

      by_ready :
          ((x : Drain W)
            → remaining x ≤ n
            → IsFinished (drain_loop fork store_of environment candidates n x))
          → (rs : List Claimable) → ready d.fair d.exhausted candidates ≡ rs
          → 0 < d.budget
          → IsFinished (elim rs [
            | [] ↦ d
            | g ∷ rest ↦
                drain_loop fork store_of environment candidates n
                  (serve_group fork store_of environment candidates g d)
          ])
      by_ready later [] e b = inr e
      by_ready later (g ∷ rest) e b =
          let here : Member g (ready d.fair d.exhausted candidates) = rw e (inl refl) in
          let (m, o) = Member-of_ready d.fair d.exhausted g candidates here in
          later (serve_group fork store_of environment candidates g d)
            (omega (arith, serve_group-lt g d b m o))

-- Whatever its forks report, a drain of a workspace ends with no budget left or with no group
-- ready: the bound on its rounds never ends it.
pub drain_finishes :
    {W : Type 0} (fork : Claimable → Option String → W → Outcome × W) (store_of : W → Store)
    (environment : Option String) (groups : List Claimable) (fair : FairOrder) (limit : ℕ) (w : W)
    → let end = drain_tenant fork store_of environment groups fair limit w in
      (end.budget ≡ 0) ⊎ (ready end.fair end.exhausted (candidates_of groups) ≡ [])
unfolding drain_tenant
drain_finishes fork store_of environment groups fair limit w =
    let candidates = candidates_of groups in
    loop-IsFinished fork store_of environment candidates (max 1 limit + length candidates + 1)
      (drain_start fair limit w) (omega (arith, length-count (open_to []) candidates))
