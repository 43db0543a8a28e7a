-- ===== src/Execution/Fair.antt =====
-- How long a group waits for its turn (execution/scope.py, `FairOrder`).
use rya.Prelude.{
  ℕ, suc, ◌+◌, ◌-◌, ◌≤◌, String, ◌≡◌, refl, ap, inl, inr, Bool, true, false, some, List, [], ◌∷◌,
  ◌++◌, map, keep, first_where, count_where, Member, All, arith, str_eq, eq_iff, Bool-cases,
  if◌then◌else◌,
}
use rya.Prelude.Sort.{sorted, Member-sorted, Lex, Ordered-sorted, Ordered-Unit, first_where-Ordered}
use rya.Execution.Scope.{Claimable, group_key}
use rya.Execution.Rounds.{
  FairOrder, served_of, mark_served, enumerated, rank_before, group_of, order, open_to, ready,
}

-- A round: the groups that the claimer has given up, and its candidates.
abbrev pub Round : Type 0
Round = List String × List Claimable

-- the dispatch of a round, with what `served` writes; a round with no ready group is none
abbrev pub first_served : List Claimable → FairOrder → List String × FairOrder
first_served [] d = ([], d)
first_served (g ∷ gs) d = (group_key g ∷ [], mark_served (group_key g) 1 d)

unfoldable pub dispatch : Round → FairOrder → List String × FairOrder
dispatch (ex, gs) d = first_served (ready d ex gs) d

-- the keys that are dispatched, in order
unfoldable pub dispatches : List Round → FairOrder → List String
dispatches [] d = []
dispatches (r ∷ rs) d = (dispatch r d).0 ++ dispatches rs (dispatch r d).1

-- a group is a candidate of every round, and not given up
abbrev pub IsReady : Claimable → Round → Type 0
IsReady g (ex, gs) = Member g gs × (open_to ex g ≡ true)

served_of-mark :
    (k j : String) (n : ℕ) (d : FairOrder)
    → served_of k (mark_served j n d) ≡ (if str_eq j k then n else 0) + served_of k d
unfolding served_of mark_served
served_of-mark k j n [] = ground arith
served_of-mark k j n ((i, m) ∷ d) =
    ground (arith, served_of-mark k j n d, eq_iff i j, eq_iff i k, eq_iff j k)

rank-asym :
    (d : FairOrder) (x y : ℕ × Claimable) → rank_before d x y ≡ true → rank_before d y x ≡ false
unfolding rank_before
rank-asym d x y h = ground arith

rank-neg_trans :
    (d : FairOrder) (x y z : ℕ × Claimable)
    → rank_before d y x ≡ false
    → rank_before d x z ≡ false
    → rank_before d y z ≡ false
unfolding rank_before
rank-neg_trans d x y z h k = ground arith

head_of_map :
    (p : Claimable → Bool) (rs : List (ℕ × Claimable)) (g : Claimable) (gs : List Claimable)
    → keep p (map group_of rs) ≡ g ∷ gs
    → (i : ℕ) × (first_where (λ r. p (group_of r)) rs ≡ some (i, g))
head_of_map p [] g gs e = cc
head_of_map p ((i, x) ∷ rs) g gs e = elim (Bool-cases (p x)) [
  | inl h ↦ let same : x ≡ g = cc (rw h at e) in (i, rw h (ap (λ y. some (i, y)) same))
  | inr h ↦ let (j, q) = head_of_map p rs g gs (rw h at e) in (j, rw h q)
]

Member-enumerated :
    (n : ℕ) (g : Claimable) (gs : List Claimable)
    → Member g gs
    → (i : ℕ) × Member (i, g) (enumerated n gs)
Member-enumerated n g [] m = elim m [ ]
Member-enumerated n g (x ∷ gs) (inl e) = (n, inl (ap (λ y. (n, y)) e))
Member-enumerated n g (x ∷ gs) (inr m) = let (i, k) = Member-enumerated (suc n) g gs m in (i, inr k)

-- No group that is ready has had fewer dispatches than the one that is served.
least_served :
    (d : FairOrder) (ex : List String) (gs rest : List Claimable) (g x : Claimable)
    → IsReady g (ex, gs)
    → ready d ex gs ≡ x ∷ rest
    → served_of (group_key x) d ≤ served_of (group_key g) d
unfolding ready order rank_before
least_served d ex gs rest g x (m, o) e =
    let ranked = enumerated 0 gs in
    let (i, found) = head_of_map (open_to ex) (sorted (rank_before d) ranked) x rest e in
    let (j, member) = Member-enumerated 0 g gs m in
    elim (first_where-Ordered (Lex (rank_before d) (λ x y. Unit {0})) (λ r. open_to ex (group_of r))
      (sorted (rank_before d) ranked) (i, x) (j, g)
      (Ordered-sorted (rank_before d) (rank-asym d) (rank-neg_trans d) _ ranked
        (Ordered-Unit ranked))
      found (Member-sorted (rank_before d) (j, g) ranked member) o) [
        | inl q ↦ let same : g ≡ x = ap group_of q in rw same (omega arith)
        | inr (le, _) ↦ not_more i j le
      ]
  where
    not_more :
        (i j : ℕ)
        → rank_before d (j, g) (i, x) ≡ false
        → served_of (group_key x) d ≤ served_of (group_key g) d
    not_more i j h = ground arith

abbrev pub times : String → List String → ℕ
times k ks = count_where (λ j. str_eq j k) ks

-- Over any rounds of a claimer in each of which a group is ready, and in none of which its key is
-- dispatched, each key is dispatched no more often than the group's served count and one, less
-- the count that this key had.
pub waits_bounded :
    (g : Claimable) (key : String) (rounds : List Round) (d : FairOrder)
    → All (IsReady g) rounds
    → times (group_key g) (dispatches rounds d) ≡ 0
    → times key (dispatches rounds d) ≤ suc (served_of (group_key g) d) - served_of key d
unfolding dispatches dispatch
waits_bounded g key [] d h none_yet = omega arith
waits_bounded g key ((ex, gs) ∷ rounds) d h none_yet =
    by_ready (ready d ex gs) refl (waits_bounded g key rounds) none_yet
  where
    by_ready :
        (rs : List Claimable)
        → ready d ex gs ≡ rs
        → ((e : FairOrder)
            → All (IsReady g) rounds
            → times (group_key g) (dispatches rounds e) ≡ 0
            → times key (dispatches rounds e) ≤ suc (served_of (group_key g) e) - served_of key e)
        → times (group_key g) ((first_served rs d).0 ++ dispatches rounds (first_served rs d).1) ≡ 0
        → times key ((first_served rs d).0 ++ dispatches rounds (first_served rs d).1)
          ≤ suc (served_of (group_key g) d) - served_of key d
    by_ready [] e later n = later d h.1 n
    by_ready (x ∷ rest) e later n =
        let d' = mark_served (group_key x) 1 d in
        ground (
          arith,
          least_served d ex gs rest g x h.0 e,
          later d' h.1,
          served_of-mark (group_key g) (group_key x) 1 d,
          served_of-mark key (group_key x) 1 d,
          eq_iff (group_key x) (group_key g),
          eq_iff (group_key x) key,
        )
