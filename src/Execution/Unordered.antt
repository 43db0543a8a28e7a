-- ===== src/Execution/Unordered.antt =====
-- When `peek` (execution/scope.py) fails: the sort of its counts compares `None` with a text.
use rya.Prelude.{
  ℕ, ◌≤◌, ◌<◌, String, ◌≡◌, refl, ◌↔◌, inl, inr, Bool, true, false, ◌&&◌, Option, none, some, List,
  [], ◌∷◌, Member, All, All-Member, arith, str_eq, eq_iff, Bool-cases,
}
use rya.Errors.{err, python_error}
use rya.Store.{Store}
use rya.Execution.Peek.{
  Count, same_version, is_at, bump, bump_all, waiting, one_missing, unordered, any_where,
  any_unordered, sort_counts, as_groups, peek,
}
use rya.Execution.Waiting.{number_at, number_at-waiting, work_for, is_at-eq}

abbrev IsCounted : Count → Type 0
IsCounted c = 0 < c.number

bump-IsCounted :
    (a : String) (v : Option String) (cs : List Count)
    → All IsCounted cs
    → All IsCounted (bump a v cs)
unfolding bump
bump-IsCounted a v [] h = (omega arith, tt)
bump-IsCounted a v (c ∷ cs) h = ground (arith, bump-IsCounted a v cs h.1)

bump_all-IsCounted :
    (ts : List (String × Option String)) (cs : List Count)
    → All IsCounted cs
    → All IsCounted (bump_all ts cs)
unfolding bump_all
bump_all-IsCounted [] cs h = h
bump_all-IsCounted ((a, v) ∷ ts) cs h =
    bump_all-IsCounted ts (bump a v cs) (bump-IsCounted a v cs h)

same_version_refl : (v : Option String) → same_version v v ≡ true
same_version_refl none = refl
same_version_refl (some v) = ground (arith, eq_iff v v)

-- An entry counts for its own agent and version.
number_at-Member :
    (c : Count) (cs : List Count) → Member c cs → c.number ≤ number_at c.agent c.version_id cs
unfolding number_at
number_at-Member c [] m = elim m [ ]
number_at-Member c (d ∷ cs) (inl e) =
    rw (← e) (ground (arith, eq_iff c.agent c.agent, same_version_refl c.version_id))
number_at-Member c (d ∷ cs) (inr m) = ground (arith, number_at-Member c cs m)

Member-of_number_at :
    (a : String) (v : Option String) (cs : List Count)
    → 0 < number_at a v cs
    → (c : Count) × Member c cs × (c.agent ≡ a) × (c.version_id ≡ v)
unfolding number_at
Member-of_number_at a v [] h = absurd (omega arith)
Member-of_number_at a v (c ∷ cs) h = elim (Bool-cases (is_at a v c)) [
  | inl e ↦ let (same_a, same_v) = is_at-eq a v c e in (c, inl refl, same_a, same_v)
  | inr e ↦
      let (d, m, same_a, same_v) = Member-of_number_at a v cs (rw e at h) in
      (d, inr m, same_a, same_v)
]

any_where-Member :
    {A : Type 0} (p : A → Bool) (x : A) (xs : List A)
    → Member x xs
    → p x ≡ true
    → any_where p xs ≡ true
any_where-Member p x [] m h = elim m [ ]
any_where-Member p x (y ∷ ys) (inl e) h = rw (← e, h) refl
any_where-Member p x (y ∷ ys) (inr m) h = ground (arith, any_where-Member p x ys m h)

Member-of_any_where :
    {A : Type 0} (p : A → Bool) (xs : List A)
    → any_where p xs ≡ true
    → (x : A) × Member x xs × (p x ≡ true)
Member-of_any_where p [] h = cc
Member-of_any_where p (x ∷ xs) h = elim (Bool-cases (p x)) [
  | inl e ↦ (x, inl refl, e)
  | inr e ↦ let (y, m, q) = Member-of_any_where p xs (ground arith) in (y, inr m, q)
]

-- Two entries that cannot be compared.
abbrev Clash : List Count → Type 0
Clash cs = (c d : Count) × Member c cs × Member d cs × (unordered c d ≡ true)

Clash-of_any : (cs : List Count) → any_unordered cs ≡ true → Clash cs
unfolding any_unordered
Clash-of_any [] h = cc
Clash-of_any (c ∷ cs) h = elim (Bool-cases (any_where (unordered c) cs)) [
  | inl e ↦ let (d, m, q) = Member-of_any_where (unordered c) cs e in (c, d, inl refl, inr m, q)
  | inr e ↦ let (x, y, m, n, q) = Clash-of_any cs (ground arith) in (x, y, inr m, inr n, q)
]

unordered_sym : (c d : Count) → unordered c d ≡ true → unordered d c ≡ true
unfolding unordered
unordered_sym c d h = ground (arith, eq_iff c.agent d.agent, eq_iff d.agent c.agent)

unordered_at :
    (c d : Count) (a v : String)
    → c.agent ≡ a
    → d.agent ≡ a
    → c.version_id ≡ none
    → d.version_id ≡ some v
    → unordered c d ≡ true
unfolding unordered
unordered_at c d a v c_a d_a c_v d_v = rw (c_a, d_a, c_v, d_v) (ground (arith, eq_iff a a))

unordered_irrefl : (c : Count) → unordered c c ≡ false
unfolding unordered
unordered_irrefl c = ground (arith)

any_of-Clash :
    (c d : Count) (cs : List Count)
    → Member c cs
    → Member d cs
    → unordered c d ≡ true
    → any_unordered cs ≡ true
unfolding any_unordered
any_of-Clash c d [] m n h = elim m [ ]
any_of-Clash c d (x ∷ xs) (inl e) (inl f) h = cc (unordered_irrefl x, h, e, f)
any_of-Clash c d (x ∷ xs) (inl e) (inr n) h =
    ground (arith, any_where-Member (unordered x) d xs n (rw (← e) h))
any_of-Clash c d (x ∷ xs) (inr m) (inl f) h =
    ground (arith, any_where-Member (unordered x) c xs m (rw (← f) (unordered_sym c d h)))
any_of-Clash c d (x ∷ xs) (inr m) (inr n) h = ground (arith, any_of-Clash c d xs m n h)

as_groups-err :
    (workspace : String) (agents : Option (List String)) (cs : List Count)
    → (as_groups workspace agents (sort_counts cs) ≡ err python_error) ↔ (any_unordered cs ≡ true)
unfolding sort_counts
as_groups-err workspace agents cs = elim (Bool-cases (any_unordered cs)) [
  | inl h ↦ rw h (λ e. refl, λ e. refl)
  | inr h ↦ rw h (λ e. cc, λ e. cc)
]

-- an agent whose work is in part pinned to a version
abbrev pub HasMixedWork : ℕ → Store → Type 0
HasMixedWork now s = (a v : String) × (0 < work_for now a none s) × (0 < work_for now a (some v) s)

module _ (now : ℕ) (s : Store) where
  abbrev counts : List Count
  counts = bump_all (waiting now s) []

  counted : (c : Count) → Member c counts → 0 < work_for now c.agent c.version_id s
  counted c m = ground (
    arith,
    number_at-Member c counts m,
    All-Member IsCounted c counts (bump_all-IsCounted (waiting now s) [] tt) m,
    number_at-waiting c.agent c.version_id now s,
  )

  mixed :
      (c d : Count) → Member c counts → Member d counts → unordered c d ≡ true → HasMixedWork now s
  unfolding unordered
  mixed c d m n h =
      by_versions c.agent d.agent c.version_id d.version_id (counted c m) (counted d n) h
    where
      by_versions :
          (a b : String) (v w : Option String)
          → 0 < work_for now a v s
          → 0 < work_for now b w s
          → (str_eq a b && one_missing v w) ≡ true
          → HasMixedWork now s
      by_versions a b none (some w) p q e =
          let same : a ≡ b = ground (arith, eq_iff a b) in (b, w, rw (← same) p, q)
      by_versions a b (some v) none p q e =
          let same : a ≡ b = ground (arith, eq_iff a b) in (b, v, q, rw (← same) p)
      by_versions a b none none p q e = ground arith
      by_versions a b (some v) (some w) p q e = ground arith

  clash : HasMixedWork now s → any_unordered counts ≡ true
  clash (a, v, p, q) =
      let (c, m, c_a, c_v) =
        Member-of_number_at a none counts (rw (number_at-waiting a none now s) p) in
      let (d, n, d_a, d_v) =
        Member-of_number_at a (some v) counts (rw (number_at-waiting a (some v) now s) q) in
      any_of-Clash c d counts m n (unordered_at c d a v c_a d_a c_v d_v)

-- `peek` fails, with an exception that is no `RyaError`, exactly when some agent has waiting work
-- that names no version and waiting work that names one.
pub peek_fails :
    (workspace : String) (agents : Option (List String)) (now : ℕ) (s : Store)
    → (peek workspace agents now s ≡ err python_error) ↔ HasMixedWork now s
unfolding peek
peek_fails workspace agents now s =
    let (to, from) = as_groups-err workspace agents (counts now s) in
    (
      λ e. let (c, d, m, n, h) = Clash-of_any (counts now s) (to e) in mixed now s c d m n h,
      λ h. from (clash now s h),
    )
