-- ===== src/Prelude/Sort.antt =====
-- Python's stable `sorted`, by insertion from the right, for a Boolean "comes strictly before".
use rya.Prelude.{
  ◌≡◌, refl, ap, ◌∙◌, ◌⊎◌, inl, inr, Bool, true, false, some, List, [], ◌∷◌, arith, Member, All,
  All-Member, first_where, Bool-cases, if◌then◌else◌,
}

module _ {A : Type 0} (before : A → A → Bool) where
  unfoldable pub insert : A → List A → List A
  insert a [] = a ∷ []
  insert a (x ∷ xs) = if before x a then x ∷ insert a xs else a ∷ x ∷ xs

  unfoldable pub sorted : List A → List A
  unfolding insert
  sorted [] = []
  sorted (x ∷ xs) = insert x (sorted xs)

  insert-Member : (a b : A) (xs : List A) → Member b (insert a xs) → (b ≡ a) ⊎ Member b xs
  unfolding insert
  insert-Member a b [] m = m
  insert-Member a b (x ∷ xs) m = ground (arith, insert-Member a b xs)

  Member-insert_self : (a : A) (xs : List A) → Member a (insert a xs)
  unfolding insert
  Member-insert_self a [] = inl refl
  Member-insert_self a (x ∷ xs) = ground (arith, Member-insert_self a xs)

  Member-insert : (a b : A) (xs : List A) → Member b xs → Member b (insert a xs)
  unfolding insert
  Member-insert a b (x ∷ xs) m = ground (arith, Member-insert a b xs)
  Member-insert a b [] m = elim m [ ]

  -- Sorting neither loses nor makes up an item.
  pub Member-of_sorted : (b : A) (xs : List A) → Member b (sorted xs) → Member b xs
  unfolding sorted
  Member-of_sorted b [] m = m
  Member-of_sorted b (x ∷ xs) m = elim (insert-Member x b (sorted xs) m) [
    | inl e ↦ inl e
    | inr r ↦ inr (Member-of_sorted b xs r)
  ]

  pub Member-sorted : (b : A) (xs : List A) → Member b xs → Member b (sorted xs)
  unfolding sorted
  Member-sorted b (x ∷ xs) (inl e) = rw e (Member-insert_self x (sorted xs))
  Member-sorted b (x ∷ xs) (inr m) = Member-insert x b (sorted xs) (Member-sorted b xs m)
  Member-sorted b [] m = elim m [ ]

  pub All-insert : (P : A → Type 0) (a : A) (xs : List A) → P a → All P xs → All P (insert a xs)
  unfolding insert
  All-insert P a [] h k = (h, tt)
  All-insert P a (x ∷ xs) h k = ground (arith, All-insert P a xs h k.1)

  pub All-sorted : (P : A → Type 0) (xs : List A) → All P xs → All P (sorted xs)
  unfolding sorted
  All-sorted P [] h = tt
  All-sorted P (x ∷ xs) h = All-insert P x (sorted xs) h.0 (All-sorted P xs h.1)

-- A list in which every item is related to each item behind it.
abbrev pub Ordered : {A : Type 0} → (A → A → Type 0) → List A → Type 0
Ordered R [] = Unit
Ordered R (x ∷ xs) = All (R x) xs × Ordered R xs

-- The order of a stable sort: by the test, and between equals by the order that was there.
abbrev pub Lex : {A : Type 0} → (A → A → Bool) → (A → A → Type 0) → A → A → Type 0
Lex before R x y = (before y x ≡ false) × ((before x y ≡ true) ⊎ R x y)

module _ {A : Type 0} (before : A → A → Bool)
    (asym : (x y : A) → before x y ≡ true → before y x ≡ false)
    (neg_trans : (x y z : A) → before y x ≡ false → before x z ≡ false → before y z ≡ false)
    (R : A → A → Type 0) where
  -- An item that stood in front of all the others, and is not after `x`, is related to all behind `x`.
  All-Lex_trans :
      (a x : A) (xs : List A)
      → before x a ≡ false
      → All (Lex before R x) xs
      → All (R a) xs
      → All (Lex before R a) xs
  All-Lex_trans a x [] h k r = tt
  All-Lex_trans a x (y ∷ ys) h k r =
      ((neg_trans x y a k.0.0 h, inr r.0), All-Lex_trans a x ys h k.1 r.1)

  Ordered-insert :
      (a : A) (xs : List A)
      → All (R a) xs
      → Ordered (Lex before R) xs
      → Ordered (Lex before R) (insert before a xs)
  unfolding insert
  Ordered-insert a [] r o = (tt, tt)
  Ordered-insert a (x ∷ xs) r o = elim (Bool-cases (before x a)) [
    | inl e ↦ rw e (
      All-insert before (Lex before R x) a xs (asym x a e, inl e) o.0,
      Ordered-insert a xs r.1 o.1,
    )
    | inr e ↦ rw e (((e, inr r.0), All-Lex_trans a x xs e o.0 r.1), o)
  ]

  -- The sort is stable: it refines the order that was there.
  pub Ordered-sorted : (xs : List A) → Ordered R xs → Ordered (Lex before R) (sorted before xs)
  unfolding sorted
  Ordered-sorted [] o = tt
  Ordered-sorted (x ∷ xs) o =
      Ordered-insert x (sorted before xs) (All-sorted before (R x) xs o.0) (Ordered-sorted xs o.1)

module _ {A : Type 0} (R : A → A → Type 0) (p : A → Bool) where
  -- What a search finds first is related to every later item that passes.
  pub first_where-Ordered :
      (xs : List A) (a b : A)
      → Ordered R xs
      → first_where p xs ≡ some a
      → Member b xs
      → p b ≡ true
      → (b ≡ a) ⊎ R a b
  first_where-Ordered [] a b o e m h = elim m [ ]
  first_where-Ordered (x ∷ xs) a b o e m h = elim (Bool-cases (p x)) [
    | inl t ↦
        let same : x ≡ a = ground arith in
        elim m [
          | inl q ↦ inl (q ∙ same)
          | inr later ↦ inr (rw (← same) (All-Member (R x) b xs o.0 later))
        ]
    | inr f ↦ elim m [
      | inl q ↦ cc (ap p q)
      | inr later ↦ first_where-Ordered xs a b o.1 (ground arith) later h
    ]
  ]

All-Unit : {A : Type 0} (xs : List A) → All {A = A} (λ x. Unit {0}) xs
All-Unit [] = tt
All-Unit (x ∷ xs) = (tt, All-Unit xs)

pub Ordered-Unit : {A : Type 0} (xs : List A) → Ordered {A = A} (λ x y. Unit {0}) xs
Ordered-Unit [] = tt
Ordered-Unit (x ∷ xs) = (All-Unit xs, Ordered-Unit xs)
