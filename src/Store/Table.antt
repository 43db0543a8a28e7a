-- ===== src/Store/Table.antt =====
-- A table of documents: one JSON file for each id, read and written whole (`_read`, `_write`).
-- The list is the directory in the order in which a glob yields it.
use rya.Prelude.{
  String, ◌≡◌, refl, sym, ap, ◌∙◌, ◌≢◌, ◌⊎◌, inl, inr, Bool, true, false, Option, none, some, List,
  [], ◌∷◌, ◌++◌, arith, Member, All, All-append, Bool-cases, str_eq, eq_iff, keep, if◌then◌else◌,
}
use rya.Prelude.Sort.{insert, sorted, All-insert, All-sorted}

module _ {A : Type 0} (id : A → String) where
  unfoldable pub get : String → List A → Option A
  get i [] = none
  get i (x ∷ xs) = if str_eq (id x) i then some x else get i xs

  unfoldable pub save : A → List A → List A
  save a [] = a ∷ []
  save a (x ∷ xs) = if str_eq (id x) (id a) then a ∷ xs else x ∷ save a xs

  -- One file for each id.
  abbrev pub Unique : List A → Type 0
  Unique [] = Unit
  Unique (x ∷ xs) = All (λ y. str_eq (id y) (id x) ≡ false) xs × Unique xs

  pub get-save :
      (i : String) (a : A) (xs : List A)
      → get i (save a xs) ≡ (if str_eq (id a) i then some a else get i xs)
  unfolding get save
  get-save i a [] = refl
  get-save i a (x ∷ xs) =
      ground (arith, get-save i a xs, eq_iff (id a) i, eq_iff (id x) i, eq_iff (id x) (id a))

  pub get-id : (i : String) (a : A) (xs : List A) → get i xs ≡ some a → id a ≡ i
  unfolding get
  get-id i a [] e = cc
  get-id i a (x ∷ xs) e = ground (arith, get-id i a xs, eq_iff (id x) i)

  pub get-Member : (i : String) (a : A) (xs : List A) → get i xs ≡ some a → Member a xs
  unfolding get
  get-Member i a [] e = cc
  get-Member i a (x ∷ xs) e = ground (arith, get-Member i a xs)

  pub get-none : (i : String) (b : A) (xs : List A) → get i xs ≡ none → Member b xs → id b ≢ i
  unfolding get
  get-none i b [] e m = elim m [ ]
  get-none i b (x ∷ xs) e (inl q) = ground (arith, eq_iff (id x) i, ap id q)
  get-none i b (x ∷ xs) e (inr m) = ground (arith, get-none i b xs, eq_iff (id x) i)

  pub All-save : (P : A → Type 0) (a : A) (xs : List A) → P a → All P xs → All P (save a xs)
  unfolding save
  All-save P a [] h k = (h, tt)
  All-save P a (x ∷ xs) h k = ground (arith, All-save P a xs h k.1)

  differs_trans :
      (a x : A) (xs : List A)
      → str_eq (id x) (id a) ≡ true
      → All (λ y. str_eq (id y) (id x) ≡ false) xs
      → All (λ y. str_eq (id y) (id a) ≡ false) xs
  differs_trans a x [] e h = tt
  differs_trans a x (y ∷ ys) e h = (
    ground (arith, h.0, eq_iff (id x) (id a), eq_iff (id y) (id a), eq_iff (id y) (id x)),
    differs_trans a x ys e h.1,
  )

  pub Unique-save : (a : A) (xs : List A) → Unique xs → Unique (save a xs)
  unfolding save
  Unique-save a [] u = (tt, tt)
  Unique-save a (x ∷ xs) u = elim (Bool-cases (str_eq (id x) (id a))) [
    | inl e ↦ rw e (differs_trans a x xs e u.0, u.1)
    | inr e ↦ rw e (
      All-save (λ y. str_eq (id y) (id x) ≡ false) a xs
          (ground (arith, eq_iff (id x) (id a), eq_iff (id a) (id x))) u.0,
      Unique-save a xs u.1,
    )
  ]

  All-Member_ne :
      (a b : A) (xs : List A)
      → All (λ y. str_eq (id y) (id a) ≡ false) xs
      → Member b xs
      → id b ≢ id a
  All-Member_ne a b [] h m = elim m [ ]
  All-Member_ne a b (x ∷ xs) h (inl e) = ground (arith, h.0, eq_iff (id x) (id a), ap id e)
  All-Member_ne a b (x ∷ xs) h (inr m) = All-Member_ne a b xs h.1 m

  -- One more id that none of the others is.
  pub Unique-snoc :
      (xs : List A) (a : A)
      → Unique xs
      → All (λ y. str_eq (id a) (id y) ≡ false) xs
      → Unique (xs ++ a ∷ [])
  Unique-snoc [] a u h = (tt, tt)
  Unique-snoc (x ∷ xs) a u h = (
    All-append (λ y. str_eq (id y) (id x) ≡ false) xs (a ∷ []) u.0 (h.0, tt),
    Unique-snoc xs a u.1 h.1,
  )

  -- After a write the table holds the written document, and the others of before.
  pub Member-save :
      (a b : A) (xs : List A)
      → Unique xs
      → Member b (save a xs)
      → (b ≡ a) ⊎ (Member b xs × (id b ≢ id a))
  unfolding save
  Member-save a b [] u (inl e) = inl e
  Member-save a b [] u (inr m) = elim m [ ]
  Member-save a b (x ∷ xs) u m = elim (Bool-cases (str_eq (id x) (id a))) [
    | inl e ↦ replaced e (rw e at m)
    | inr e ↦ kept e (Member-save a b xs u.1) (rw e at m)
  ]
    where
      same : str_eq (id x) (id a) ≡ true → id x ≡ id a
      same e = (eq_iff (id x) (id a)).0 e

      replaced :
          str_eq (id x) (id a) ≡ true
          → Member b (a ∷ xs)
          → (b ≡ a) ⊎ (Member b (x ∷ xs) × (id b ≢ id a))
      replaced e (inl q) = inl q
      replaced e (inr m) = inr (inr m, λ q. All-Member_ne x b xs u.0 m (q ∙ sym (same e)))

      kept :
          str_eq (id x) (id a) ≡ false
          → (Member b (save a xs) → (b ≡ a) ⊎ (Member b xs × (id b ≢ id a)))
          → Member b (x ∷ save a xs)
          → (b ≡ a) ⊎ (Member b (x ∷ xs) × (id b ≢ id a))
      kept e later (inl q) = inr (inl q, ground (arith, eq_iff (id x) (id a), ap id q))
      kept e later (inr m) = elim (later m) [ inl q ↦ inl q | inr (r, ne) ↦ inr (inr r, ne) ]

  pub get_of_Member : (b : A) (xs : List A) → Unique xs → Member b xs → get (id b) xs ≡ some b
  unfolding get
  get_of_Member b [] u m = elim m [ ]
  get_of_Member b (x ∷ xs) u (inl e) = ground (arith, eq_iff (id x) (id b), ap id e)
  get_of_Member b (x ∷ xs) u (inr m) =
      ground (arith, get_of_Member b xs u.1 m, eq_iff (id x) (id b), All-Member_ne x b xs u.0 m)

-- A listing of a table names each id once.
module _ {A : Type 0} (id : A → String) where
  All-keep : (P : A → Type 0) (p : A → Bool) (xs : List A) → All P xs → All P (keep p xs)
  All-keep P p [] h = tt
  All-keep P p (x ∷ xs) h = ground (arith, All-keep P p xs h.1)

  pub Unique-keep : (p : A → Bool) (xs : List A) → Unique id xs → Unique id (keep p xs)
  Unique-keep p [] u = tt
  Unique-keep p (x ∷ xs) u =
      ground (arith, Unique-keep p xs u.1, All-keep (λ y. str_eq (id y) (id x) ≡ false) p xs u.0)

module _ {A : Type 0} (id : A → String) (before : A → A → Bool) where
  Unique-insert :
      (a : A) (xs : List A)
      → All (λ y. str_eq (id y) (id a) ≡ false) xs
      → Unique id xs
      → Unique id (insert before a xs)
  unfolding insert
  Unique-insert a [] h u = (tt, tt)
  Unique-insert a (x ∷ xs) h u = elim (Bool-cases (before x a)) [
    | inl e ↦ rw e (
      All-insert before (λ y. str_eq (id y) (id x) ≡ false) a xs
          (ground (arith, h.0, eq_iff (id x) (id a), eq_iff (id a) (id x))) u.0,
      Unique-insert a xs h.1 u.1,
    )
    | inr e ↦ rw e (h, u)
  ]

  pub Unique-sorted : (xs : List A) → Unique id xs → Unique id (sorted before xs)
  unfolding sorted
  Unique-sorted [] u = tt
  Unique-sorted (x ∷ xs) u =
      Unique-insert x (sorted before xs)
        (All-sorted before (λ y. str_eq (id y) (id x) ≡ false) xs u.0) (Unique-sorted xs u.1)
