-- ===== src/Gates/Newest.antt =====
-- The newest attestation of a kind (gates.py, `_latest`).
use mathlib.Core.Option.{some-injective}
use rya.Prelude.{
  ℕ, String, Bool, true, false, ◌&&◌, Option, none, some, List, [], ◌∷◌, ◌⊎◌, inl, inr, ◌≡◌, refl,
  sym, ap, ◌∙◌, ◌↔◌, All, last?, keep, arith, str_eq, eq_iff, Bool-cases, Option-cases,
  if◌then◌else◌,
}
use rya.Store.{Store}
use rya.Store.Docs.{Evidence, readiness, evals, override, Attestation}
use rya.Gates.Check.{is_readiness, is_evals, latest}

-- The last item of a list of which a predicate holds.
abbrev pub Newest : {A : Type 0} → (A → Type 0) → A → List A → Type 0
Newest P a [] = ⊥
Newest P a (x ∷ xs) = ((a ≡ x) × P x × All (λ y. ¬ P y) xs) ⊎ Newest P a xs

-- A readiness report of the version, and an eval run of it.
abbrev pub IsReport : String → Attestation → Type 0
IsReport i a =
    (a.version_id ≡ i) × ((blocks : ℕ) × (warnings : ℕ) × (a.evidence ≡ readiness blocks warnings))

abbrev pub IsEvalRun : String → Attestation → Type 0
IsEvalRun i a =
    (a.version_id ≡ i)
    × ((total : ℕ) × (passes : ℕ) × (fails : ℕ) × (score : Option ℕ) × (has_evals : Bool)
        × (a.evidence ≡ evals total passes fails score has_evals))

last?-some : {A : Type 0} (y : A) (ys : List A) → (a : A) × (last? (y ∷ ys) ≡ some a)
last?-some y [] = (y, refl)
last?-some y (z ∷ zs) = last?-some z zs

last?-cons : {A : Type 0} (x a : A) (ys : List A) → last? ys ≡ some a → last? (x ∷ ys) ≡ some a
last?-cons x a [] e = cc
last?-cons x a (y ∷ ys) e = e

last?-none : {A : Type 0} (ys : List A) → last? ys ≡ none → ys ≡ []
last?-none [] e = refl
last?-none (y ∷ ys) e = let (a, q) = last?-some y ys in cc (e, q)

module _ {A : Type 0} (p : A → Bool) (P : A → Type 0) (means : (a : A) → (p a ≡ true) ↔ P a) where
  not_kept : (x : A) → p x ≡ false → ¬ P x
  not_kept x e h = cc (e, (means x).1 h)

  none_kept : (xs : List A) → All (λ y. ¬ P y) xs → keep p xs ≡ []
  none_kept [] h = refl
  none_kept (x ∷ xs) h = elim (Bool-cases (p x)) [
    | inl e ↦ absurd (h.0 ((means x).0 e))
    | inr e ↦ rw e (none_kept xs h.1)
  ]

  keep-none : (xs : List A) → keep p xs ≡ [] → All (λ y. ¬ P y) xs
  keep-none [] e = tt
  keep-none (x ∷ xs) e = elim (Bool-cases (p x)) [
    | inl t ↦ cc (ap (λ b. if b then x ∷ keep p xs else keep p xs) (sym t) ∙ e)
    | inr f ↦
        (not_kept x f, keep-none xs (ap (λ b. if b then x ∷ keep p xs else keep p xs) (sym f) ∙ e))
  ]

  last?-Newest : (a : A) (xs : List A) → last? (keep p xs) ≡ some a → Newest P a xs
  last?-Newest a [] e = cc
  last?-Newest a (x ∷ xs) e = elim (Bool-cases (p x)) [
    | inr f ↦
        inr
          (last?-Newest a xs (ap (λ b. last? (if b then x ∷ keep p xs else keep p xs)) (sym f) ∙ e))
    | inl t ↦
        let here = ap (λ b. last? (if b then x ∷ keep p xs else keep p xs)) (sym t) ∙ e in
        elim (Option-cases (last? (keep p xs))) [
          | inl n ↦
              let empty = last?-none (keep p xs) n in
              inl (
                some-injective _ _ (sym here ∙ ap (λ ys. last? (x ∷ ys)) empty),
                (means x).0 t,
                keep-none xs empty,
              )
          | inr (b, q) ↦ inr (last?-Newest a xs (q ∙ (sym (last?-cons x b (keep p xs) q) ∙ here)))
        ]
  ]

  Newest-last? : (a : A) (xs : List A) → Newest P a xs → last? (keep p xs) ≡ some a
  Newest-last? a [] h = elim h [ ]
  Newest-last? a (x ∷ xs) (inl (e, h, k)) =
      rw ((means x).1 h, none_kept xs k, if◌then◌else◌) (ap some (sym e))
  Newest-last? a (x ∷ xs) (inr h) = elim (Bool-cases (p x)) [
    | inl t ↦ rw t (last?-cons x a (keep p xs) (Newest-last? a xs h))
    | inr f ↦ rw f (Newest-last? a xs h)
  ]

report_means :
    (i : String) (a : Attestation)
    → ((str_eq a.version_id i && is_readiness a.evidence) ≡ true) ↔ IsReport i a
report_means i a = by_evidence a.evidence
  where
    by_evidence :
        (e : Evidence)
        → ((str_eq a.version_id i && is_readiness e) ≡ true)
          ↔ ((a.version_id ≡ i) × ((blocks : ℕ) × (warnings : ℕ) × (e ≡ readiness blocks warnings)))
    by_evidence (readiness b w) = (
      λ h. ((eq_iff a.version_id i).0 (ground arith), (b, w, refl)),
      λ h. ground (arith, (eq_iff a.version_id i).1 h.0),
    )
    by_evidence (evals t p f sc has) = (λ h. ground arith, λ (n, x). cc (x.2))
    by_evidence (override e b) = (λ h. ground arith, λ (n, x). cc (x.2))

eval_means :
    (i : String) (a : Attestation)
    → ((str_eq a.version_id i && is_evals a.evidence) ≡ true) ↔ IsEvalRun i a
eval_means i a = by_evidence a.evidence
  where
    by_evidence :
        (e : Evidence)
        → ((str_eq a.version_id i && is_evals e) ≡ true) ↔ (
            (a.version_id ≡ i)
            × ((total : ℕ) × (passes : ℕ) × (fails : ℕ) × (score : Option ℕ) × (has_evals : Bool)
                × (e ≡ evals total passes fails score has_evals)))
    by_evidence (evals t p f sc has) = (
      λ h. ((eq_iff a.version_id i).0 (ground arith), (t, p, f, sc, has, refl)),
      λ h. ground (arith, (eq_iff a.version_id i).1 h.0),
    )
    by_evidence (readiness b w) = (λ h. ground arith, λ (n, x). cc (x.5))
    by_evidence (override e b) = (λ h. ground arith, λ (n, x). cc (x.5))

-- What `latest` finds is the newest attestation of its kind.
pub latest_report :
    (i : String) (a : Attestation) (s : Store)
    → (latest i is_readiness s ≡ some a) ↔ Newest (IsReport i) a s.attestations
unfolding latest
latest_report i a s = (
  last?-Newest (λ b. str_eq b.version_id i && is_readiness b.evidence) (IsReport i) (report_means i)
      a s.attestations,
  Newest-last? (λ b. str_eq b.version_id i && is_readiness b.evidence) (IsReport i) (report_means i)
      a s.attestations,
)

pub latest_eval :
    (i : String) (a : Attestation) (s : Store)
    → (latest i is_evals s ≡ some a) ↔ Newest (IsEvalRun i) a s.attestations
unfolding latest
latest_eval i a s = (
  last?-Newest (λ b. str_eq b.version_id i && is_evals b.evidence) (IsEvalRun i) (eval_means i) a
      s.attestations,
  Newest-last? (λ b. str_eq b.version_id i && is_evals b.evidence) (IsEvalRun i) (eval_means i) a
      s.attestations,
)
