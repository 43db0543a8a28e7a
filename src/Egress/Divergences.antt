-- ===== src/Egress/Divergences.antt =====
-- The divergences that an `EgressService` (egress.py) keeps.
use mathlib.Core.List.{append-nil, append_assoc}
use rya.Prelude.{
  ℕ, suc, ◌-◌, ◌≤◌, String, ◌≡◌, refl, sym, ap, ◌∙◌, Bool, false, List, [], ◌∷◌, ◌++◌, length,
  length-append, drop, ltb, leb, ◌==◌, arith, Bool-cases, inl, inr, if◌then◌else◌,
}
use rya.Errors.{Result, ok, err}
use rya.Store.{Store}
use rya.Guard.Policy.{PyLib, GuardPolicy}
use rya.Egress.Posture.{permits}
use rya.Egress.Service.{
  GuardSays, Divergence, EgressService, differs, last_items, record_divergence, current_policy,
  guard_says, divergence_of, judged, check,
}

-- The newest items of a log, at most `n`.
unfoldable pub newest : {A : Type 0} → ℕ → List A → List A
newest n [] = []
newest n (x ∷ xs) = let rest = newest n xs in if leb (suc (length xs)) n then x ∷ xs else rest

newest_short : {A : Type 0} (n : ℕ) (xs : List A) → length xs ≤ n → newest n xs ≡ xs
unfolding newest
newest_short n [] h = refl
newest_short n (x ∷ xs) h = ground (arith)

drop-newest : {A : Type 0} (n : ℕ) (xs : List A) → drop (length xs - n) xs ≡ newest n xs
unfolding newest
drop-newest n [] = let none_left : 0 - n ≡ 0 = omega arith in rw none_left refl
drop-newest n (x ∷ xs) = elim (Bool-cases (leb (suc (length xs)) n)) [
  | inl e ↦ let all_kept : suc (length xs) - n ≡ 0 = ground arith in rw (all_kept, e) refl
  | inr e ↦
      let one_less : suc (length xs) - n ≡ suc (length xs - n) = ground arith in
      rw (one_less, e) (drop-newest n xs)
]

length-newest : {A : Type 0} (n : ℕ) (xs : List A) → length (newest n xs) ≤ n
unfolding newest
length-newest n [] = omega arith
length-newest n (x ∷ xs) = ground (arith, length-newest n xs)

newest_twice :
    {A : Type 0} (n : ℕ) (xs ys : List A) → newest n (newest n xs ++ ys) ≡ newest n (xs ++ ys)
unfolding newest
newest_twice n [] ys = refl
newest_twice n (x ∷ xs) ys = elim (Bool-cases (leb (suc (length xs)) n)) [
  | inl e ↦ rw e refl
  | inr e ↦
      let longer : leb (suc (length (xs ++ ys))) n ≡ false = ground (arith, length-append xs ys) in
      rw (e, longer) (newest_twice n xs ys)
]

module _ (lib : PyLib) (ambient : GuardPolicy) (s : Store) where
  -- the service with no divergences
  abbrev pub blank : EgressService → EgressService
  blank e = record e { divergences = [] }

  abbrev diverging : String → String → GuardSays → Result Bool → EgressService → List Divergence
  diverging url method g (err c) e = []
  diverging url method g (ok n) e =
      if differs g n then divergence_of lib ambient s url method g n e ∷ [] else []

  -- the divergence of one request, if its verdicts differ
  unfoldable pub diverges : String → String → EgressService → List Divergence
  diverges url method e =
      diverging url method (guard_says lib ambient s url method (current_policy lib ambient s e))
        (permits lib e.posture url) e

  -- the divergences of requests, in order
  unfoldable pub logged : List (String × String) → EgressService → List Divergence
  unfolding diverges
  logged [] e = []
  logged ((url, method) ∷ qs) e = diverges url method e ++ logged qs e

  -- The log of a request does not depend on what was recorded before.
  diverging-blank :
      (url method : String) (g : GuardSays) (o : Result Bool) (e : EgressService)
      → diverging url method g o (blank e) ≡ diverging url method g o e
  unfolding current_policy
  diverging-blank url method g (err c) e = refl
  diverging-blank url method g (ok n) e = refl

  diverges-blank :
      (url method : String) (e : EgressService)
      → diverges url method (blank e) ≡ diverges url method e
  unfolding diverges current_policy
  diverges-blank url method e = diverging-blank url method _ (permits lib e.posture url) e

  unfoldable pub check_all : List (String × String) → EgressService → EgressService
  check_all [] e = e
  check_all ((url, method) ∷ qs) e = check_all qs (check lib ambient s url method e).1

  recorded :
      (d : Divergence) (e : EgressService)
      → 1 ≤ e.max_divergences
      → record_divergence d e
        ≡ record e { divergences = newest e.max_divergences (e.divergences ++ d ∷ []) }
  unfolding record_divergence last_items
  recorded d e h =
      ap (λ ds. record e { divergences = ds })
        (elim (Bool-cases (ltb e.max_divergences (length ds))) [
          | inl q ↦
              let some_kept : (e.max_divergences == 0) ≡ false = ground arith in
              rw (q, some_kept) (drop-newest e.max_divergences ds)
          | inr q ↦ rw q (sym (newest_short e.max_divergences ds (ground arith)))
        ])
    where
      ds : List Divergence
      ds = e.divergences ++ d ∷ []

  same_log :
      (e : EgressService)
      → length e.divergences ≤ e.max_divergences
      → e ≡ record e { divergences = newest e.max_divergences (e.divergences ++ []) }
  same_log e k =
      ap (λ ds. record e { divergences = ds })
        (sym (
          ap (newest e.max_divergences) (append-nil e.divergences)
          ∙ newest_short e.max_divergences e.divergences k))

  judged-keeps :
      (url method : String) (g : GuardSays) (o : Result Bool) (e : EgressService)
      → 1 ≤ e.max_divergences
      → length e.divergences ≤ e.max_divergences
      → (judged lib ambient s url method g o e).1 ≡ record e {
        divergences = newest e.max_divergences (e.divergences ++ diverging url method g o e);
      }
  judged-keeps url method g (err c) e h k = same_log e k
  judged-keeps url method g (ok n) e h k = elim (Bool-cases (differs g n)) [
    | inl q ↦ rw q (recorded (divergence_of lib ambient s url method g n e) e h)
    | inr q ↦ rw q (same_log e k)
  ]

  -- Over any requests that are checked, a service that may keep at least one divergence and holds
  -- no more than it may keeps the newest of those it held and of those whose verdicts differ, in
  -- order and no more than it may.
  pub check_all-newest :
      (qs : List (String × String)) (e : EgressService)
      → 1 ≤ e.max_divergences
      → length e.divergences ≤ e.max_divergences
      → (check_all qs e).divergences
        ≡ newest e.max_divergences (e.divergences ++ logged qs (blank e))
  unfolding check_all logged check diverges
  check_all-newest [] e h k = ap (λ x. x.divergences) (same_log e k)
  check_all-newest ((url, method) ∷ qs) e h k =
      let g = guard_says lib ambient s url method (current_policy lib ambient s e) in
      let own = diverges url method e in
      let ds = newest e.max_divergences (e.divergences ++ own) in
      let checked = judged-keeps url method g (permits lib e.posture url) e h k in
      ap (λ x. (check_all qs x).divergences) checked
      ∙ check_all-newest qs (record e { divergences = ds }) h
          (length-newest e.max_divergences (e.divergences ++ own))
      ∙ newest_twice e.max_divergences (e.divergences ++ own) (logged qs (blank e))
      ∙ ap (newest e.max_divergences) (append_assoc e.divergences own (logged qs (blank e)))
      ∙ ap (λ ds. newest e.max_divergences (e.divergences ++ (ds ++ logged qs (blank e))))
          (sym (diverges-blank url method e))
