-- ===== src/Quotas/Exact.antt =====
-- `check_admission` (quotas.py): exactly when work is admitted, and what cannot hold it up.
use mathlib.Core.Path.{subst}
use rya.Prelude.{
  ℕ, ◌<◌, ◌≡◌, refl, sym, ap, ◌∙◌, ◌↔◌, ◌≢◌, true, Option, none, some, List, [], ◌∷◌, ◌++◌, arith,
  Bool-cases, Option-cases, inl, inr,
}
use rya.Json.{Json, null, obj, Fields, truthy}
use rya.Errors.{Result, ok, err, e_quota_exceeded}
use rya.Store.{Store}
use rya.Store.Reads.{policy_get}
use rya.Orgs.{org_violations}
use rya.Quotas.Policy.{
  Resource, concurrent_runs, runs_today, queue_depth, tokens_today, cost_today, workers,
  QuotaPolicy, limit_of, resolve_quota, coerce_row,
}
use rya.Quotas.Admission.{
  Kind, Usage, consumption, usage_for, applies_to, applicable, or_zero, usage_or, violation_of,
  violations, orgs_of, is_empty, Verdict, verdict_of, check_admission,
}

-- There is room under a limit.
abbrev pub Under : ℕ → Option ℕ → Type 0
Under current none = Unit
Under current (some limit) = current < limit

-- Every limit that applies to the kind of work has room.
abbrev pub HasRoom : QuotaPolicy → Kind → (Resource → ℕ) → Type 0
HasRoom p k current = (r : Resource) → applies_to k r ≡ true → Under (current r) (limit_of p r)

module _ (p : QuotaPolicy) (k : Kind) (usage : Usage) where
  Under-of_empty :
      (r : Resource)
      → violation_of p k usage r ≡ []
      → applies_to k r ≡ true
      → Under (or_zero (usage r)) (limit_of p r)
  unfolding violation_of
  Under-of_empty r = elim (Option-cases (limit_of p r)) [
    | inl n ↦ rw n (λ e h. tt)
    | inr (l, n) ↦ rw (n, violation_of) (λ e h. ground arith)
  ]

  empty_of_Under :
      (r : Resource)
      → (applies_to k r ≡ true → Under (or_zero (usage r)) (limit_of p r))
      → violation_of p k usage r ≡ []
  unfolding violation_of
  empty_of_Under r h = elim (Bool-cases (applies_to k r)) [
    | inl e ↦ elim (Option-cases (limit_of p r)) [
      | inl n ↦ rw (e, n)
      | inr (l, n) ↦ let room : or_zero (usage r) < l = rw n at (h e) in rw (e, n) (ground arith)
    ]
    | inr e ↦ rw e
  ]

append_empty : {A : Type 0} (xs ys : List A) → xs ++ ys ≡ [] → (xs ≡ []) × (ys ≡ [])
append_empty [] ys e = (refl, e)
append_empty (x ∷ xs) ys e = cc

empty_append : {A : Type 0} (xs ys : List A) → xs ≡ [] → ys ≡ [] → xs ++ ys ≡ []
empty_append xs ys e f = rw e f

last_empty : (orgs : List Json) → orgs_of orgs ≡ [] → orgs ≡ []
last_empty [] e = refl
last_empty (v ∷ vs) e = cc

empty_of_is_empty : {A : Type 0} (xs : List A) → is_empty xs ≡ true → xs ≡ []
empty_of_is_empty [] e = refl
empty_of_is_empty (x ∷ xs) e = cc

module _ (p : QuotaPolicy) (k : Kind) (usage : Usage) (orgs : List Json) where
  unviolated :
      violations p k usage orgs ≡ []
      → ((r : Resource) → violation_of p k usage r ≡ []) × (orgs ≡ [])
  unfolding violations
  unviolated e =
      let (a, e1) = append_empty _ _ e in
      let (b, e2) = append_empty _ _ e1 in
      let (c, e3) = append_empty _ _ e2 in
      let (d, e4) = append_empty _ _ e3 in
      let (f, e5) = append_empty _ _ e4 in
      let (g, e6) = append_empty _ _ e5 in
      (
        λ r. elim r as (λ r. violation_of p k usage r ≡ []) [
          | concurrent_runs ↦ a
          | runs_today ↦ b
          | queue_depth ↦ c
          | tokens_today ↦ d
          | cost_today ↦ f
          | workers ↦ g
        ],
        last_empty orgs e6,
      )

  none_violated :
      ((r : Resource) → violation_of p k usage r ≡ []) → orgs ≡ [] → violations p k usage orgs ≡ []
  unfolding violations
  none_violated h e =
      rw
        (h concurrent_runs, h runs_today, h queue_depth, h tokens_today, h cost_today, h workers, e)

-- A resource that an applicable limit counts is asked for, so its usage is what the store holds.
usage_asked :
    (p : QuotaPolicy) (k : Kind) (now : ℕ) (s : Store) (r : Resource) (l : ℕ)
    → limit_of p r ≡ some l
    → applies_to k r ≡ true
    → or_zero (usage_for (applicable p k) now s r) ≡ consumption now s r
unfolding usage_for applicable
usage_asked p k now s concurrent_runs l e h = ground arith
usage_asked p k now s runs_today l e h = ground arith
usage_asked p k now s queue_depth l e h = ground arith
usage_asked p k now s tokens_today l e h = ground arith
usage_asked p k now s cost_today l e h = ground arith
usage_asked p k now s workers l e h = ground arith

Under-usage :
    (p : QuotaPolicy) (k : Kind) (now : ℕ) (s : Store) (r : Resource)
    → applies_to k r ≡ true
    → Under (or_zero (usage_for (applicable p k) now s r)) (limit_of p r)
      ≡ Under (consumption now s r) (limit_of p r)
Under-usage p k now s r h = elim (Option-cases (limit_of p r)) [
  | inl n ↦ rw n
  | inr (l, n) ↦ ap (λ x. Under x (limit_of p r)) (usage_asked p k now s r l n h)
]

module _ (p : QuotaPolicy) (k : Kind) (now : ℕ) (s : Store) where
  -- Work is admitted exactly if every limit that is set and applies to its kind is above what the
  -- store holds, and no violation of the organization is on record.
  pub verdict_exact :
      ((verdict_of p k none now s).allowed ≡ true)
      ↔ (HasRoom p k (consumption now s) × (org_violations s ≡ []))
  unfolding verdict_of
  verdict_exact = (
    λ e.
        let found = empty_of_is_empty _ e in
        (
          λ r h.
              subst (λ t. t) (Under-usage p k now s r h)
                (Under-of_empty p k _ r ((unviolated p k _ _ found).0 r) h),
          (unviolated p k _ _ found).1,
        ),
    λ h. ap is_empty (
        none_violated p k _ _
          (λ r.
            empty_of_Under p k _ r
              (λ a. subst (λ t. t) (sym (Under-usage p k now s r a)) (h.0 r a)))
          h.1),
  )

  checked_verdict :
      (v : Verdict)
      → check_admission k none now s ≡ ok v
      → resolve_quota s ≡ ok p
      → v ≡ verdict_of p k none now s
  unfolding check_admission
  checked_verdict v e q = ground arith

refused :
    (row : Json)
    → truthy row ≡ true
    → ((fs : Fields) → row ≢ obj fs)
    → coerce_row row ≡ err e_quota_exceeded
unfolding coerce_row
refused (obj fs) t n = absurd (n fs refl)
refused null t n = cc
refused row t n = rw t

-- When the policy resolves and `check_admission` measures usage itself and returns a verdict, it
-- admits the work exactly if every limit that is set and applies to the kind of the work is above
-- what the store holds, and no violation of the organization is on record.
pub admission_exact :
    (k : Kind) (now : ℕ) (s : Store) (p : QuotaPolicy) (v : Verdict)
    → resolve_quota s ≡ ok p
    → check_admission k none now s ≡ ok v
    → (v.allowed ≡ true) ↔ (HasRoom p k (consumption now s) × (org_violations s ≡ []))
admission_exact k now s p v q e = rw (checked_verdict p k now s v e q) (verdict_exact p k now s)

resolved :
    (k : Kind) (given : Option Usage) (now : ℕ) (s : Store) (v : Verdict) (r : Result QuotaPolicy)
    → resolve_quota s ≡ r
    → check_admission k given now s ≡ ok v
    → (p : QuotaPolicy) × (resolve_quota s ≡ ok p) × (v ≡ verdict_of p k given now s)
unfolding check_admission
resolved k given now s v (ok p) q e = (p, q, ground arith)
resolved k given now s v (err c) q e = ground arith

-- What an admission on a given usage tells.
pub admitted-Under :
    (k : Kind) (given : Option Usage) (now : ℕ) (s : Store) (v : Verdict)
    → check_admission k given now s ≡ ok v
    → v.allowed ≡ true
    → (p : QuotaPolicy) × (resolve_quota s ≡ ok p)
      × ((r : Resource)
          → applies_to k r ≡ true
          → Under (or_zero (usage_or given p k now s r)) (limit_of p r))
      × (org_violations s ≡ [])
unfolding verdict_of
admitted-Under k given now s v e a =
    let (p, q, same) = resolved k given now s v (resolve_quota s) refl e in
    let found = empty_of_is_empty _ (ap (λ (w : Verdict). w.allowed) (sym same) ∙ a) in
    let (each, none_left) = unviolated p k _ _ found in
    (p, q, λ r. Under-of_empty p k _ r (each r), none_left)

-- A quota row that is neither empty nor an object makes `check_admission` raise E_QUOTA_EXCEEDED,
-- for every kind of work and every usage.
pub check_admission_raises :
    (k : Kind) (given : Option Usage) (now : ℕ) (s : Store)
    → truthy (policy_get "quotas" s) ≡ true
    → ((fs : Fields) → policy_get "quotas" s ≢ obj fs)
    → check_admission k given now s ≡ err e_quota_exceeded
unfolding check_admission resolve_quota
check_admission_raises k given now s t n = rw (refused (policy_get "quotas" s) t n, check_admission)
