-- ===== src/Quotas/Cases.antt =====
-- `require_admission` (quotas.py) by cases: it admits with a verdict, or raises; it writes nothing.
use mathlib.Core.Path.{subst}
use rya.Prelude.{ℕ, ◌≡◌, refl, sym, ap, ◌∙◌, true, Option, if◌then◌else◌}
use rya.Errors.{
  Exec, Result, ok, err, Code, e_quota_exceeded, e_workspace_disabled, then_run, require_cases,
  if_cases, lifted_cases, require, ◌>>=◌, pure, raise,
}
use rya.Store.{Store}
use rya.Purge.{lifecycle, is_active, Lifecycle, require_active}
use rya.Quotas.Admission.{Kind, Usage, Verdict, check_admission, require_admission}

-- What an admission rests on.
pub record IsAdmitted (k : Kind) (given : Option Usage) (now : ℕ) (s : Store) (v : Verdict)
    : Type 0 where
  pub lives : (l : Lifecycle) × (lifecycle s ≡ ok l) × (is_active l ≡ true)
  pub checked : check_admission k given now s ≡ ok v
  pub allowed : v.allowed ≡ true

module _ (k : Kind) (given : Option Usage) (now : ℕ) (s : Store) where
  abbrev Explained : Result Verdict → Type 0
  Explained (ok v) = IsAdmitted k given now s v
  Explained (err c) = Unit

  abbrev Outcome : Result Verdict × Store → Type 0
  Outcome x = (r : Result Verdict) × (x ≡ (r, s)) × Explained r

  abbrev rest : Exec Store Verdict
  rest = (λ s. (check_admission k given now s, s)) >>= λ v.
      if v.allowed then pure v else raise e_quota_exceeded

  decided : (l : Lifecycle) → lifecycle s ≡ ok l → is_active l ≡ true → Outcome (rest s)
  decided l lives active =
      lifted_cases Outcome s (check_admission k given now s) _
        (λ v checked.
          if_cases Outcome s v.allowed _ _
            (λ e.
              (ok v, refl, record { lives = (l, lives, active); checked = checked; allowed = e }))
            (λ e. (err e_quota_exceeded, refl, tt)))
        (λ c e. (err c, refl, tt))

  pub require_admission_lem : Outcome (require_admission k given now s)
  unfolding require_admission require_active
  require_admission_lem =
      lifted_cases (λ x. Outcome (then_run x (λ u. rest))) s (lifecycle s) _
        (λ l lives.
          require_cases Outcome s (is_active l) e_workspace_disabled rest (decided l lives)
            (λ e. (err e_workspace_disabled, refl, tt)))
        (λ c e. (err c, refl, tt))

  decides : Verdict → Exec Store Verdict
  decides v = if v.allowed then pure v else raise e_quota_exceeded

  -- The other way round: these facts admit.
  pub admits :
      (l : Lifecycle) (v : Verdict)
      → lifecycle s ≡ ok l
      → is_active l ≡ true
      → check_admission k given now s ≡ ok v
      → v.allowed ≡ true
      → require_admission k given now s ≡ (ok v, s)
  unfolding require_admission require_active decides
  admits l v lives active checked allowed =
      ap
        (λ (r : Result Lifecycle).
          then_run (then_run (r, s) (λ l. require (is_active l) e_workspace_disabled)) (λ u. rest))
        lives
      ∙ (ap (λ b. then_run (require b e_workspace_disabled s) (λ u. rest)) active
          ∙ (ap (λ (r : Result Verdict). then_run (r, s) decides) checked
              ∙ ap (λ b. (if b then pure v else raise e_quota_exceeded) s) allowed))

module _ {A : Type 0} (P : Result A × Store → Type 0) (k : Kind) (given : Option Usage) (now : ℕ)
    (s : Store) (f : Verdict → Exec Store A) where
  explained_cases :
      (r : Result Verdict)
      → Explained k given now s r
      → ((v : Verdict) → IsAdmitted k given now s v → P (f v s))
      → ((c : Code) → P (err c, s))
      → P (then_run (r, s) f)
  explained_cases (ok v) h good bad = good v h
  explained_cases (err c) h good bad = bad c

  pub admission_cases :
      ((v : Verdict) → IsAdmitted k given now s v → P (f v s))
      → ((c : Code) → P (err c, s))
      → P (then_run (require_admission k given now s) f)
  admission_cases good bad =
      let (r, e, h) = require_admission_lem k given now s in
      subst (λ x. P (then_run x f)) (sym e) (explained_cases r h good bad)
