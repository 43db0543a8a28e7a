-- ===== src/Errors.antt =====
-- errors.py: the stable error codes of `RyaError`, and actions that change the store and may raise.
-- A message, a hint and the details of an error are left out: callers branch on the code alone.
use rya.Prelude.{◌≡◌, refl, Bool, true, false, if◌then◌else◌}

pub data Code : Type 0 where
  e_validation e_job_not_found e_queue_conflict e_quota_exceeded e_workspace_disabled : Code
  e_promotion_blocked e_version_not_found e_version_retired e_version_in_use : Code
  e_bundle_mismatch e_environment_not_found e_approval_not_found e_approval_not_pending : Code
  e_run_not_found e_run_not_paused e_scope_denied e_handler_not_found : Code
  e_egress_blocked e_egress_denied : Code
  -- an exception that is no `RyaError`, such as a `TypeError`
  python_error : Code

pub data Result {ℓ} (A : Type ℓ) : Type ℓ where
  ok : A → Result A
  err : Code → Result A

-- What was written before a raise stays written: the store comes back beside the error too.
abbrev pub Exec {ℓ} : Type ℓ → Type ℓ → Type ℓ
Exec S A = S → Result A × S

abbrev pub then_run {ℓ} : {S A B : Type ℓ} → Result A × S → (A → Exec S B) → Result B × S
then_run (ok a, s) f = f a s
then_run (err c, s) f = (err c, s)

infixl 5 ◌>>=◌ ◌>>◌
abbrev pub ◌>>=◌ {ℓ} : {S A B : Type ℓ} → Exec S A → (A → Exec S B) → Exec S B
◌>>=◌ m f s = then_run (m s) f

abbrev pub ◌>>◌ {ℓ} : {S A B : Type ℓ} → Exec S A → Exec S B → Exec S B
m >> k = m >>= λ _. k

abbrev pub pure {ℓ} : {S A : Type ℓ} → A → Exec S A
pure a s = (ok a, s)

abbrev pub raise {ℓ} : {S A : Type ℓ} → Code → Exec S A
raise c s = (err c, s)

abbrev pub lift {ℓ} : {S A : Type ℓ} → Result A → Exec S A
lift r s = (r, s)

-- `if not test: raise RyaError(code, ...)`
abbrev pub require : {S : Type 0} → Bool → Code → Exec S Unit
require true c s = (ok tt, s)
require false c s = (err c, s)

-- Case rules: what holds of the result and the store on each branch.
module _ {S A : Type 0} (P : Result A × S → Type 0) (s : S) where
  pub require_cases :
      (b : Bool) (c : Code) (k : Exec S A)
      → (b ≡ true → P (k s))
      → (b ≡ false → P (err c, s))
      → P (then_run (require b c s) (λ _. k))
  require_cases true c k yes_case no_case = yes_case refl
  require_cases false c k yes_case no_case = no_case refl

  pub if_cases :
      (b : Bool) (m n : Exec S A)
      → (b ≡ true → P (m s))
      → (b ≡ false → P (n s))
      → P ((if b then m else n) s)
  if_cases true m n yes_case no_case = yes_case refl
  if_cases false m n yes_case no_case = no_case refl

module _ {S A B : Type 0} (P : Result A × S → Type 0) (s : S) where
  pub lifted_cases :
      (r : Result B) (k : B → Exec S A)
      → ((b : B) → r ≡ ok b → P (k b s))
      → ((c : Code) → r ≡ err c → P (err c, s))
      → P (then_run (r, s) k)
  lifted_cases (ok b) k good bad = good b refl
  lifted_cases (err c) k good bad = bad c refl
