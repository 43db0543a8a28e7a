-- ===== src/Quotas/RoundTrip.antt =====
-- `set_quota` and what `resolve_quota` reads behind it (quotas.py).
use rya.Prelude.{ℕ, String, ◌≡◌, refl, ◌⊎◌, inl, inr, Option, eq_refl}
use rya.Json.{Json, obj, Fields}
use rya.Errors.{Code, Result, ok, err}
use rya.Store.{Store}
use rya.Store.Table
use rya.Store.Reads.{policy_get, policy_set, policy_id}
use rya.Quotas.Policy.{QuotaPolicy, coerce_policy, coerce_row, resolve_quota, set_quota}

policy_get-policy_set :
    (now : ℕ) (key : String) (value : Json) (actor : Option String) (s : Store)
    → policy_get key (policy_set now key value actor s) ≡ value
unfolding policy_get policy_set
policy_get-policy_set now key value actor s =
    rw (Table.get-save policy_id key _ s.policies, eq_refl key)

module _ (now : ℕ) (fs : Fields) (actor : Option String) (s : Store) where
  abbrev Outcome : Type 0
  Outcome =
      ((c : Code) × (coerce_policy fs ≡ err c) × (set_quota now (obj fs) actor s ≡ (err c, s)))
      ⊎ ((p : QuotaPolicy) × (coerce_policy fs ≡ ok p)
          × ((set_quota now (obj fs) actor s).0 ≡ ok tt)
          × (resolve_quota (set_quota now (obj fs) actor s).1 ≡ ok p))

  outcome_of : (r : Result QuotaPolicy) → coerce_policy fs ≡ r → Outcome
  unfolding set_quota resolve_quota coerce_row
  outcome_of (err c) e = inl (c, e, rw (e, set_quota))
  outcome_of (ok p) e = inr (
    p,
    e,
    rw (e, set_quota),
    rw (e, set_quota) (rw (policy_get-policy_set now "quotas" (obj fs) actor s) e),
  )

  -- Setting a quota object is refused with the code that its coercion raises, and nothing is
  -- written, or it succeeds and `resolve_quota` reads back the policy that the object coerces to.
  pub set_quota-resolve_quota :
      ((c : Code) × (coerce_policy fs ≡ err c) × (set_quota now (obj fs) actor s ≡ (err c, s)))
      ⊎ ((p : QuotaPolicy) × (coerce_policy fs ≡ ok p)
          × ((set_quota now (obj fs) actor s).0 ≡ ok tt)
          × (resolve_quota (set_quota now (obj fs) actor s).1 ≡ ok p))
  set_quota-resolve_quota = outcome_of (coerce_policy fs) refl
