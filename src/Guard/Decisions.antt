-- ===== src/Guard/Decisions.antt =====
-- What the guard decides (guard.py, `evaluate` and `resolve_policy`).
use rya.Prelude.{
  String, ◌≡◌, refl, sym, ap, ◌∙◌, ◌≢◌, ◌↔◌, ◌⊎◌, inl, inr, Bool, true, false, ◌&&◌, Option, none,
  some, List, [], ◌∷◌, Member, All, first_where, first_where-some, arith, Bool-cases,
}
use rya.Json.{Json, null, obj, Fields, get_field, has_field}
use rya.Errors.{err, e_egress_blocked}
use rya.Store.{Store}
use rya.Store.Reads.{policy_get}
use rya.Guard.Policy.{
  PyLib, Rule, GuardPolicy, is_enforced, is_text, closed_policy, policy_from_store, of_row,
  of_envelope,
}
use rya.Guard.Verdicts.{
  allows, blocks, is_ssrf, matches, guards_ssrf, evaluate, check_egress, by_deny, by_allow,
}

-- What a request must meet to be allowed.
pub record Passes (lib : PyLib) (url method : String) (p : GuardPolicy) : Type 0 where
  pub usable : p.broken ≡ false
  pub public_host : (guards_ssrf lib p && is_ssrf lib (lib.hostname url)) ≡ false
  pub undenied : All (λ r. matches lib url method r ≡ false) p.deny_rules
  pub admitted :
      ((r : Rule) × Member r p.allow_rules × (matches lib url method r ≡ true))
      ⊎ (is_text "allow" (get_field "default" p.document) ≡ true)

none_pass :
    {A : Type 0} (q : A → Bool) (xs : List A) → first_where q xs ≡ none → All (λ x. q x ≡ false) xs
none_pass q [] h = tt
none_pass q (x ∷ xs) h = ground (arith, none_pass q xs)

found_none :
    {A : Type 0} (q : A → Bool) (xs : List A) → All (λ x. q x ≡ false) xs → first_where q xs ≡ none
found_none q [] h = refl
found_none q (x ∷ xs) h = ground (arith, found_none q xs h.1)

found_some :
    {A : Type 0} (q : A → Bool) (x : A) (xs : List A)
    → Member x xs
    → q x ≡ true
    → (y : A) × (first_where q xs ≡ some y)
found_some q x [] m h = elim m [ ]
found_some q x (y ∷ ys) (inl e) h = (y, rw (← e, h) refl)
found_some q x (y ∷ ys) (inr m) h = elim (Bool-cases (q y)) [
  | inl e ↦ (y, rw e refl)
  | inr e ↦ let (z, f) = found_some q x ys m h in (z, rw e f)
]

module _ (lib : PyLib) (url method : String) (p : GuardPolicy) where
  abbrev denial : Option Rule
  denial = first_where (matches lib url method) p.deny_rules

  abbrev admission : Option Rule
  admission = first_where (matches lib url method) p.allow_rules

  evaluate_open :
      p.broken ≡ false
      → (guards_ssrf lib p && is_ssrf lib (lib.hostname url)) ≡ false
      → evaluate lib url method p ≡ by_deny lib denial admission p
  unfolding evaluate
  evaluate_open b g = rw b (rw g refl)

  allowed_by :
      (a : Option Rule)
      → admission ≡ a
      → (by_allow lib a p).decision ≡ allows
      → ((r : Rule) × Member r p.allow_rules × (matches lib url method r ≡ true))
        ⊎ (is_text "allow" (get_field "default" p.document) ≡ true)
  allowed_by (some r) e h =
      let (m, q) = first_where-some (matches lib url method) p.allow_rules r e in inl (r, m, q)
  allowed_by none e h = elim (Bool-cases (is_text "allow" (get_field "default" p.document))) [
    | inl t ↦ inr t
    | inr f ↦ cc (rw f at h)
  ]

  passed :
      (d : Option Rule)
      → denial ≡ d
      → p.broken ≡ false
      → (guards_ssrf lib p && is_ssrf lib (lib.hostname url)) ≡ false
      → (by_deny lib d admission p).decision ≡ allows
      → Passes lib url method p
  passed (some r) e b g h = cc
  passed none e b g h = record {
    usable = b;
    public_host = g;
    undenied = none_pass (matches lib url method) p.deny_rules e;
    admitted = allowed_by admission refl h;
  }

  allowed-Passes : (evaluate lib url method p).decision ≡ allows → Passes lib url method p
  unfolding evaluate
  allowed-Passes h = elim (Bool-cases p.broken) [
    | inl t ↦ cc (rw t at h)
    | inr b ↦ elim (Bool-cases (guards_ssrf lib p && is_ssrf lib (lib.hostname url))) [
      | inl t ↦ cc (rw (b, t) at h)
      | inr g ↦ passed denial refl b g (ap (λ x. x.decision) (sym (evaluate_open b g)) ∙ h)
    ]
  ]

  admits :
      (d a : Option Rule)
      → d ≡ none
      → ((r : Rule) × (a ≡ some r)) ⊎ (is_text "allow" (get_field "default" p.document) ≡ true)
      → (by_deny lib d a p).decision ≡ allows
  admits (some r) a e h = cc
  admits none (some r) e h = refl
  admits none none e (inl (r, f)) = cc
  admits none none e (inr f) = rw f refl

  Passes-allowed : Passes lib url method p → (evaluate lib url method p).decision ≡ allows
  Passes-allowed h =
      ap (λ x. x.decision) (evaluate_open h.usable h.public_host)
      ∙ admits denial admission (found_none (matches lib url method) p.deny_rules h.undenied)
          (elim h.admitted [
            | inl (r, m, q) ↦ inl (found_some (matches lib url method) r p.allow_rules m q)
            | inr t ↦ inr t
          ])

-- A policy allows a request exactly if the policy could be read, the host is not on the blocklist
-- of private hosts unless the policy turns that off, no deny rule matches, and an allow rule
-- matches or the default is to allow.
pub evaluate_exact :
    (lib : PyLib) (url method : String) (p : GuardPolicy)
    → ((evaluate lib url method p).decision ≡ allows) ↔ Passes lib url method p
evaluate_exact lib url method p = (allowed-Passes lib url method p, Passes-allowed lib url method p)

-- A stored value that is there, and holds no policy.
abbrev pub IsUnusable : Json → Type 0
IsUnusable v = elim v [
  | null ↦ ⊥
  | obj fs ↦ (has_field "policy" fs ≡ true) × ((gs : Fields) → get_field "policy" fs ≢ obj gs)
  | _ ↦ Unit
]

-- A policy that blocks a request.
abbrev Closed : PyLib → String → String → GuardPolicy → Type 0
Closed lib url method p =
    (is_enforced p ≡ true)
    × ((evaluate lib url method p).decision ≡ blocks)
    × (check_egress lib url method p ≡ err e_egress_blocked)

-- A stored policy row that is there but is no object, or whose `policy` is no object, is enforced
-- and blocks every request.
pub unusable_policy_blocks :
    (lib : PyLib) (ambient : GuardPolicy) (key url method : String) (s : Store)
    → IsUnusable (policy_get key s)
    → let p = policy_from_store lib ambient key s in
      (is_enforced p ≡ true)
      × ((evaluate lib url method p).decision ≡ blocks)
      × (check_egress lib url method p ≡ err e_egress_blocked)
unfolding policy_from_store closed_policy is_enforced evaluate check_egress
unusable_policy_blocks lib ambient key url method s h = by_row (policy_get key s) h
  where
    of_envelope-Closed :
        (v : Json) → ((gs : Fields) → v ≢ obj gs) → Closed lib url method (of_envelope lib v)
    of_envelope-Closed (obj gs) n = absurd (n gs refl)
    of_envelope-Closed null n = (refl, refl, refl)
    of_envelope-Closed (Json.bool b) n = (refl, refl, refl)
    of_envelope-Closed (Json.whole z) n = (refl, refl, refl)
    of_envelope-Closed (Json.millionths z) n = (refl, refl, refl)
    of_envelope-Closed (Json.text t) n = (refl, refl, refl)
    of_envelope-Closed (Json.arr vs) n = (refl, refl, refl)

    by_row : (v : Json) → IsUnusable v → Closed lib url method (of_row lib ambient v)
    by_row null k = elim k [ ]
    by_row (obj fs) k = rw k.0 (of_envelope-Closed (get_field "policy" fs) k.1)
    by_row (Json.bool b) k = (refl, refl, refl)
    by_row (Json.whole z) k = (refl, refl, refl)
    by_row (Json.millionths z) k = (refl, refl, refl)
    by_row (Json.text t) k = (refl, refl, refl)
    by_row (Json.arr vs) k = (refl, refl, refl)
