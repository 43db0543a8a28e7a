-- ===== src/Egress/Sealed.antt =====
-- What leaves a sandbox (egress.py, `EgressService.fetch`).
use rya.Prelude.{
  ℕ, String, ◌≡◌, refl, sym, ◌∙◌, ◌≢◌, ◌⊎◌, inl, inr, Bool, true, false, Option, none, some, List,
  [], ◌∷◌, Member, All, All-append, All-Member, arith, Bool-cases, str_eq, eq_iff,
}
use rya.Json.{Json, Fields, obj, get_field}
use rya.Errors.{Result, ok, err}
use rya.Store.{Store}
use rya.Deployments.Resolves.{ok_injective}
use rya.Guard.Policy.{PyLib, GuardPolicy, is_enforced, is_text, text_of, list_of}
use rya.Guard.Verdicts.{Decision, allows, blocks, evaluate, any_of}
use rya.Guard.Decisions.{Passes, evaluate_exact}
use rya.Egress.Posture.{
  Mode, NetworkPosture, restricts, port_open, permits_at, permits, host_of_pattern, add_host,
  with_rule, allowed_hosts, posture_from_policy,
}
use rya.Egress.Service.{
  GuardSays, unset, says_allow, says_block, EgressService, said, lets_out, current_policy,
  guard_says, judged, check, fetch, fetch_checked,
}

-- A host that an allow rule of the policy names.
abbrev pub IsNamed : PyLib → List Json → String → Type 0
IsNamed lib rules host =
    (fs : Fields) × Member (obj fs) rules
    × (is_text "allow" (get_field "action" fs) ≡ true)
    × (host_of_pattern lib (text_of (get_field "pattern" fs)) ≡ host)

module _ (lib : PyLib) (rules : List Json) where
  add_host-IsNamed :
      (h : String) (hosts : List String)
      → IsNamed lib rules h
      → All (IsNamed lib rules) hosts
      → All (IsNamed lib rules) (add_host h hosts)
  add_host-IsNamed h hosts n k = elim (Bool-cases (str_eq h "")) [
    | inl e ↦ rw e k
    | inr e ↦ rw e (elim (Bool-cases (any_of (str_eq h) hosts)) [
      | inl f ↦ rw f k
      | inr f ↦ rw f (All-append (IsNamed lib rules) hosts (h ∷ []) k (n, tt))
    ])
  ]

  with_rule-IsNamed :
      (v : Json) (hosts : List String)
      → Member v rules
      → All (IsNamed lib rules) hosts
      → All (IsNamed lib rules) (with_rule lib v hosts)
  with_rule-IsNamed (obj fs) hosts m k =
      elim (Bool-cases (is_text "allow" (get_field "action" fs))) [
        | inl e ↦ rw e (add_host-IsNamed _ hosts (fs, m, e, refl) k)
        | inr e ↦ rw e k
      ]
  with_rule-IsNamed Json.null hosts m k = k
  with_rule-IsNamed (Json.bool b) hosts m k = k
  with_rule-IsNamed (Json.whole z) hosts m k = k
  with_rule-IsNamed (Json.millionths z) hosts m k = k
  with_rule-IsNamed (Json.text t) hosts m k = k
  with_rule-IsNamed (Json.arr vs) hosts m k = k

  allowed_hosts-IsNamed :
      (vs : List Json) (hosts : List String)
      → ((v : Json) → Member v vs → Member v rules)
      → All (IsNamed lib rules) hosts
      → All (IsNamed lib rules) (allowed_hosts lib vs hosts)
  unfolding allowed_hosts
  allowed_hosts-IsNamed [] hosts m k = k
  allowed_hosts-IsNamed (v ∷ vs) hosts m k =
      allowed_hosts-IsNamed vs _ (λ x n. m x (inr n)) (with_rule-IsNamed v hosts (m v (inl refl)) k)

any_of-Member : (h : String) (hosts : List String) → any_of (str_eq h) hosts ≡ true → Member h hosts
any_of-Member h [] e = cc
any_of-Member h (x ∷ xs) e = ground (arith, eq_iff h x, any_of-Member h xs)

-- What a request must meet to leave a sandbox whose network was set up from the policy `old`.
pub record Leaves (lib : PyLib) (old p : GuardPolicy) (ports : List ℕ) (url method : String)
    : Type 0 where
  pub host : IsNamed lib (list_of (get_field "rules" old.document)) (lib.hostname url)
  pub port : (n : ℕ) × (lib.port url ≡ some n) × (port_open ports n ≡ true)
  pub guard : (is_enforced p ≡ false) ⊎ Passes lib url method p

module _ (lib : PyLib) (old : GuardPolicy) (mode : Mode) (ports : List ℕ)
    (restricted : restricts mode ≡ true) where
  abbrev posture : NetworkPosture
  posture = posture_from_policy lib old mode ports

  permitted :
      (url : String)
      → permits lib posture url ≡ ok true
      → IsNamed lib (list_of (get_field "rules" old.document)) (lib.hostname url)
        × ((n : ℕ) × (lib.port url ≡ some n) × (port_open ports n ≡ true))
  unfolding permits posture_from_policy
  permitted url h = by_port (lib.port url) refl (sym (rw restricted refl) ∙ h)
    where
      by_port :
          (o : Option ℕ)
          → lib.port url ≡ o
          → permits_at posture (lib.hostname url) o ≡ ok true
          → IsNamed lib (list_of (get_field "rules" old.document)) (lib.hostname url)
            × ((n : ℕ) × (lib.port url ≡ some n) × (port_open ports n ≡ true))
      by_port none e k = cc
      by_port (some n) e k =
          let passes = ok_injective _ _ k in
          let known : any_of (str_eq (lib.hostname url)) posture.hosts ≡ true = ground arith in
          (
            All-Member (IsNamed lib (list_of (get_field "rules" old.document))) (lib.hostname url)
                posture.hosts
                (allowed_hosts-IsNamed lib (list_of (get_field "rules" old.document)) _ []
                  (λ v m. m) tt)
                (any_of-Member (lib.hostname url) posture.hosts known),
            (n, e, ground arith),
          )

module _ (lib : PyLib) (ambient : GuardPolicy) (s : Store) {W A : Type 0}
    (request : String → String → W → Result A × W) (url method : String) (e : EgressService)
    (w : W) where
  -- Nothing is sent unless the network permits it and the guard does not block it.
  sent_only :
      (g : GuardSays) (o : Result Bool)
      → (fetch_checked lib ambient s request url method (judged lib ambient s url method g o e) w).2
        ≢ w
      → (o ≡ ok true) × (lets_out g true ≡ true)
  sent_only g (err c) ne = absurd (ne refl)
  sent_only unset (ok true) ne = (refl, refl)
  sent_only says_allow (ok true) ne = (refl, refl)
  sent_only says_block (ok true) ne = absurd (ne refl)
  sent_only unset (ok false) ne = absurd (ne refl)
  sent_only says_allow (ok false) ne = absurd (ne refl)
  sent_only says_block (ok false) ne = absurd (ne refl)

  guard_passed :
      (p : GuardPolicy)
      → lets_out (guard_says lib ambient s url method p) true ≡ true
      → (is_enforced p ≡ false) ⊎ Passes lib url method p
  unfolding guard_says
  guard_passed p h = elim (Bool-cases (is_enforced p)) [
    | inr f ↦ inl f
    | inl t ↦ inr (by_decision (evaluate lib url method p).decision refl (rw t at h))
  ]
    where
      by_decision :
          (d : Decision)
          → (evaluate lib url method p).decision ≡ d
          → lets_out (said d) true ≡ true
          → Passes lib url method p
      by_decision allows q k = (evaluate_exact lib url method p).0 q
      by_decision blocks q k = cc

-- When a service whose posture restricts the network, and was set up from the policy `old`, sends
-- a request: the host of the URL is that of the pattern of an allow rule of `old`, its port is
-- one of the ports of the posture (any, if that names none), and the current policy of the agent,
-- if one is enforced, allows the request.
pub fetch_seals :
    (lib : PyLib) (ambient old : GuardPolicy) (s : Store) {W A : Type 0}
    (request : String → String → W → Result A × W) (url method : String) (e : EgressService) (w : W)
    (mode : Mode) (ports : List ℕ)
    → restricts mode ≡ true
    → e.posture ≡ posture_from_policy lib old mode ports
    → (fetch lib ambient s request url method e w).2 ≢ w
    → Leaves lib old (current_policy lib ambient s e) ports url method
unfolding fetch check
fetch_seals lib ambient old s request url method e w mode ports restricted set_up ne =
    let p = current_policy lib ambient s e in
    let (open_net, open_guard) =
      sent_only lib ambient s request url method e w (guard_says lib ambient s url method p)
        (permits lib e.posture url) ne in
    let (host, port) = permitted lib old mode ports restricted url (rw (← set_up) open_net) in
    record {
      host = host;
      port = port;
      guard = guard_passed lib ambient s request url method e w p open_guard;
    }
