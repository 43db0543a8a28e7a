-- ===== src/Guard/Verdicts.antt =====
-- guard.py: the verdict on one request (`evaluate`) and its enforcement (`check_egress`).
use Prim.Native.Char.{code}
use rya.Prelude.{
  String, Bool, true, false, ◌&&◌, ◌||◌, Option, none, some, List, [], ◌∷◌, first_where, ◌==◌,
  str_eq, if◌then◌else◌,
}
use rya.Json.{get_field, has_field, truthy}
use rya.Errors.{Result, ok, err, e_egress_blocked}
use rya.Guard.Policy.{PyLib, Rule, prefix, exact, glob, GuardPolicy, is_enforced, is_text}

-- `s.startswith(p)`
unfoldable pub starts_with : String → String → Bool
starts_with String.[] s = true
starts_with (String.◌∷◌ c p) String.[] = false
starts_with (String.◌∷◌ c p) (String.◌∷◌ d s) =
    let rest = starts_with p s in code c == code d && rest

-- the characters of a text from the end, and `s.endswith(p)`
abbrev ends_with : String → String → Bool
ends_with p String.[] = str_eq p ""
ends_with p (String.◌∷◌ c s) = let rest = ends_with p s in str_eq p (String.◌∷◌ c s) || rest

abbrev pub any_of : {A : Type 0} → (A → Bool) → List A → Bool
any_of p [] = false
any_of p (x ∷ xs) = p x || any_of p xs

pub data Decision : Type 0 where
  allows blocks : Decision

pub data Ground : Type 0 where
  unavailable ssrf_blocklist default_allow default_deny : Ground
  deny_rule allow_rule : Rule → Ground

pub record Judgement : Type 0 where
  pub decision : Decision
  pub ground : Ground

module _ (lib : PyLib) where
  -- is_ssrf
  unfoldable pub is_ssrf : String → Bool
  is_ssrf host =
      str_eq host ""
      || str_eq host "localhost"
      || str_eq host "metadata.google.internal"
      || str_eq host "169.254.169.254"
      || ends_with ".local" host
      || ends_with ".internal" host
      || lib.is_private host

  abbrev pub test_url : Rule → String → Bool
  test_url r url = elim r.kind [
    | prefix ↦ starts_with r.pattern url
    | exact ↦ str_eq url r.pattern
    | glob ↦ lib.glob r.pattern url
  ]

  abbrev pub test_method : Rule → String → Bool
  test_method r method = elim r.methods [
    | [] ↦ true
    | m ∷ ms ↦ any_of (λ x. str_eq (lib.upper x) (lib.upper method)) (m ∷ ms)
  ]

  -- _Matcher.matches
  unfoldable pub matches : String → String → Rule → Bool
  unfolding starts_with
  matches url method r = test_method r method && test_url r url

  -- `policy.get("ssrf", True)`
  abbrev pub guards_ssrf : GuardPolicy → Bool
  guards_ssrf p = if has_field "ssrf" p.document then truthy (get_field "ssrf" p.document) else true

  abbrev pub by_default : GuardPolicy → Judgement
  by_default p =
      if is_text "allow" (get_field "default" p.document)
      then record { decision = allows; ground = default_allow }
      else record { decision = blocks; ground = default_deny }

  abbrev pub by_allow : Option Rule → GuardPolicy → Judgement
  by_allow none p = by_default p
  by_allow (some r) p = record { decision = allows; ground = allow_rule r }

  abbrev pub by_deny : Option Rule → Option Rule → GuardPolicy → Judgement
  by_deny none a p = by_allow a p
  by_deny (some r) a p = record { decision = blocks; ground = deny_rule r }

  -- evaluate
  unfoldable pub evaluate : String → String → GuardPolicy → Judgement
  unfolding is_ssrf matches
  evaluate url method p =
      if p.broken
      then record { decision = blocks; ground = unavailable }
      else if guards_ssrf p && is_ssrf (lib.hostname url)
      then record { decision = blocks; ground = ssrf_blocklist }
      else by_deny (first_where (matches url method) p.deny_rules)
          (first_where (matches url method) p.allow_rules) p

  abbrev pub unless_blocked : Decision → Result (Unit {0})
  unless_blocked allows = ok tt
  unless_blocked blocks = err e_egress_blocked

  -- check_egress
  unfoldable pub check_egress : String → String → GuardPolicy → Result (Unit {0})
  unfolding evaluate
  check_egress url method p =
      if is_enforced p then unless_blocked (evaluate url method p).decision else ok tt
