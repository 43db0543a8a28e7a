-- ===== src/Egress/Posture.antt =====
-- egress.py: the network posture of a sandbox, and what it permits.
use Prim.Native.Char.{code}
use rya.Prelude.{
  ℕ, String, Bool, true, false, not, ◌&&◌, ◌||◌, Option, none, some, List, [], ◌∷◌, ◌++◌, ◌==◌,
  str_eq, if◌then◌else◌,
}
use rya.Json.{Json, obj, get_field}
use rya.Words.{strip}
use rya.Errors.{Result, ok, err, python_error}
use rya.Guard.Policy.{PyLib, GuardPolicy, is_text, text_of, list_of}
use rya.Guard.Verdicts.{starts_with, any_of}

pub data Mode : Type 0 where
  unrestricted proxy netpolicy : Mode

-- NetworkPosture
pub record NetworkPosture : Type 0 where
  pub mode : Mode
  pub hosts : List String
  pub ports : List ℕ
  pub etag : String

-- NetworkPosture.enforced
abbrev pub restricts : Mode → Bool
restricts unrestricted = false
restricts proxy = true
restricts netpolicy = true

-- `if self.ports and port not in self.ports`
abbrev pub port_open : List ℕ → ℕ → Bool
port_open [] n = true
port_open (p ∷ ps) n = any_of (λ q. q == n) (p ∷ ps)

-- the host is known; reading the port may raise
abbrev pub permits_at : NetworkPosture → String → Option ℕ → Result Bool
permits_at p host none = err python_error
permits_at p host (some port) =
    ok (not (str_eq host "") && any_of (str_eq host) p.hosts && port_open p.ports port)

-- permits
unfoldable pub permits : PyLib → NetworkPosture → String → Result Bool
permits lib p url =
    if restricts p.mode then permits_at p (lib.hostname url) (lib.port url) else ok true

-- `s.split("://", 1)[-1]`
abbrev drop_three : String → String
drop_three (String.◌∷◌ a (String.◌∷◌ b (String.◌∷◌ c s))) = s
drop_three s = s

unfoldable pub behind_scheme : String → String → String
behind_scheme whole String.[] = whole
behind_scheme whole (String.◌∷◌ c s) =
    let later = behind_scheme whole s in
    if starts_with "://" (String.◌∷◌ c s) then drop_three (String.◌∷◌ c s) else later

-- `s.split(c)[0]`
unfoldable pub before_char : ℕ → String → String
before_char c String.[] = ""
before_char c (String.◌∷◌ d s) =
    let rest = before_char c s in if code d == c then "" else String.◌∷◌ d rest

abbrev or_here : Option String → Bool → String → Option String
or_here (some t) here s = some t
or_here none here s = if here then some s else none

-- what follows the last `@`
unfoldable pub behind_at : String → Option String
behind_at String.[] = none
behind_at (String.◌∷◌ d s) = or_here (behind_at s) (code d == b'@') s

-- `s.split("@")[-1]`
abbrev last_part : Option String → String → String
last_part none s = s
last_part (some t) s = t

-- `any(c in authority for c in "*?[")`
unfoldable pub has_wildcard : String → Bool
has_wildcard String.[] = false
has_wildcard (String.◌∷◌ d s) =
    let rest = has_wildcard s in code d == b'*' || code d == b'?' || code d == b'[' || rest

-- the authority of a pattern, without user and port
unfoldable pub authority_of : PyLib → String → String
unfolding behind_scheme before_char behind_at
authority_of lib raw =
    let whole = before_char b'/' (behind_scheme raw raw) in
    lib.lower (before_char b':' (last_part (behind_at whole) whole))

-- host_of_pattern
unfoldable pub host_of_pattern : PyLib → String → String
unfolding authority_of has_wildcard
host_of_pattern lib pattern =
    let raw = strip pattern in
    if str_eq raw "" then "" else let a = authority_of lib raw in if has_wildcard a then "" else a

-- the hosts of the allow rules, each once
abbrev pub add_host : String → List String → List String
add_host h hosts =
    if str_eq h "" then hosts else if any_of (str_eq h) hosts then hosts else hosts ++ h ∷ []

abbrev pub with_rule : PyLib → Json → List String → List String
with_rule lib (obj fs) hosts =
    if is_text "allow" (get_field "action" fs)
    then add_host (host_of_pattern lib (text_of (get_field "pattern" fs))) hosts
    else hosts
with_rule lib v hosts = hosts

unfoldable pub allowed_hosts : PyLib → List Json → List String → List String
unfolding host_of_pattern
allowed_hosts lib [] hosts = hosts
allowed_hosts lib (v ∷ vs) hosts = allowed_hosts lib vs (with_rule lib v hosts)

-- posture_from_policy, of a resolved policy
unfoldable pub posture_from_policy : PyLib → GuardPolicy → Mode → List ℕ → NetworkPosture
unfolding allowed_hosts
posture_from_policy lib p mode ports = record {
  mode = mode;
  hosts = allowed_hosts lib (list_of (get_field "rules" p.document)) [];
  ports = ports;
  etag = p.etag;
}
