-- ===== src/Gates/Policy.antt =====
-- gates.py: the gate policy of an environment. Scores are in millionths; the entries of
-- `requireProvenance` are texts.
use Prim.Native.String.{◌++◌ as join}
use rya.Prelude.{
  ℕ, String, Bool, true, false, not, ◌&&◌, ◌||◌, Option, none, some, List, [], ◌∷◌, leb, str_eq,
  if◌then◌else◌,
}
use rya.Prelude.Int.{ℤ, pos, negsuc}
use rya.Json.{
  Json, null, arr, obj, text, Items, nil, item, Fields, end, field, get_field, has_field, truthy,
}
use rya.Errors.{Result, ok, err, e_validation, e_promotion_blocked, python_error}
use rya.Store.{Store}
use rya.Store.Reads.{policy_get}
use rya.Quotas.Casts.{float_of, million}

-- policy_key
unfoldable pub policy_key : Option String → String
policy_key none = "promotion"
policy_key (some agent) = if str_eq agent "" then "promotion" else join "promotion:" agent

-- `own if own is not None else`
abbrev own_or : Json → Json → Json
own_or null legacy = legacy
own_or own legacy = own

abbrev or_empty : Json → Json
or_empty v = if truthy v then v else obj end

-- gate_policy
unfoldable pub gate_policy : String → Store → Json
unfolding policy_key
gate_policy agent s =
    let legacy = or_empty (policy_get "promotion" s) in
    if str_eq agent "" then legacy else own_or (policy_get (policy_key (some agent)) s) legacy

-- PromotionGate
pub record Gate : Type 0 where
  pub require_readiness : Bool
  pub require_evals : Bool
  pub min_eval_score : ℕ
  pub allow_warnings : Bool
  pub require_actor : Bool
  pub require_provenance : List String

-- the keys of `_GATE_FIELDS`
abbrev known_key : String → Bool
known_key k =
    str_eq k "requireReadiness"
    || str_eq k "requireEvals"
    || str_eq k "minEvalScore"
    || str_eq k "allowWarnings"
    || str_eq k "requireActor"
    || str_eq k "requireProvenance"

unfoldable pub known_gate : Fields → Bool
known_gate end = true
known_gate (field k v fs) = known_key k && known_gate fs

-- `bool(value)`, or the default of an absent key
abbrev flag : String → Bool → Fields → Bool
flag k default fs = if has_field k fs then truthy (get_field k fs) else default

abbrev texts : Items → List String
texts nil = []
texts (item (text s) vs) = s ∷ texts vs
texts (item v vs) = texts vs

abbrev provenance_of : Json → Result (List String)
provenance_of (arr vs) = ok (texts vs)
provenance_of v = err e_validation

abbrev in_unit : Option ℤ → Result ℕ
in_unit none = err e_validation
in_unit (some (negsuc n)) = err e_validation
in_unit (some (pos n)) = if leb n million then ok n else err e_validation

abbrev with_score : Fields → Result ℕ → Result (List String) → Result Gate
with_score fs (err c) names = err c
with_score fs (ok score) (err c) = err c
with_score fs (ok score) (ok names) = ok (record {
  require_readiness = flag "requireReadiness" false fs;
  require_evals = flag "requireEvals" false fs;
  min_eval_score = score;
  allow_warnings = flag "allowWarnings" true fs;
  require_actor = flag "requireActor" false fs;
  require_provenance = names;
})

-- _coerce
unfoldable pub coerce_gate : Fields → Result Gate
coerce_gate fs =
    if not (known_gate fs)
    then err e_validation
    else with_score fs
        (if has_field "minEvalScore" fs
          then in_unit (float_of (get_field "minEvalScore" fs))
          else ok million)
        (if has_field "requireProvenance" fs
          then provenance_of (get_field "requireProvenance" fs)
          else ok [])

-- `{**default, **per_env}`: the first entry of a key counts
unfoldable pub merged : Fields → Fields → Fields
merged end default = default
merged (field k v fs) default = field k v (merged fs default)

-- `(policy.get("environments") or {}).get(environment) or {}`
abbrev entry_of : String → Json → Result Json
entry_of environment (obj fs) = ok (or_empty (get_field environment fs))
entry_of environment v = err python_error

abbrev gate_of : Json → Result Json → Result Gate
gate_of default (err c) = err c
gate_of (obj fs) (ok (obj gs)) = coerce_gate (merged gs fs)
gate_of default (ok v) = err e_promotion_blocked

abbrev gate_in : String → Json → Result Gate
gate_in environment (obj fs) =
    gate_of (or_empty (get_field "default" fs))
      (entry_of environment (or_empty (get_field "environments" fs)))
gate_in environment v = err e_promotion_blocked

-- resolve_gate
unfoldable pub resolve_gate : String → String → Store → Result Gate
resolve_gate environment agent s = gate_in environment (gate_policy agent s)
