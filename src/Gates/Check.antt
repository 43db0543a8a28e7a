-- ===== src/Gates/Check.antt =====
-- gates.py: the attestations of a version, and the check of a promotion against them.
use rya.Prelude.{
  ℕ, String, Bool, true, false, not, ◌&&◌, ◌||◌, Option, none, some, List, [], ◌∷◌, ◌++◌, ltb, keep,
  last?, str_eq, if◌then◌else◌,
}
use rya.Json.{Fields, get_field, truthy}
use rya.Errors.{Exec, Result, ok, err, e_promotion_blocked}
use rya.Words.{strip}
use rya.Store.{Store}
use rya.Store.Docs.{Version, Evidence, readiness, evals, override, Attestation}
use rya.Gates.Policy.{Gate, resolve_gate}

-- version_attest; `fresh` is the id that `_new_id` makes
unfoldable pub version_attest :
    ℕ → String → Version → Option String → Bool → Evidence → Store → Store
version_attest now fresh v actor passed evidence s = record s {
  attestations =
      s.attestations
      ++ (record {
        id = fresh;
        version_id = v.id;
        created_at = now;
        actor = actor;
        bundle_hash = some v.bundle_hash;
        ok = passed;
        evidence = evidence;
      })
        ∷ [];
}

-- `bool(report.get("ready"))` and the counts of its summary
unfoldable pub attest_readiness :
    ℕ → String → Version → Bool → ℕ → ℕ → Option String → Store → Store
unfolding version_attest
attest_readiness now fresh v ready blocks warnings actor =
    version_attest now fresh v actor ready (readiness blocks warnings)

-- what `attest_evals` keeps of an eval run
pub record EvalRun : Type 0 where
  pub passes : Bool
  pub total : ℕ
  pub passed : ℕ
  pub failed : ℕ
  pub score : Option ℕ
  pub has_evals : Bool

unfoldable pub attest_evals : ℕ → String → Version → EvalRun → Option String → Store → Store
unfolding version_attest
attest_evals now fresh v r actor =
    version_attest now fresh v actor r.passes (evals r.total r.passed r.failed r.score r.has_evals)

abbrev pub is_readiness : Evidence → Bool
is_readiness (readiness blocks warnings) = true
is_readiness _ = false

abbrev pub is_evals : Evidence → Bool
is_evals (evals total passed failed score has_evals) = true
is_evals _ = false

-- version_attestations, then `_latest`
unfoldable pub latest : String → (Evidence → Bool) → Store → Option Attestation
latest i is_kind s = last? (keep (λ a. str_eq a.version_id i && is_kind a.evidence) s.attestations)

-- an attestation that names another bundle than the version's
unfoldable pub mismatched : Version → Attestation → Bool
mismatched v a = elim a.bundle_hash [
  | none ↦ false
  | some h ↦ not (str_eq h "") && not (str_eq h v.bundle_hash)
]

abbrev pub warnings_of : Evidence → ℕ
warnings_of (readiness blocks warnings) = warnings
warnings_of _ = 0

-- the branches of the readiness check
unfoldable pub readiness_passes : Gate → Version → Option Attestation → Bool
unfolding mismatched
readiness_passes g v none = false
readiness_passes g v (some a) =
    if mismatched v a
    then false
    else if not a.ok
    then false
    else if not g.allow_warnings && ltb 0 (warnings_of a.evidence)
    then false
    else true

abbrev pub below : Option ℕ → ℕ → Bool
below none least = false
below (some score) least = ltb score least

-- the branches of the eval check
unfoldable pub evals_passes : Gate → Option Attestation → Bool
evals_passes g none = false
evals_passes g (some a) = elim a.evidence [
  | evals total passed failed score has_evals ↦
      if not has_evals
      then false
      else if not a.ok
      then false
      else if below score g.min_eval_score
      then false
      else true
  | readiness blocks warnings ↦ false
  | override environment bypassed ↦ false
]

-- `bool((actor or "").strip())`
abbrev pub is_named : Option String → Bool
is_named none = false
is_named (some a) = not (str_eq (strip a) "")

-- `not missing`
unfoldable pub provenance_present : List String → Fields → Bool
provenance_present [] metadata = true
provenance_present (k ∷ ks) metadata =
    truthy (get_field k metadata) && provenance_present ks metadata

pub record GateCheck : Type 0 where
  pub name : String
  pub passes : Bool

abbrev pub check_if : Bool → String → Bool → List GateCheck
check_if true name passes = (record { name = name; passes = passes }) ∷ []
check_if false name passes = []

abbrev pub nonempty : List String → Bool
nonempty [] = false
nonempty (k ∷ ks) = true

-- the checks of `check_promotion`, in order
unfoldable pub checks_of : Gate → Version → Option String → Store → List GateCheck
checks_of g v actor s =
    check_if g.require_readiness "readiness" (readiness_passes g v (latest v.id is_readiness s))
    ++ (check_if g.require_evals "evals" (evals_passes g (latest v.id is_evals s))
        ++ (check_if g.require_actor "actor" (is_named actor)
            ++ check_if (nonempty g.require_provenance) "provenance"
                (provenance_present g.require_provenance v.metadata)))

abbrev pub all_ok : List GateCheck → Bool
all_ok [] = true
all_ok (c ∷ cs) = c.passes && all_ok cs

-- GateResult
pub record GateResult : Type 0 where
  pub allowed : Bool
  pub gate : Gate
  pub checks : List GateCheck

-- PromotionGate.enforced
unfoldable pub enforced : Gate → Bool
enforced g =
    g.require_readiness || g.require_evals || g.require_actor || nonempty g.require_provenance

abbrev pub result_of : Gate → Version → Option String → Store → GateResult
result_of g v actor s =
    let checks = checks_of g v actor s in
    record { allowed = all_ok checks; gate = g; checks = checks }

-- check_promotion
unfoldable pub check_promotion : Version → String → Option String → Store → Result GateResult
check_promotion v environment actor s = elim (resolve_gate environment v.agent s) [
  | ok g ↦ ok (result_of g v actor s)
  | err c ↦ err c
]

-- the names of `GateResult.blocked`
unfoldable pub bypassed : List GateCheck → List String
bypassed [] = []
bypassed (c ∷ cs) = if c.passes then bypassed cs else c.name ∷ bypassed cs

-- the part of `require_promotion` behind the check
unfoldable pub enforce :
    ℕ → String → Version → String → Option String → Bool → GateResult → Exec Store GateResult
unfolding version_attest
enforce now fresh v environment actor force r s =
    if r.allowed || not (enforced r.gate)
    then (ok r, s)
    else if force
    then (ok r, version_attest now fresh v actor true (override environment (bypassed r.checks)) s)
    else (err e_promotion_blocked, s)

-- require_promotion
unfoldable pub require_promotion :
    ℕ → String → Version → String → Option String → Bool → Exec Store GateResult
require_promotion now fresh v environment actor force s =
    elim (check_promotion v environment actor s) [
      | ok r ↦ enforce now fresh v environment actor force r s
      | err c ↦ (err c, s)
    ]
