-- ===== src/Gates/Exact.antt =====
-- What the check of a promotion (gates.py) admits, and what an override leaves behind.
use mathlib.Core.Option.{some-injective}
use rya.Prelude.{
  ℕ, ◌≤◌, ◌≢◌, not, ◌⊎◌, ◌∙◌, ap, str_eq, eq_iff, String, Bool, true, false, ◌&&◌, Option, none,
  some, List, [], ◌∷◌, ◌++◌, ◌≡◌, refl, sym, ◌↔◌, inl, inr, arith, Bool-cases,
}
use rya.Json.{Fields, get_field, truthy}
use rya.Errors.{ok}
use rya.Store.{Store}
use rya.Store.Docs.{Version, Evidence, readiness, evals, override, Attestation}
use rya.Words.{strip}
use rya.Gates.Newest.{Newest, IsReport, IsEvalRun, latest_report, latest_eval}
use rya.Gates.Policy.{Gate, resolve_gate}
use rya.Gates.Check.{
  GateCheck, is_readiness, is_evals, latest, mismatched, warnings_of, below, readiness_passes,
  evals_passes, is_named, provenance_present, nonempty, check_if, checks_of, all_ok, GateResult,
  result_of, check_promotion,
}

-- The newest readiness report of the version passed, names no other bundle than the version's, and
-- has no warnings unless they are allowed.
pub record IsReady (g : Gate) (v : Version) (s : Store) : Type 0 where
  pub report : Attestation
  pub newest : Newest (IsReport v.id) report s.attestations
  pub own :
      (report.bundle_hash ≡ none)
      ⊎ (report.bundle_hash ≡ some "")
      ⊎ (report.bundle_hash ≡ some v.bundle_hash)
  pub passed : report.ok ≡ true
  pub quiet :
      (blocks warnings : ℕ)
      → g.allow_warnings ≡ false
      → report.evidence ≡ readiness blocks warnings
      → warnings ≡ 0

-- The newest eval run of the version had cases, passed, and has no score or one that is at least
-- what the gate asks for.
pub record IsEvaluated (g : Gate) (v : Version) (s : Store) : Type 0 where
  pub report : Attestation
  pub newest : Newest (IsEvalRun v.id) report s.attestations
  pub total : ℕ
  pub passes : ℕ
  pub fails : ℕ
  pub score : Option ℕ
  pub shown : report.evidence ≡ evals total passes fails score true
  pub passed : report.ok ≡ true
  pub high : (x : ℕ) → score ≡ some x → g.min_eval_score ≤ x

abbrev pub Each : List String → Fields → Type 0
Each [] metadata = Unit
Each (k ∷ ks) metadata = (truthy (get_field k metadata) ≡ true) × Each ks metadata

abbrev pub Named : Option String → Type 0
Named actor = (a : String) × (actor ≡ some a) × (strip a ≢ "")

-- What a gate demands.
pub record Meets (g : Gate) (v : Version) (actor : Option String) (s : Store) : Type 0 where
  pub ready : g.require_readiness ≡ true → IsReady g v s
  pub evaluated : g.require_evals ≡ true → IsEvaluated g v s
  pub signed : g.require_actor ≡ true → Named actor
  pub sourced : Each g.require_provenance v.metadata

own_bundle :
    (v : Version) (a : Attestation)
    → (mismatched v a ≡ false)
      ↔ ((a.bundle_hash ≡ none) ⊎ (a.bundle_hash ≡ some "") ⊎ (a.bundle_hash ≡ some v.bundle_hash))
unfolding mismatched
own_bundle v a = by_hash a.bundle_hash
  where
    by_hash :
        (o : Option String)
        → (elim o [ none ↦ false | some h ↦ not (str_eq h "") && not (str_eq h v.bundle_hash) ]
            ≡ false)
          ↔ ((o ≡ none) ⊎ (o ≡ some "") ⊎ (o ≡ some v.bundle_hash))
    by_hash none = (λ e. inl refl, λ e. refl)
    by_hash (some h) = (
      λ e. ground (arith, eq_iff h "", eq_iff h v.bundle_hash),
      λ e. ground (arith, eq_iff h "", eq_iff h v.bundle_hash),
    )

no_warnings :
    (e : Evidence)
    → ((blocks warnings : ℕ) → e ≡ readiness blocks warnings → warnings ≡ 0)
    → warnings_of e ≡ 0
no_warnings (readiness b w) h = h b w refl
no_warnings (evals t p f sc has) h = refl
no_warnings (override en by) h = refl

module _ (g : Gate) (v : Version) (s : Store) where
  IsReady-to :
      (o : Option Attestation)
      → latest v.id is_readiness s ≡ o
      → readiness_passes g v o ≡ true
      → IsReady g v s
  unfolding readiness_passes
  IsReady-to none e h = cc
  IsReady-to (some a) e h =
      let fits : mismatched v a ≡ false = ground arith in
      let quiet : g.allow_warnings ≡ false → warnings_of a.evidence ≡ 0 = λ q. ground arith in
      record {
        report = a;
        newest = (latest_report v.id a s).0 e;
        own = (own_bundle v a).0 fits;
        passed = ground arith;
        quiet = λ b w q shown. ap warnings_of (sym shown) ∙ quiet q;
      }

  IsReady-from : IsReady g v s → readiness_passes g v (latest v.id is_readiness s) ≡ true
  unfolding readiness_passes
  IsReady-from r =
      let found = (latest_report v.id r.report s).1 r.newest in
      let fits = (own_bundle v r.report).1 r.own in
      elim (Bool-cases g.allow_warnings) [
        | inl w ↦ rw (found, fits, r.passed, w)
        | inr w ↦
            rw (found, fits, r.passed, w, no_warnings r.report.evidence (λ b n. r.quiet b n w))
      ]

  high_score :
      (o : Option ℕ)
      → (below o g.min_eval_score ≡ false) ↔ ((x : ℕ) → o ≡ some x → g.min_eval_score ≤ x)
  high_score none = (λ e x q. cc q, λ h. refl)
  high_score (some y) =
      (λ e x q. ground (arith, some-injective _ _ q), λ h. ground (arith, h y refl))

  IsEvaluated-of :
      (a : Attestation) (e : Evidence)
      → latest v.id is_evals s ≡ some a
      → a.evidence ≡ e
      → evals_passes g (some a) ≡ true
      → IsEvaluated g v s
  unfolding evals_passes
  IsEvaluated-of a (evals total passes fails score has_evals) n shown h =
      let cases : has_evals ≡ true = ground arith in
      let enough : below score g.min_eval_score ≡ false = ground arith in
      record {
        report = a;
        newest = (latest_eval v.id a s).0 n;
        total = total;
        passes = passes;
        fails = fails;
        score = score;
        shown = rw (sym cases) shown;
        passed = ground arith;
        high = (high_score score).0 enough;
      }
  IsEvaluated-of a (readiness blocks warnings) n shown h = ground arith
  IsEvaluated-of a (override environment by) n shown h = ground arith

  IsEvaluated-to :
      (o : Option Attestation)
      → latest v.id is_evals s ≡ o
      → evals_passes g o ≡ true
      → IsEvaluated g v s
  unfolding evals_passes
  IsEvaluated-to none e h = cc
  IsEvaluated-to (some a) e h = IsEvaluated-of a a.evidence e refl h

  IsEvaluated-from : IsEvaluated g v s → evals_passes g (latest v.id is_evals s) ≡ true
  unfolding evals_passes
  IsEvaluated-from r =
      rw
        ((latest_eval v.id r.report s).1 r.newest, r.shown, r.passed, (high_score r.score).1 r.high)

Each-to : (ks : List String) (m : Fields) → provenance_present ks m ≡ true → Each ks m
unfolding provenance_present
Each-to [] m h = tt
Each-to (k ∷ ks) m h = (ground arith, Each-to ks m (ground arith))

Each-from : (ks : List String) (m : Fields) → Each ks m → provenance_present ks m ≡ true
unfolding provenance_present
Each-from [] m h = refl
Each-from (k ∷ ks) m h = rw (h.0) (Each-from ks m h.1)

-- A check that is asked for passes exactly if its requirement is met.
check_to :
    (b : Bool) (name : String) (passes : Bool)
    → all_ok (check_if b name passes) ≡ true
    → b ≡ true
    → passes ≡ true
check_to b name passes h e = ground arith

check_from :
    (b : Bool) (name : String) (passes : Bool)
    → (b ≡ true → passes ≡ true)
    → all_ok (check_if b name passes) ≡ true
check_from true name passes h = rw (h refl)
check_from false name passes h = refl

all_ok-append : (xs ys : List GateCheck) → all_ok (xs ++ ys) ≡ (all_ok xs && all_ok ys)
all_ok-append [] ys = refl
all_ok-append (x ∷ xs) ys = ground (arith, all_ok-append xs ys)

all_ok_split :
    (xs ys : List GateCheck) → all_ok (xs ++ ys) ≡ true → (all_ok xs ≡ true) × (all_ok ys ≡ true)
all_ok_split xs ys h = ground (arith, all_ok-append xs ys)

all_ok_join :
    (xs ys : List GateCheck) → all_ok xs ≡ true → all_ok ys ≡ true → all_ok (xs ++ ys) ≡ true
all_ok_join xs ys h k = ground (arith, all_ok-append xs ys)

sourced_to :
    (ks : List String) (m : Fields)
    → (nonempty ks ≡ true → provenance_present ks m ≡ true)
    → Each ks m
sourced_to [] m h = tt
sourced_to (k ∷ ks) m h = Each-to (k ∷ ks) m (h refl)

is_false : (b : Bool) → ¬ (b ≡ true) → not b ≡ true
is_false true h = absurd (h refl)
is_false false h = refl

is_named-Named : (actor : Option String) → (is_named actor ≡ true) ↔ Named actor
is_named-Named none = (λ e. cc, λ (a, q, n). cc q)
is_named-Named (some a) = (
  λ e. (a, refl, λ q. cc ((eq_iff (strip a) "").1 q, e)),
  λ (b, q, n).
      is_false (str_eq (strip a) "")
        (λ e. n (ap strip (some-injective _ _ (sym q)) ∙ (eq_iff (strip a) "").0 e)),
)

module _ (g : Gate) (v : Version) (actor : Option String) (s : Store) where
  abbrev report_check : List GateCheck
  report_check =
      check_if g.require_readiness "readiness" (readiness_passes g v (latest v.id is_readiness s))

  abbrev eval_check : List GateCheck
  eval_check = check_if g.require_evals "evals" (evals_passes g (latest v.id is_evals s))

  abbrev actor_check : List GateCheck
  actor_check = check_if g.require_actor "actor" (is_named actor)

  abbrev source_check : List GateCheck
  source_check =
      check_if (nonempty g.require_provenance) "provenance"
        (provenance_present g.require_provenance v.metadata)

  checks_to : all_ok (checks_of g v actor s) ≡ true → Meets g v actor s
  unfolding checks_of
  checks_to h =
      let (r, h1) = all_ok_split report_check (eval_check ++ (actor_check ++ source_check)) h in
      let (e, h2) = all_ok_split eval_check (actor_check ++ source_check) h1 in
      let (a, p) = all_ok_split actor_check source_check h2 in
      record {
        ready = λ b. IsReady-to g v s _ refl (check_to g.require_readiness "readiness" _ r b);
        evaluated = λ b. IsEvaluated-to g v s _ refl (check_to g.require_evals "evals" _ e b);
        signed = λ b. (is_named-Named actor).0 (check_to g.require_actor "actor" _ a b);
        sourced =
            sourced_to g.require_provenance v.metadata
              (check_to (nonempty g.require_provenance) "provenance" _ p);
      }

  checks_from : Meets g v actor s → all_ok (checks_of g v actor s) ≡ true
  unfolding checks_of
  checks_from m =
      all_ok_join report_check (eval_check ++ (actor_check ++ source_check))
        (check_from g.require_readiness "readiness" _ (λ b. IsReady-from g v s (m.ready b)))
        (all_ok_join eval_check (actor_check ++ source_check)
          (check_from g.require_evals "evals" _ (λ b. IsEvaluated-from g v s (m.evaluated b)))
          (all_ok_join actor_check source_check
            (check_from g.require_actor "actor" _ (λ b. (is_named-Named actor).1 (m.signed b)))
            (check_from (nonempty g.require_provenance) "provenance" _
              (λ b. Each-from g.require_provenance v.metadata m.sourced))))

  -- When the gate resolves and `check_promotion` returns a result, it allows the promotion
  -- exactly if everything the gate asks for is met: the newest readiness report of the version
  -- passed, names no other bundle than the version's own and has no warnings unless they are
  -- allowed; the newest eval run of the version had cases, passed, and has no score or one that
  -- reaches the minimum; the actor is not blank; and the provenance is there.
  pub check_promotion_exact :
      (environment : String) (r : GateResult)
      → resolve_gate environment v.agent s ≡ ok g
      → check_promotion v environment actor s ≡ ok r
      → (r.allowed ≡ true) ↔ Meets g v actor s
  unfolding check_promotion
  check_promotion_exact environment r q e =
      let same : r ≡ result_of g v actor s = ground arith in rw same (checks_to, checks_from)
