-- ===== src/Deployments/Pointers.antt =====
-- What `promote` (deployments.py) does to the pointer of an environment, on every branch.
use rya.Prelude.{
  ℕ, String, Bool, true, false, not, ◌||◌, Option, none, some, List, [], ◌∷◌, ◌++◌, ◌≡◌, ◌≢◌, refl,
  ap, ◌⊎◌, inl, inr, arith, Bool-cases, str_eq, eq_iff,
}
use rya.Errors.{Code, Result, ok, err, then_run}
use rya.Store.{Store}
use rya.Store.Docs.{Version, Environment, PriorPointer, Attestation}
use rya.Store.Table
use rya.Gates.Check.{
  GateResult, check_promotion, enforced, enforce, require_promotion, version_attest,
}
use rya.Deployments.Tables.{
  version_get, env_get, env_id, new_environment, found_or, pointed_at, pushed, env_key,
  env_set_current,
}
use rya.Deployments.Actions.{
  environment_name, or_missing, require_version, is_retired, gated, promote_to, promote,
  resolve_for_run, given_text,
}

-- The environment as `promote` leaves it.
abbrev pub moved : ℕ → String → String → String → Option String → Store → Environment
moved now name agent i actor s =
    pointed_at now actor i (found_or (env_get name agent s) (new_environment now name agent))

-- The history of an environment whose current version is replaced: a current version, unless its
-- id is empty, is pushed, with the time and the actor of the replacement.
abbrev pub History :
    ℕ → Option String → Option String → List PriorPointer → List PriorPointer → Type 0
History now actor current old new =
    ((current ≡ none) ⊎ (current ≡ some "")) × (new ≡ old)
    ⊎ ((i : String) × (current ≡ some i)
        × (i ≢ "")
        × (new ≡ old ++ (record { version_id = i; replaced_at = now; actor = actor }) ∷ []))

-- The environment before a promotion and after it: the version is current, and what was current
-- is pushed onto the history; one that was not there begins with an empty history.
pub record Moved (now : ℕ) (name agent i : String) (actor : Option String)
    (old : Option Environment) (new : Environment) : Type 0 where
  pub current : new.current_version_id ≡ some i
  pub history :
      ((e : Environment) × (old ≡ some e)
        × (new.key ≡ e.key)
        × History now actor e.current_version_id e.history new.history)
      ⊎ ((old ≡ none) × (new.key ≡ env_key name agent) × (new.history ≡ []))
  pub at : new.updated_at ≡ some now
  pub by : new.actor ≡ actor

pushed-History :
    (now : ℕ) (actor current : Option String) (h : List PriorPointer)
    → History now actor current h (pushed now actor current h)
pushed-History now actor none h = inl (inl refl, refl)
pushed-History now actor (some i) h = elim (Bool-cases (str_eq i "")) [
  | inl e ↦ rw e (inl (inr (ap some ((eq_iff i "").0 e)), refl))
  | inr e ↦ rw e (inr (i, refl, λ q. cc (e, (eq_iff i "").1 q), refl))
]

moved-Moved :
    (now : ℕ) (name agent i : String) (actor : Option String) (s : Store)
    → Moved now name agent i actor (env_get name agent s) (moved now name agent i actor s)
unfolding pointed_at new_environment
moved-Moved now name agent i actor s = by_found (env_get name agent s)
  where
    by_found :
        (o : Option Environment)
        → Moved now name agent i actor o
            (pointed_at now actor i (found_or o (new_environment now name agent)))
    by_found none = record {
      current = refl;
      history = inr (refl, refl, refl);
      at = refl;
      by = refl;
    }
    by_found (some e) = record {
      current = refl;
      history = inl (e, refl, refl, pushed-History now actor e.current_version_id e.history);
      at = refl;
      by = refl;
    }

-- What a promotion that succeeds does: the pointer moves, and an override may be filed.
pub record Promoted (now : ℕ) (environment agent i : String) (actor : Option String) (s : Store)
    (r : Result Environment × Store) : Type 0 where
  pub name : String
  pub named : environment_name environment ≡ ok name
  pub version : Version
  pub found : version_get i s ≡ some version
  pub own : version.agent ≡ agent
  pub live : is_retired version ≡ false
  pub filed : List Attestation
  pub moves : Moved now name agent i actor (env_get name agent s) (moved now name agent i actor s)
  pub outcome : r ≡ (
    ok (moved now name agent i actor s),
    record s {
      attestations = filed;
      environments = Table.save env_id (moved now name agent i actor s) s.environments;
    },
  )

-- A step that fails and writes nothing, or files attestations alone.
abbrev Files : {A : Type 0} → Store → Result A × Store → Type 0
Files {A = A} s r =
    ((c : Code) × (r ≡ (err c, s)))
    ⊎ ((a : A) × (filed : List Attestation) × (r ≡ (ok a, record s { attestations = filed })))

module _ (now : ℕ) (fresh : String) (v : Version) (name : String) (actor : Option String)
    (force : Bool) (s : Store) where
  enforce-Files : (r : GateResult) → Files s (enforce now fresh v name actor force r s)
  unfolding enforce version_attest
  enforce-Files r = elim (Bool-cases (r.allowed || not (enforced r.gate))) [
    | inl h ↦ rw h (inr (r, s.attestations, refl))
    | inr h ↦ elim (Bool-cases force) [
      | inl f ↦ rw (h, f) (inr (r, _, refl))
      | inr f ↦ rw (h, f) (inl (_, refl))
    ]
  ]

  require-Files :
      (o : Result GateResult)
      → check_promotion v name actor s ≡ o
      → Files s (require_promotion now fresh v name actor force s)
  unfolding require_promotion
  require-Files (ok r) e = rw (e, require_promotion) (enforce-Files r)
  require-Files (err c) e = rw (e, require_promotion) (inl (c, refl))

  then-Files :
      (r : Result GateResult × Store) → Files s r → Files s (then_run r (λ x t. (ok tt, t)))
  then-Files r (inl (c, e)) = rw e (inl (c, refl))
  then-Files r (inr (a, filed, e)) = rw e (inr (tt, filed, refl))

  gated-Files : (gate : Bool) → Files s (gated gate now fresh v name actor force s)
  unfolding gated
  gated-Files false = inr (tt, s.attestations, refl)
  gated-Files true = then-Files _ (require-Files _ refl)

module _ (now : ℕ) (fresh environment agent i : String) (actor : Option String) (gate force : Bool)
    (s : Store) where
  abbrev Outcome : Result Environment × Store → Type 0
  Outcome r = ((c : Code) × (r ≡ (err c, s))) ⊎ Promoted now environment agent i actor s r

  moved-Outcome :
      (name : String) (v : Version)
      → environment_name environment ≡ ok name
      → version_get i s ≡ some v
      → v.agent ≡ agent
      → is_retired v ≡ false
      → (r : Result Unit × Store) → Files s r
      → Outcome
          (then_run r (λ _ t. let (e, u) = env_set_current now name agent i actor t in (ok e, u)))
  unfolding env_set_current env_get
  moved-Outcome name v n f o l r (inl (c, e)) = rw e (inl (c, refl))
  moved-Outcome name v n f o l r (inr (a, filed, e)) = rw e (
      inr (record {
        name = name;
        named = n;
        version = v;
        found = f;
        own = o;
        live = l;
        filed = filed;
        moves = moved-Moved now name agent i actor s;
        outcome = refl;
      }))

  to-Outcome :
      (name : String) (v : Version)
      → environment_name environment ≡ ok name
      → version_get i s ≡ some v
      → Outcome (promote_to now fresh name agent i actor gate force v s)
  unfolding promote_to
  to-Outcome name v n f = elim (Bool-cases (str_eq v.agent agent)) [
    | inr a ↦ rw a (inl (_, refl))
    | inl a ↦ elim (Bool-cases (is_retired v)) [
      | inl l ↦ rw (a, l) (inl (_, refl))
      | inr l ↦
          rw (a, l)
            (moved-Outcome name v n f (ground (arith, eq_iff v.agent agent)) l _
              (gated-Files now fresh v name actor force s gate))
    ]
  ]

  version-Outcome :
      (name : String) (o : Option Version)
      → environment_name environment ≡ ok name
      → version_get i s ≡ o
      → Outcome (then_run (or_missing o, s) (promote_to now fresh name agent i actor gate force))
  version-Outcome name none n f = inl (_, refl)
  version-Outcome name (some v) n f = to-Outcome name v n f

  name-Outcome :
      (r : Result String)
      → environment_name environment ≡ r
      → Outcome (
          then_run
            (r, s)
            (λ name t.
              then_run
                (require_version i t, t)
                (promote_to now fresh name agent i actor gate force)))
  unfolding require_version
  name-Outcome (err c) n = inl (c, refl)
  name-Outcome (ok name) n = version-Outcome name (version_get i s) n refl

  -- A promotion fails and writes nothing, or the version is there, is the agent's own and is not
  -- retired, and the environment that is stored and returned has the version as its current one,
  -- the time and the actor of the call, and the history that it had with the prior current
  -- version (if it had one) pushed onto it, an environment that was not there having an empty
  -- history; beside that only the attestations may change.
  pub promote-Promoted :
      ((c : Code) × (promote now fresh environment agent i actor gate force s ≡ (err c, s)))
      ⊎ Promoted now environment agent i actor s
          (promote now fresh environment agent i actor gate force s)
  unfolding promote
  promote-Promoted = name-Outcome (environment_name environment) refl

-- What a run resolves to, read off the tables.
pub resolve_from :
    (environment agent name i : String) (e : Environment) (v : Version) (s : Store)
    → environment_name environment ≡ ok name
    → env_get name agent s ≡ some e
    → given_text e.current_version_id ≡ some i
    → version_get i s ≡ some v
    → is_retired v ≡ false
    → resolve_for_run environment agent s ≡ (ok v, s)
unfolding resolve_for_run require_version
resolve_from environment agent name i e v s n h c f l = rw (n, h, c, f, l)
