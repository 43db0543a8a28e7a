-- ===== src/Deployments/Rollback.antt =====
-- Promotion, rollback and what a new run resolves to (deployments.py).
use rya.Prelude.{
  ℕ, String, Bool, false, ◌||◌, Option, none, some, ◌≡◌, refl, sym, ap, ◌∙◌, ◌≢◌, inl, inr, arith,
  Bool-cases, str_eq, eq_iff, eq_refl,
}
use rya.Errors.{Result, ok}
use rya.Words.{strip, has_slash, strip_twice}
use rya.Store.{Store}
use rya.Store.Docs.{Version, Environment}
use rya.Store.Table
use rya.Deployments.Tables.{
  version_get, version_key, env_key, env_get, env_id, new_environment, pointed_at, env_set_current,
}
use rya.Deployments.Actions.{
  environment_name, require_version, is_retired, gated, promote_to, promote, resolve_for_run,
  given_text, rollback, target_of,
}
use rya.Deployments.Pointers.{moved, Promoted, promote-Promoted, resolve_from}
use rya.Deployments.Resolves.{ok≢err, ok_injective, Resolves, Resolves_of}

pub given-some : (i : String) → i ≢ "" → given_text (some i) ≡ some i
given-some i n = ground (arith, eq_iff i "")

module _ (now : ℕ) (name agent i : String) (actor : Option String) (s : Store) where
  moved-key :
      (o : Option Environment)
      → env_get name agent s ≡ o
      → (moved now name agent i actor s).key ≡ env_key name agent
  unfolding pointed_at new_environment env_get
  moved-key none e = rw e
  moved-key (some d) e = rw e (Table.get-id env_id (env_key name agent) d s.environments e)

  pub env_get-moved :
      (t : Store)
      → t.environments ≡ Table.save env_id (moved now name agent i actor s) s.environments
      → env_get name agent t ≡ some (moved now name agent i actor s)
  unfolding env_get
  env_get-moved t e =
      let key = moved-key (env_get name agent s) refl in
      rw e (
        Table.get-save env_id (env_key name agent) (moved now name agent i actor s) s.environments
        ∙ rw (key, eq_refl (env_key name agent)))

pub Promoted-resolves :
    (now : ℕ) (environment agent i : String) (actor : Option String) (s : Store)
    (r : Result Environment × Store)
    → i ≢ ""
    → (p : Promoted now environment agent i actor s r)
    → resolve_for_run environment agent r.1 ≡ (ok p.version, r.1)
unfolding pointed_at
Promoted-resolves now environment agent i actor s r n p = rw p.outcome (
    resolve_from environment agent p.name i (moved now p.name agent i actor s) p.version _ p.named
      (env_get-moved now p.name agent i actor s _ refl) (given-some i n) p.found p.live)

-- After a promotion of a nonempty id that succeeds, new runs of the environment get the version
-- of that id, and it is the agent's own.
pub promote-resolves :
    (now : ℕ) (fresh environment agent i : String) (actor : Option String) (gate force : Bool)
    (s : Store) (e : Environment)
    → i ≢ ""
    → (promote now fresh environment agent i actor gate force s).0 ≡ ok e
    → (v : Version) × (version_get i s ≡ some v)
      × (v.agent ≡ agent)
      × (resolve_for_run environment agent
            (promote now fresh environment agent i actor gate force s).1
          ≡ (ok v, (promote now fresh environment agent i actor gate force s).1))
promote-resolves now fresh environment agent i actor gate force s e n h =
    elim (promote-Promoted now fresh environment agent i actor gate force s) [
      | inl (c, q) ↦ absurd (ok≢err e c (sym h ∙ ap (λ r. r.0) q))
      | inr p ↦ (p.version, p.found, p.own, Promoted-resolves now environment agent i actor s _ n p)
    ]

-- A name that is accepted is accepted again as it stands.
pub environment_name_twice :
    (environment name : String)
    → environment_name environment ≡ ok name
    → environment_name name ≡ ok name
unfolding environment_name
environment_name_twice environment name h =
    elim (Bool-cases (str_eq (strip environment) "" || has_slash (strip environment))) [
      | inl b ↦ let bad = rw b at h in absurd (ok≢err name _ (sym bad))
      | inr b ↦
          let same : strip environment ≡ name = ok_injective _ _ (rw b at h) in
          let again : strip name ≡ name = rw (sym same) (strip_twice environment) in
          rw again (rw (sym same) (rw b))
    ]

-- An ungated promotion of a version that may run moves the pointer.
module _ (now : ℕ) (fresh environment agent name i : String) (actor : Option String) (s : Store)
    (v : Version) (named : environment_name environment ≡ ok name)
    (found : version_get i s ≡ some v) (own : v.agent ≡ agent) (live : is_retired v ≡ false) where
  pub ungated : promote now fresh environment agent i actor false false s ≡ (
    ok (moved now name agent i actor s),
    record s { environments = Table.save env_id (moved now name agent i actor s) s.environments },
  )
  unfolding promote promote_to gated require_version env_set_current
  ungated = rw (named, found, own, eq_refl agent, live)

-- The call succeeded, and new runs of the environment get `v`.
abbrev pub Lands : String → String → Version → Result Environment × Store → Type 0
Lands environment agent v r =
    ((e : Environment) × (r.0 ≡ ok e)) × (resolve_for_run environment agent r.1 ≡ (ok v, r.1))

rollback_step :
    (now : ℕ) (fresh environment agent name i current : String) (actor to : Option String)
    (s : Store) (e : Environment)
    → environment_name environment ≡ ok name
    → env_get name agent s ≡ some e
    → given_text e.current_version_id ≡ some current
    → target_of to (some e) ≡ ok i
    → str_eq i current ≡ false
    → rollback now fresh environment agent actor to s
      ≡ promote now fresh name agent i actor false false s
unfolding rollback
rollback_step now fresh environment agent name i current actor to s e n g p t d =
    rw (n, g, p, g, t, d)

module _ (now : ℕ) (fresh environment agent i : String) (actor : Option String) (s : Store)
    (w : Version) (v : Version) (found : version_get i s ≡ some v) (own : v.agent ≡ agent)
    (live : is_retired v ≡ false) (other : i ≢ w.id) (given : i ≢ "") where
  points_at :
      (name : String) → given_text (moved now name agent i actor s).current_version_id ≡ some i
  unfolding pointed_at
  points_at name = given-some i given

  pub lands :
      (to : Option String) (r : Resolves environment agent s w)
      → target_of to (some r.pointer) ≡ ok i
      → Lands environment agent v (rollback now fresh environment agent actor to s)
  lands to r t =
      let id_of : w.id ≡ r.current = Table.get-id version_key r.current w s.versions r.found in
      let apart : str_eq i r.current ≡ false = ground (arith, eq_iff i r.current) in
      let steps =
        rollback_step now fresh environment agent r.name i r.current actor to s r.pointer r.named
          r.stored r.points t apart in
      let again = environment_name_twice environment r.name r.named in
      let done = ungated now fresh r.name agent r.name i actor s v again found own live in
      rw (steps, done)
        (
          (moved now r.name agent i actor s, refl),
          resolve_from environment agent r.name i (moved now r.name agent i actor s) v _ r.named
              (env_get-moved now r.name agent i actor s _ refl) (points_at r.name) found live,
        )

  -- If new runs of an environment get a version, a rollback to any other stored version of the
  -- agent, with a nonempty id and not retired, succeeds and new runs get that one, whatever the
  -- gate asks for and whether or not it was ever current.
  pub rollback_ungated :
      resolve_for_run environment agent s ≡ (ok w, s)
      → Lands environment agent v (rollback now fresh environment agent actor (some i) s)
  rollback_ungated runs = lands (some i) (Resolves_of environment agent s w runs) refl
