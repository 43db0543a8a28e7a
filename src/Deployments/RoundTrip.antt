-- ===== src/Deployments/RoundTrip.antt =====
-- A promotion and the rollback behind it (deployments.py).
use mathlib.Core.Option.{some-injective}
use rya.Prelude.{
  ℕ, String, Bool, Option, none, some, List, last?, last?-append, ◌≡◌, sym, ap, ◌∙◌, ◌≢◌, inl, inr,
  arith, Bool-cases, str_eq, eq_iff,
}
use rya.Errors.{Result, ok}
use rya.Store.{Store}
use rya.Store.Docs.{Version, Environment, PriorPointer}
use rya.Store.Table
use rya.Deployments.Tables.{version_get, version_key, env_get, pointed_at, pushed}
use rya.Deployments.Actions.{promote, resolve_for_run, given_text, rollback, prior_of}
use rya.Deployments.Pointers.{moved, Promoted, promote-Promoted}
use rya.Deployments.Resolves.{ok≢err, ok_injective, Resolves, Resolves_of}
use rya.Deployments.Rollback.{Lands, lands, env_get-moved, given-some}

module _ (now : ℕ) (actor : Option String) where
  last?-pushed :
      (o : Option String) (c : String) (h : List PriorPointer)
      → given_text o ≡ some c
      → last? (pushed now actor o h)
        ≡ some (record { version_id = c; replaced_at = now; actor = actor })
  last?-pushed none c h e = cc
  last?-pushed (some i) c h e = elim (Bool-cases (str_eq i "")) [
    | inl b ↦ let bad = rw b at e in cc
    | inr b ↦
        let same = rw b at e in
        rw b (
          last?-append h _
          ∙ ap (λ x. some (record { version_id = x; replaced_at = now; actor = actor }))
              (some-injective _ _ same))
  ]

  -- The newest entry of the history is what was current before the move.
  prior_of-moved :
      (name agent i c : String) (s : Store) (e : Environment)
      → env_get name agent s ≡ some e
      → given_text e.current_version_id ≡ some c
      → prior_of (some (moved now name agent i actor s)) ≡ ok c
  unfolding pointed_at
  prior_of-moved name agent i c s e g p = rw (g, last?-pushed e.current_version_id c e.history p)

given_text-given : (o : Option String) (c : String) → given_text o ≡ some c → c ≢ ""
given_text-given none c e = cc
given_text-given (some i) c e = ground (arith, eq_iff i "")

module _ (now later : ℕ) (fresh fresh' environment agent i : String) (actor by : Option String)
    (gate force : Bool) (s : Store) (w : Version)
    (runs : resolve_for_run environment agent s ≡ (ok w, s)) (own : w.agent ≡ agent)
    (other : i ≢ w.id) (given : i ≢ "") where
  name_of :
      (r : Resolves environment agent s w) (u : Result Environment × Store)
      (p : Promoted now environment agent i actor s u)
      → r.name ≡ p.name
  name_of r u p = ok_injective _ _ (sym r.named ∙ p.named)

  arrived :
      (u : Result Environment × Store) (p : Promoted now environment agent i actor s u)
      → Resolves environment agent u.1 p.version
  unfolding pointed_at
  arrived u p = record {
    name = p.name;
    named = p.named;
    pointer = moved now p.name agent i actor s;
    stored = env_get-moved now p.name agent i actor s u.1 (ap (λ x. x.1.environments) p.outcome);
    current = i;
    points = given-some i given;
    found = ap (λ x. version_get i x.1) p.outcome ∙ p.found;
    live = p.live;
  }

  back :
      (r : Resolves environment agent s w) (u : Result Environment × Store)
      (p : Promoted now environment agent i actor s u)
      → Lands environment agent w (rollback later fresh' environment agent by none u.1)
  unfolding arrived pointed_at
  back r u p =
      let same : w.id ≡ r.current = Table.get-id version_key r.current w s.versions r.found in
      let here : p.version.id ≡ i = Table.get-id version_key i p.version s.versions p.found in
      let reads : env_get p.name agent s ≡ some r.pointer =
        ap (λ x. env_get x agent s) (sym (name_of r u p)) ∙ r.stored in
      let stays : version_get w.id u.1 ≡ some w =
        ap (λ x. version_get w.id x.1) p.outcome ∙ (ap (λ x. version_get x s) same ∙ r.found) in
      lands later fresh' environment agent w.id by u.1 p.version w stays own r.live
        (λ e. other (sym here ∙ sym e))
        (λ e. given_text-given r.pointer.current_version_id r.current r.points (sym same ∙ e)) none
        (arrived u p)
        (prior_of-moved now actor p.name agent i r.current s r.pointer reads r.points
          ∙ ap ok (sym same))

  -- If new runs of an environment get a version `w` of the agent, and a promotion of another
  -- nonempty id succeeds, gated or not, then a rollback without a target behind it succeeds,
  -- whatever the gate, and new runs get `w` again.
  pub rollback-promote :
      (e : Environment)
      → (promote now fresh environment agent i actor gate force s).0 ≡ ok e
      → Lands environment agent w (
          rollback later fresh' environment agent by none
            (promote now fresh environment agent i actor gate force s).1)
  rollback-promote e h = elim (promote-Promoted now fresh environment agent i actor gate force s) [
    | inl (c, q) ↦ absurd (ok≢err e c (sym h ∙ ap (λ r. r.0) q))
    | inr p ↦ back (Resolves_of environment agent s w runs) _ p
  ]
