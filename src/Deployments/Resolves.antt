-- ===== src/Deployments/Resolves.antt =====
-- What a call of `resolve_for_run` (deployments.py) that succeeds has found.
use rya.Prelude.{
  String, false, not, Option, none, some, ◌≡◌, refl, sym, ap, ◌≢◌, inl, inr, Bool-cases,
}
use rya.Errors.{Code, Result, ok, err, then_run, require, e_version_retired}
use rya.Store.{Store}
use rya.Store.Docs.{Version, Environment}
use rya.Deployments.Tables.{version_get, env_get}
use rya.Deployments.Actions.{
  environment_name, or_missing, require_version, is_retired, resolve_for_run, or_no_environment,
  current_of, given_text,
}

pub ok≢err : {A : Type 0} (a : A) (c : Code) → ◌≢◌ {A = Result A} (ok a) (err c)
ok≢err a c e = cc

pub ok_injective : {A : Type 0} (a b : A) → ◌≡◌ {A = Result A} (ok a) (ok b) → a ≡ b
ok_injective a b e = cc

-- What `resolve_for_run` found.
pub record Resolves (environment agent : String) (s : Store) (v : Version) : Type 0 where
  pub name : String
  pub named : environment_name environment ≡ ok name
  pub pointer : Environment
  pub stored : env_get name agent s ≡ some pointer
  pub current : String
  pub points : given_text pointer.current_version_id ≡ some current
  pub found : version_get current s ≡ some v
  pub live : is_retired v ≡ false

module _ (environment agent : String) (s : Store) (v : Version) where
  live-Resolves :
      (name i : String) (e : Environment) (w : Version)
      → environment_name environment ≡ ok name
      → env_get name agent s ≡ some e
      → given_text e.current_version_id ≡ some i
      → version_get i s ≡ some w
      → then_run (require (not (is_retired w)) e_version_retired s) (λ _ t. (ok w, t)) ≡ (ok v, s)
      → Resolves environment agent s v
  live-Resolves name i e w n g p f h = elim (Bool-cases (is_retired w)) [
    | inl r ↦ let bad = rw r at h in absurd (ok≢err v e_version_retired (ap (λ x. x.0) (sym bad)))
    | inr r ↦
        let good = rw r at h in
        let same : w ≡ v = ok_injective w v (ap (λ x. x.0) good) in
        record {
          name = name;
          named = n;
          pointer = e;
          stored = g;
          current = i;
          points = p;
          found = rw (sym same) f;
          live = rw (sym same) r;
        }
  ]

  found-Resolves :
      (name i : String) (e : Environment) (o : Option Version)
      → environment_name environment ≡ ok name
      → env_get name agent s ≡ some e
      → given_text e.current_version_id ≡ some i
      → version_get i s ≡ o
      → then_run
          (or_missing o, s)
          (λ w t. then_run (require (not (is_retired w)) e_version_retired t) (λ _ u. (ok w, u)))
        ≡ (ok v, s)
      → Resolves environment agent s v
  found-Resolves name i e none n g p f h = absurd (ok≢err v _ (ap (λ x. x.0) (sym h)))
  found-Resolves name i e (some w) n g p f h = live-Resolves name i e w n g p f h

  current-Resolves :
      (name : String) (e : Environment) (o : Option String)
      → environment_name environment ≡ ok name
      → env_get name agent s ≡ some e
      → given_text e.current_version_id ≡ o
      → then_run
          (or_no_environment o, s)
          (λ i t.
            then_run
              (or_missing (version_get i t), t)
              (λ w u.
                then_run (require (not (is_retired w)) e_version_retired u) (λ _ x. (ok w, x))))
        ≡ (ok v, s)
      → Resolves environment agent s v
  current-Resolves name e none n g p h = absurd (ok≢err v _ (ap (λ x. x.0) (sym h)))
  current-Resolves name e (some i) n g p h = found-Resolves name i e _ n g p refl h

  stored-Resolves :
      (name : String) (o : Option Environment)
      → environment_name environment ≡ ok name
      → env_get name agent s ≡ o
      → then_run
          (or_no_environment (current_of o), s)
          (λ i t.
            then_run
              (or_missing (version_get i t), t)
              (λ w u.
                then_run (require (not (is_retired w)) e_version_retired u) (λ _ x. (ok w, x))))
        ≡ (ok v, s)
      → Resolves environment agent s v
  stored-Resolves name none n g h = absurd (ok≢err v _ (ap (λ x. x.0) (sym h)))
  stored-Resolves name (some e) n g h = current-Resolves name e _ n g refl h

  named-Resolves :
      (r : Result String)
      → environment_name environment ≡ r
      → then_run
          (r, s)
          (λ name t.
            then_run
              (or_no_environment (current_of (env_get name agent t)), t)
              (λ i u.
                then_run
                  (or_missing (version_get i u), u)
                  (λ w x.
                    then_run
                      (require (not (is_retired w)) e_version_retired x)
                      (λ _ y. (ok w, y)))))
        ≡ (ok v, s)
      → Resolves environment agent s v
  named-Resolves (err c) n h = absurd (ok≢err v _ (ap (λ x. x.0) (sym h)))
  named-Resolves (ok name) n h = stored-Resolves name _ n refl h

  pub Resolves_of : resolve_for_run environment agent s ≡ (ok v, s) → Resolves environment agent s v
  unfolding resolve_for_run require_version
  Resolves_of h = named-Resolves (environment_name environment) refl h
