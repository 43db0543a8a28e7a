-- ===== src/Deployments/Idempotent.antt =====
-- `create_version` (deployments.py) repeated with the same content.
use rya.Prelude.{
  ℕ, String, Bool, true, not, ◌&&◌, Option, none, some, List, [], ◌∷◌, ◌≡◌, refl, sym, ap, ◌∙◌,
  Bool-cases, inl, inr, str_eq, eq_refl, first_where, arith,
}
use rya.Json.{Fields}
use rya.Errors.{ok}
use rya.Store.{Store}
use rya.Store.Docs.{Version}
use rya.Store.Table
use rya.Deployments.Tables.{version_key, version_by_hash, version_create, put_version}
use rya.Deployments.Actions.{Bundle, version_of_bundle, create_version, promote_new}
use rya.Deployments.Resolves.{ok≢err, ok_injective}

first_where-save :
    (p : Version → Bool) (v : Version) (xs : List Version)
    → first_where p xs ≡ none
    → p v ≡ true
    → first_where p (Table.save version_key v xs) ≡ some v
unfolding Table.save
first_where-save p v [] e h = rw h
first_where-save p v (x ∷ xs) e h = ground (arith, first_where-save p v xs)

saved_found :
    (v : Version) (s : Store)
    → version_by_hash v.agent v.bundle_hash s ≡ none
    → version_by_hash v.agent v.bundle_hash (put_version v s) ≡ some v
unfolding version_by_hash put_version
saved_found v s e =
    first_where-save (λ w. str_eq w.agent v.agent && str_eq w.bundle_hash v.bundle_hash) v
      s.versions e (rw (eq_refl v.agent, eq_refl v.bundle_hash))

-- Behind `version_create` the store finds what it returned by its agent and hash.
found_again :
    (v : Version) (s : Store) (o : Option Version)
    → version_by_hash v.agent v.bundle_hash s ≡ o
    → version_by_hash v.agent v.bundle_hash (version_create v s).1 ≡ some (version_create v s).0
unfolding version_create
found_again v s (some w) e = rw (e, version_create) e
found_again v s none e = rw (e, version_create) (saved_found v s e)

created_again :
    (v w : Version) (s : Store)
    → version_by_hash v.agent v.bundle_hash s ≡ some w
    → version_create v s ≡ (w, s)
unfolding version_create
created_again v w s e = rw (e, version_create)

-- When `create_version` without an environment returns a version, a later call with the same
-- agent and the same bundle, whatever its actor, metadata and new id, returns that version again
-- and writes nothing.
pub create_version_twice :
    (now later : ℕ) (fresh fresh' attested attested' agent : String) (b : Bundle)
    (actor actor' : Option String) (metadata metadata' : Fields) (force force' : Bool) (s : Store)
    (v : Version)
    → (create_version now fresh attested agent b none actor metadata force s).0 ≡ ok v
    → create_version later fresh' attested' agent b none actor' metadata' force'
        (create_version now fresh attested agent b none actor metadata force s).1
      ≡ (ok v, (create_version now fresh attested agent b none actor metadata force s).1)
unfolding create_version promote_new version_of_bundle
create_version_twice now later fresh fresh' attested attested' agent b actor actor' metadata
      metadata' force force' s v h =
    elim (Bool-cases (str_eq agent "")) [
      | inl e ↦ let bad = rw e at h in absurd (ok≢err v _ (sym bad))
      | inr e ↦ elim (Bool-cases (not (str_eq b.agent "") && not (str_eq b.agent agent))) [
        | inl k ↦ let bad = rw (e, k) at h in absurd (ok≢err v _ (sym bad))
        | inr k ↦
            let first = version_of_bundle now fresh agent b actor metadata in
            let second = version_of_bundle later fresh' agent b actor' metadata' in
            let good = rw (e, k) at h in
            let same : (version_create first s).0 ≡ v = ok_injective _ _ good in
            let again =
              created_again second (version_create first s).0 (version_create first s).1
                (found_again first s _ refl) in
            rw (e, k)
              (ap (λ x. (ok x.0, x.1)) again ∙ ap (λ x. (ok x, (version_create first s).1)) same)
      ]
    ]
