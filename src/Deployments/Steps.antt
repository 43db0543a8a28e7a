-- ===== src/Deployments/Steps.antt =====
-- Sequences of calls of deployments.py.
use rya.Prelude.{
  ℕ, String, Bool, false, not, ◌&&◌, Option, none, some, List, [], ◌∷◌, ◌≡◌, refl, sym, ap, ◌∙◌,
  ◌⊎◌, inl, inr, Bool-cases, str_eq,
}
use mathlib.Core.Path.{subst}
use rya.Deployments.Resolves.{ok_injective}
use rya.Deployments.Rollback.{environment_name_twice}
use rya.Json.{Fields}
use rya.Errors.{Code, Result, ok, err, then_run, require, e_validation}
use rya.Store.{Store}
use rya.Store.Docs.{Version, Environment}
use rya.Deployments.Tables.{version_get, version_by_hash, version_create, env_get}
use rya.Deployments.Actions.{
  environment_name, promote, retire, rollback, Bundle, create_version, version_of_bundle,
  promote_new, or_no_environment, current_of, target_of,
}
use rya.Deployments.Invariant.{ArePointersLive, IsOwnKey, promote-live, put-live, retire-live}

-- A rollback raises, or promotes without a gate.
module _ (now : ℕ) (fresh environment agent : String) (actor to : Option String) (s : Store) where
  abbrev RollsBack : Result Environment × Store → Type 0
  RollsBack r =
      ((c : Code) × (r ≡ (err c, s)))
      ⊎ ((name i : String) × (environment_name environment ≡ ok name)
          × (r ≡ promote now fresh name agent i actor false false s))

  target-RollsBack :
      (name current : String) (r : Result String)
      → environment_name environment ≡ ok name
      → RollsBack (
          then_run
            (r, s)
            (λ target t.
              then_run
                (require (not (str_eq target current)) e_validation t)
                (λ _. promote now fresh name agent target actor false false)))
  target-RollsBack name current (err c) n = inl (c, refl)
  target-RollsBack name current (ok i) n = elim (Bool-cases (str_eq i current)) [
    | inl e ↦ rw e (inl (e_validation, refl))
    | inr e ↦ rw e (inr (name, i, n, refl))
  ]

  current-RollsBack :
      (name : String) (o : Option String) (r : Result String)
      → environment_name environment ≡ ok name
      → RollsBack (
          then_run
            (or_no_environment o, s)
            (λ i t.
              then_run
                (target_of to (env_get name agent t), t)
                (λ target u.
                  then_run
                    (require (not (str_eq target i)) e_validation u)
                    (λ _. promote now fresh name agent target actor false false))))
  current-RollsBack name none r n = inl (_, refl)
  current-RollsBack name (some i) r n =
      target-RollsBack name i (target_of to (env_get name agent s)) n

  name-RollsBack :
      (r : Result String)
      → environment_name environment ≡ r
      → RollsBack (
          then_run
            (r, s)
            (λ name t.
              then_run
                (or_no_environment (current_of (env_get name agent t)), t)
                (λ i u.
                  then_run
                    (target_of to (env_get name agent u), u)
                    (λ target x.
                      then_run
                        (require (not (str_eq target i)) e_validation x)
                        (λ _. promote now fresh name agent target actor false false)))))
  name-RollsBack (err c) n = inl (c, refl)
  name-RollsBack (ok name) n =
      current-RollsBack name (current_of (env_get name agent s)) (ok name) n

  rollback-RollsBack : RollsBack (rollback now fresh environment agent actor to s)
  unfolding rollback
  rollback-RollsBack = name-RollsBack (environment_name environment) refl

-- A call, with what the clock and `_new_id` gave it. A retirement is not forced.
pub data DeployCall : Type 0 where
  creates :
      (now : ℕ) (fresh attested agent : String)
      → Bundle
      → (actor : Option String) → Fields
      → DeployCall
  promotes :
      (now : ℕ) (fresh environment agent i : String) (actor : Option String) (gate force : Bool)
      → DeployCall
  rolls_back : (now : ℕ) (fresh environment agent : String) (actor to : Option String) → DeployCall
  retires : (now : ℕ) (i : String) → DeployCall

unfoldable pub deploy : DeployCall → Store → Store
deploy (creates now fresh attested agent b actor metadata) s =
    (create_version now fresh attested agent b none actor metadata false s).1
deploy (promotes now fresh environment agent i actor gate force) s =
    (promote now fresh environment agent i actor gate force s).1
deploy (rolls_back now fresh environment agent actor to) s =
    (rollback now fresh environment agent actor to s).1
deploy (retires now i) s = (retire now i false s).1

unfoldable pub deploy_all : List DeployCall → Store → Store
unfolding deploy
deploy_all [] s = s
deploy_all (c ∷ cs) s = deploy_all cs (deploy c s)

-- No environment of another agent stands under the key that the call moves, and a new id is fresh.
abbrev pub IsApart : DeployCall → Store → Type 0
IsApart (creates now fresh attested agent b actor metadata) s = version_get fresh s ≡ none
IsApart (promotes now fresh environment agent i actor gate force) s =
    (name : String) → environment_name environment ≡ ok name → IsOwnKey name agent s
IsApart (rolls_back now fresh environment agent actor to) s =
    (name : String) → environment_name environment ≡ ok name → IsOwnKey name agent s
IsApart (retires now i) s = Unit

abbrev pub AreApart : List DeployCall → Store → Type 0
AreApart [] s = Unit
AreApart (c ∷ cs) s = IsApart c s × AreApart cs (deploy c s)

-- A version under a fresh id is pointed at by nothing.
recorded-live :
    (v : Version) (s : Store) (o : Option Version)
    → version_by_hash v.agent v.bundle_hash s ≡ o
    → ArePointersLive s
    → version_get v.id s ≡ none
    → ArePointersLive (version_create v s).1
unfolding version_create
recorded-live v s none e h f =
    rw (e, version_create) (put-live v s h (λ d m c. let (w, g, a, l) = h.live d m v.id c in cc))
recorded-live v s (some w) e h f = rw (e, version_create) h

version-id :
    (now : ℕ) (fresh agent : String) (b : Bundle) (actor : Option String) (metadata : Fields)
    → (version_of_bundle now fresh agent b actor metadata).id ≡ fresh
unfolding version_of_bundle
version-id now fresh agent b actor metadata = refl

created-live :
    (now : ℕ) (fresh attested agent : String) (b : Bundle) (actor : Option String)
    (metadata : Fields) (s : Store)
    → ArePointersLive s
    → version_get fresh s ≡ none
    → ArePointersLive (create_version now fresh attested agent b none actor metadata false s).1
unfolding create_version promote_new
created-live now fresh attested agent b actor metadata s h f =
    let v = version_of_bundle now fresh agent b actor metadata in
    elim (Bool-cases (str_eq agent "")) [
      | inl e ↦ rw e h
      | inr e ↦ elim (Bool-cases (not (str_eq b.agent "") && not (str_eq b.agent agent))) [
        | inl k ↦ rw (e, k) h
        | inr k ↦
            rw (e, k)
              (recorded-live v s _ refl h
                (ap (λ x. version_get x s) (version-id now fresh agent b actor metadata) ∙ f))
      ]
    ]

deploy-live :
    (c : DeployCall) (s : Store) → ArePointersLive s → IsApart c s → ArePointersLive (deploy c s)
unfolding deploy
deploy-live (creates now fresh attested agent b actor metadata) s h k =
    created-live now fresh attested agent b actor metadata s h k
deploy-live (promotes now fresh environment agent i actor gate force) s h k =
    promote-live now fresh environment agent i actor gate force s h k
deploy-live (rolls_back now fresh environment agent actor to) s h k =
    elim (rollback-RollsBack now fresh environment agent actor to s) [
      | inl (c, e) ↦ rw (e, deploy) h
      | inr (name, i, n, e) ↦
          rw (e, deploy)
            (promote-live now fresh name agent i actor false false s h (λ other m.
              subst (λ x. IsOwnKey x agent s)
                (ok_injective name other (sym (environment_name_twice environment name n) ∙ m))
                (k name n)))
    ]
deploy-live (retires now i) s h k = retire-live now i s _ refl h

-- Any sequence of calls that create, promote, roll back and, without force, retire versions,
-- failing or not, keeps every environment on a version that is stored, belongs to the
-- environment's agent and is not retired, and keeps the ids apart, if every new version id is
-- fresh and no environment of another agent stands under the key of one that is promoted or
-- rolled back.
pub deploy_all-ArePointersLive :
    (cs : List DeployCall) (s : Store)
    → ArePointersLive s
    → AreApart cs s
    → ArePointersLive (deploy_all cs s)
unfolding deploy_all
deploy_all-ArePointersLive [] s h k = h
deploy_all-ArePointersLive (c ∷ cs) s h k =
    deploy_all-ArePointersLive cs (deploy c s) (deploy-live c s h k.0) k.1
