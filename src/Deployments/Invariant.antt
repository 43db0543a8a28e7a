-- ===== src/Deployments/Invariant.antt =====
-- What no call of deployments.py breaks, unless a retirement is forced: every environment points at a
-- version that is there, belongs to its agent and is not retired.
use rya.Prelude.{
  ℕ, String, Bool, false, Option, none, some, ◌≡◌, refl, sym, ap, ◌∙◌, ◌≢◌, inl, inr, arith,
  Bool-cases, str_eq, eq_iff, Member,
}
use mathlib.Core.Option.{some-injective}
use rya.Errors.{Result, ok}
use rya.Store.{Store}
use rya.Store.Docs.{Version, Environment}
use rya.Store.Table
use rya.Deployments.Tables.{
  version_get, version_key, env_get, env_id, put_version, retired_version, pointed_at,
  new_environment,
}
use rya.Deployments.Actions.{
  environment_name, is_retired, promote, retire, require_version, retire_version,
}
use rya.Deployments.Pointers.{moved, Promoted, promote-Promoted}
use rya.Deployments.Retirement.{retire_exact}

-- The version that an environment points at may run.
abbrev pub Runs : Store → Environment → String → Type 0
Runs s e i =
    (v : Version) × (version_get i s ≡ some v) × (v.agent ≡ e.agent) × (is_retired v ≡ false)

pub record ArePointersLive (s : Store) : Type 0 where
  pub environments : Table.Unique env_id s.environments
  pub versions : Table.Unique version_key s.versions
  pub live :
      (e : Environment)
      → Member e s.environments
      → (i : String) → e.current_version_id ≡ some i
      → Runs s e i

-- No other agent's environment is stored under the key of this one.
abbrev pub IsOwnKey : String → String → Store → Type 0
IsOwnKey name agent s = (d : Environment) → env_get name agent s ≡ some d → d.agent ≡ agent

module _ (now : ℕ) (name agent i : String) (actor : Option String) (s : Store) where
  moved-agent :
      (o : Option Environment)
      → env_get name agent s ≡ o
      → IsOwnKey name agent s
      → (moved now name agent i actor s).agent ≡ agent
  unfolding pointed_at new_environment
  moved-agent none e h = rw e
  moved-agent (some d) e h = rw e (h d e)

  moved-current : (moved now name agent i actor s).current_version_id ≡ some i
  unfolding pointed_at
  moved-current = refl

Promoted-live :
    (now : ℕ) (environment agent i : String) (actor : Option String) (s : Store)
    (r : Result Environment × Store)
    → ArePointersLive s
    → ((name : String) → environment_name environment ≡ ok name → IsOwnKey name agent s)
    → Promoted now environment agent i actor s r
    → ArePointersLive r.1
Promoted-live now environment agent i actor s r h k p =
    let m = moved now p.name agent i actor s in
    rw p.outcome (record {
      environments = Table.Unique-save env_id m s.environments h.environments;
      versions = h.versions;
      live = λ e n j c. elim (Table.Member-save env_id m e s.environments h.environments n) [
        | inl q ↦
            let same : j ≡ i = some-injective _ _ (
              sym c
              ∙ (ap (λ x. x.current_version_id) q ∙ moved-current now p.name agent i actor s)) in
            (
              p.version,
              ap (λ x. version_get x s) same ∙ p.found,
              p.own
                  ∙ sym (
                      ap (λ x. x.agent) q
                      ∙ moved-agent now p.name agent i actor s _ refl (k p.name p.named)),
              p.live,
            )
        | inr (old, apart) ↦ h.live e old j c
      ];
    })

pub promote-live :
    (now : ℕ) (fresh environment agent i : String) (actor : Option String) (gate force : Bool)
    (s : Store)
    → ArePointersLive s
    → ((name : String) → environment_name environment ≡ ok name → IsOwnKey name agent s)
    → ArePointersLive (promote now fresh environment agent i actor gate force s).1
promote-live now fresh environment agent i actor gate force s h k =
    elim (promote-Promoted now fresh environment agent i actor gate force s) [
      | inl (c, q) ↦ rw q h
      | inr p ↦ Promoted-live now environment agent i actor s _ h k p
    ]

-- A write of a version that changes no other, seen through the id that a pointer holds.
version_get-put :
    (j : String) (v : Version) (s : Store)
    → (v.id ≢ j)
    → version_get j (put_version v s) ≡ version_get j s
unfolding put_version
version_get-put j v s n =
    let other : str_eq v.id j ≡ false = ground (arith, eq_iff v.id j) in
    Table.get-save version_key j v s.versions ∙ rw other

pub put-live :
    (v : Version) (s : Store)
    → ArePointersLive s
    → ((e : Environment) → Member e s.environments → e.current_version_id ≢ some v.id)
    → ArePointersLive (put_version v s)
unfolding put_version
put-live v s h free = record {
  environments = h.environments;
  versions = Table.Unique-save version_key v s.versions h.versions;
  live = λ e m j c.
      let (w, f, a, l) = h.live e m j c in
      (w, version_get-put j v s (λ q. free e m (c ∙ ap some (sym q))) ∙ f, a, l);
}

retired-id : (now : ℕ) (v : Version) → (retired_version now v).id ≡ v.id
unfolding retired_version
retired-id now v = refl

pub retire-live :
    (now : ℕ) (i : String) (s : Store) (o : Option Version)
    → version_get i s ≡ o
    → ArePointersLive s
    → ArePointersLive (retire now i false s).1
unfolding retire require_version retire_version
retire-live now i s none f h = rw f h
retire-live now i s (some v) f h = elim (Bool-cases (is_retired v)) [
  | inl l ↦ rw (f, l) h
  | inr l ↦ elim (retire_exact now i s v f l) [
    | inr (n, q) ↦ rw q h
    | inl (u, q) ↦ rw q (
        put-live (retired_version now v) s h (λ e m c.
          let id_of : (retired_version now v).id ≡ i =
            retired-id now v ∙ Table.get-id version_key i v s.versions f in
          let (w, g, a, alive) = h.live e m i (c ∙ ap some id_of) in
          let same : w ≡ v = some-injective _ _ (sym g ∙ f) in
          u.pointers e m (sym a ∙ ap (λ x. x.agent) same) (c ∙ ap some id_of)))
  ]
]
