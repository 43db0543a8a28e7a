-- ===== src/Leases.antt =====
-- The named leases of store.py, by which supervisors keep apart: who holds one, and for how long.
use mathlib.Core.Option.{some-injective}
use rya.Prelude.{
  ℕ, ◌+◌, ◌<◌, max, String, ◌≡◌, refl, sym, ap, ◌∙◌, ◌≢◌, inl, inr, Bool, true, false, none, some,
  List, [], ◌∷◌, lt→ltb, str_eq, eq_iff, arith, Bool-cases,
}
use rya.Store.{Store}
use rya.Store.Docs.{Lease}
use rya.Store.Leases.{
  slug, lease_id, lease_get, is_taken, is_held_by, removed, unless_taken, if_held, new_lease,
  lease_acquire, lease_release,
}
use rya.Store.Table

-- A call of a holder, with the time of an acquire.
pub data LeaseCall : Type 0 where
  acquires : (now : ℕ) (name holder : String) (ttl_seconds : ℕ) → LeaseCall
  releases : (name holder : String) → LeaseCall

unfoldable pub lease_step : LeaseCall → Store → Store
lease_step (acquires now name holder ttl) s = (lease_acquire now name holder ttl s).1
lease_step (releases name holder) s = (lease_release name holder s).1

unfoldable pub lease_run : List LeaseCall → Store → Store
lease_run [] s = s
lease_run (c ∷ cs) s = lease_run cs (lease_step c s)

-- The calls of the others before a time.
abbrev pub IsOther : String → ℕ → LeaseCall → Type 0
IsOther holder until (acquires now name other ttl) = (other ≢ holder) × (now < until)
IsOther holder until (releases name other) = other ≢ holder

abbrev pub AreOthers : String → ℕ → List LeaseCall → Type 0
AreOthers holder until [] = Unit
AreOthers holder until (c ∷ cs) = IsOther holder until c × AreOthers holder until cs

-- x
removed-get :
    (i j : String) (t : List Lease)
    → str_eq j i ≡ false
    → Table.get lease_id i (removed j t) ≡ Table.get lease_id i t
unfolding Table.get
removed-get i j [] n = refl
removed-get i j (l ∷ t) n =
    ground (arith, removed-get i j t n, eq_iff l.id i, eq_iff l.id j, eq_iff j i)

module _ (l : Lease) (name : String) (s : Store) (stands : lease_get name s ≡ some l) where
  same_name : (other : String) → str_eq (slug other) (slug name) ≡ true → lease_get other s ≡ some l
  unfolding lease_get
  same_name other q =
      ap (λ i. Table.get lease_id i s.leases) ((eq_iff (slug other) (slug name)).0 q) ∙ stands

  -- A holder that the lease keeps out writes under another name, if at all.
  kept_out :
      (now : ℕ) (other holder : String)
      → holder ≢ l.holder
      → now < l.expires_at
      → is_taken now holder (lease_get other s) ≡ false
      → str_eq (slug other) (slug name) ≡ false
  unfolding is_taken
  kept_out now other holder ne lt t = elim (Bool-cases (str_eq (slug other) (slug name))) [
    | inr q ↦ q
    | inl q ↦ ground (
      arith,
      eq_iff l.holder holder,
      lt→ltb now l.expires_at lt,
      ap (is_taken now holder) (same_name other q),
    )
  ]

  taken_by_none :
      (t : Bool) (u : Lease)
      → (t ≡ false → str_eq u.id (slug name) ≡ false)
      → lease_get name (unless_taken t u s).1 ≡ some l
  unfolding lease_get
  taken_by_none true u h = stands
  taken_by_none false u h = Table.get-save lease_id (slug name) u s.leases ∙ rw (h refl) stands

  dropped_by_none :
      (t : Bool) (i : String)
      → (t ≡ true → str_eq i (slug name) ≡ false)
      → lease_get name (if_held t i s).1 ≡ some l
  unfolding lease_get
  dropped_by_none false i h = stands
  dropped_by_none true i h = removed-get (slug name) i s.leases (h refl) ∙ stands

  -- The others can neither take nor drop a lease that has time left.
  step-keeps :
      (c : LeaseCall) → IsOther l.holder l.expires_at c → lease_get name (lease_step c s) ≡ some l
  unfolding lease_step lease_acquire lease_release new_lease
  step-keeps (acquires now other holder ttl) (ne, lt) =
      taken_by_none (is_taken now holder (lease_get other s))
        (new_lease now other holder ttl (lease_get other s)) (kept_out now other holder ne lt)
  step-keeps (releases other holder) ne =
      dropped_by_none (is_held_by holder (lease_get other s)) (slug other) (λ t.
        elim (Bool-cases (str_eq (slug other) (slug name))) [
          | inr q ↦ q
          | inl q ↦ absurd (
              ne (
                sym (
                  (eq_iff l.holder holder).0
                    (ap (is_held_by holder) (sym (same_name other q)) ∙ t))))
        ])

module _ (l : Lease) (name : String) where
  run-keeps :
      (calls : List LeaseCall) (s : Store)
      → lease_get name s ≡ some l
      → AreOthers l.holder l.expires_at calls
      → lease_get name (lease_run calls s) ≡ some l
  unfolding lease_run
  run-keeps [] s e h = e
  run-keeps (c ∷ cs) s e h = run-keeps cs (lease_step c s) (step-keeps l name s e c h.0) h.1

-- What an acquire that succeeds has written.
pub acquired :
    (now : ℕ) (name holder : String) (ttl : ℕ) (s : Store) (l : Lease)
    → (lease_acquire now name holder ttl s).0 ≡ some l
    → (lease_get name (lease_acquire now name holder ttl s).1 ≡ some l)
      × (l.holder ≡ holder)
      × (l.expires_at ≡ now + max 1 ttl)
unfolding lease_acquire lease_get new_lease
acquired now name holder ttl s l e =
    by_test (is_taken now holder (lease_get name s))
      (new_lease now name holder ttl (lease_get name s)) refl refl refl e
  where
    by_test :
        (t : Bool) (u : Lease)
        → u.id ≡ slug name
        → u.holder ≡ holder
        → u.expires_at ≡ now + max 1 ttl
        → (unless_taken t u s).0 ≡ some l
        → (lease_get name (unless_taken t u s).1 ≡ some l)
          × (l.holder ≡ holder)
          × (l.expires_at ≡ now + max 1 ttl)
    by_test true u i h x f = cc
    by_test false u i h x f =
        let same : u ≡ l = some-injective _ _ f in
        (
          Table.get-save lease_id (slug name) u s.leases ∙ rw ((eq_iff u.id (slug name)).1 i) f,
          rw (← same) h,
          rw (← same) x,
        )

-- When a holder acquires a lease, and until its time to live (at least one second) has run out
-- other holders call `lease_acquire` and `lease_release` under any names, another holder that
-- acquires or releases it before that time is refused and nothing is written, and the lease
-- stands as it was acquired.
pub lease_exclusive :
    (now : ℕ) (name holder : String) (ttl : ℕ) (s : Store) (l : Lease) (calls : List LeaseCall)
    (other : String) (later ttl' : ℕ)
    → (lease_acquire now name holder ttl s).0 ≡ some l
    → AreOthers holder (now + max 1 ttl) calls
    → other ≢ holder
    → later < now + max 1 ttl
    → let s' = lease_run calls (lease_acquire now name holder ttl s).1 in
      (lease_acquire later name other ttl' s' ≡ (none, s'))
      × (lease_release name other s' ≡ (false, s'))
      × (lease_get name s' ≡ some l)
unfolding lease_acquire lease_release is_taken
lease_exclusive now name holder ttl s l calls other later ttl' e h ne lt =
    let (stored, held_by, until) = acquired now name holder ttl s l e in
    let s' = lease_run calls (lease_acquire now name holder ttl s).1 in
    let stands = run-keeps l name calls _ stored (rw (held_by, until) h) in
    let refused : is_taken later other (some l) ≡ true =
      ground
        (arith, held_by, until, lt→ltb later l.expires_at (rw until lt), eq_iff l.holder other) in
    let foreign : is_held_by other (some l) ≡ false =
      ground (arith, held_by, eq_iff l.holder other) in
    (
      ap (λ t. unless_taken t (new_lease later name other ttl' (lease_get name s')) s')
          (ap (is_taken later other) stands ∙ refused),
      ap (λ t. if_held t (slug name) s') (ap (is_held_by other) stands ∙ foreign),
      stands,
    )
