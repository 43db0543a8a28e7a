-- ===== src/Deployments/Retirement.antt =====
-- When a version may be retired (deployments.py, `retire`).
use rya.Prelude.{
  ℕ, String, true, false, not, ◌&&◌, Option, none, some, List, [], ◌∷◌, ◌≡◌, refl, sym, ap, ◌∙◌,
  ◌≢◌, ◌⊎◌, inl, inr, arith, Bool-cases, str_eq, eq_iff, eq_refl, Member, Member-keep,
  Member-keep_of,
}
use rya.Errors.{ok, err, e_version_in_use}
use rya.Store.{Store}
use rya.Store.Docs.{Version, Environment, Run}
use rya.Store.Reads.{is_terminal_status}
use rya.Deployments.Tables.{version_get, names, env_list, pinned_runs, retired_version, put_version}
use rya.Deployments.Actions.{
  any_current, none_left, is_retired, require_version, retire_version, retire,
}

names-some : (i : String) (o : Option String) → names i o ≡ true → o ≡ some i
names-some i none e = cc
names-some i (some j) e = ground (arith, eq_iff j i)

some-names : (i : String) (o : Option String) → o ≡ some i → names i o ≡ true
some-names i o e = rw e (eq_refl i)

-- No environment of the agent points at the version, and every run pinned to it is over.
pub record Unused (i agent : String) (s : Store) : Type 0 where
  pub pointers :
      (e : Environment) → Member e s.environments → e.agent ≡ agent → e.current_version_id ≢ some i
  pub runs :
      (r : Run) → Member r s.runs → r.version_id ≡ some i → is_terminal_status r.status ≡ true

any_current-Member :
    (i : String) (es : List Environment)
    → any_current i es ≡ false
    → (e : Environment) → Member e es
    → e.current_version_id ≢ some i
any_current-Member i [] h e m = absurd m
any_current-Member i (d ∷ es) h e (inl q) = λ c.
    let on : names i d.current_version_id ≡ true =
      some-names i _ (ap (λ x. x.current_version_id) (sym q) ∙ c) in
    ground arith
any_current-Member i (d ∷ es) h e (inr m) = any_current-Member i es (ground arith) e m

Member-any_current :
    (i : String) (es : List Environment)
    → ((e : Environment) → Member e es → e.current_version_id ≢ some i)
    → any_current i es ≡ false
Member-any_current i [] h = refl
Member-any_current i (d ∷ es) h = elim (Bool-cases (names i d.current_version_id)) [
  | inl b ↦ absurd (h d (inl refl) (names-some i _ b))
  | inr b ↦ rw b (Member-any_current i es (λ e m. h e (inr m)))
]

none_left-Member : {A : Type 0} (xs : List A) → none_left xs ≡ true → (x : A) → Member x xs → ⊥
none_left-Member [] h x m = m
none_left-Member (y ∷ ys) h x m = cc

Member-none_left : {A : Type 0} (xs : List A) → ((x : A) → Member x xs → ⊥) → none_left xs ≡ true
Member-none_left [] h = refl
Member-none_left (y ∷ ys) h = absurd (h y (inl refl))

module _ (i agent : String) (s : Store) where
  Unused-to :
      any_current i (env_list agent s) ≡ false
      → none_left (pinned_runs i s) ≡ true
      → Unused i agent s
  unfolding env_list pinned_runs
  Unused-to h k = record {
    pointers = λ e m a.
        any_current-Member i _ h e
          (Member-keep_of (λ x. str_eq x.agent agent) e s.environments m (rw a (eq_refl agent)));
    runs = λ r m v. elim (Bool-cases (is_terminal_status r.status)) [
      | inl t ↦ t
      | inr t ↦ absurd (
          none_left-Member _ k r (
            Member-keep_of (λ x. names i x.version_id && not (is_terminal_status x.status)) r s.runs
              m (rw (some-names i _ v, t))))
    ];
  }

  Unused-from :
      Unused i agent s
      → (any_current i (env_list agent s) ≡ false) × (none_left (pinned_runs i s) ≡ true)
  unfolding env_list pinned_runs
  Unused-from u = (
    Member-any_current i _ (λ e m.
        let (n, p) = Member-keep (λ x. str_eq x.agent agent) e s.environments m in
        u.pointers e n (ground (arith, eq_iff e.agent agent))),
    Member-none_left _ (λ r m.
        let (n, p) =
          Member-keep (λ x. names i x.version_id && not (is_terminal_status x.status)) r s.runs m in
        let over = u.runs r n (names-some i r.version_id (ground arith)) in ground arith),
  )

-- Without force, an active version is retired exactly if no environment of its agent points at it
-- and every run pinned to it is over; otherwise the call raises E_VERSION_IN_USE and nothing is
-- written.
pub retire_exact :
    (now : ℕ) (i : String) (s : Store) (v : Version)
    → version_get i s ≡ some v
    → is_retired v ≡ false
    → (Unused i v.agent s
        × (retire now i false s
            ≡ (ok (retired_version now v), put_version (retired_version now v) s)))
      ⊎ ((¬ Unused i v.agent s) × (retire now i false s ≡ (err e_version_in_use, s)))
unfolding retire retire_version require_version
retire_exact now i s v f l = elim (Bool-cases (any_current i (env_list v.agent s))) [
  | inl a ↦ inr ((λ u. cc (a, (Unused-from i v.agent s u).0)), rw (f, l, a))
  | inr a ↦ elim (Bool-cases (none_left (pinned_runs i s))) [
    | inl b ↦ inl (Unused-to i v.agent s a b, rw (f, l, a, b))
    | inr b ↦ inr ((λ u. cc (b, (Unused-from i v.agent s u).1)), rw (f, l, a, b))
  ]
]
