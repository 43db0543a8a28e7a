-- ===== src/Execution/Standby.antt =====
-- Two supervisors of one workspace (execution/supervisor.py, `tick`), kept apart by the lease.
use Prim.Native.String.{◌++◌ as join}
use rya.Prelude.{
  ℕ, ◌+◌, ◌<◌, max, String, ◌≡◌, refl, sym, ap, ◌∙◌, ◌≢◌, ◌⊎◌, Bool, true, false, Option, none,
  some, List, [], ◌∷◌, arith, lt→ltb, eq_iff, str_eq, Bool-cases, inl, inr,
}
use rya.Errors.{Code, Result, ok, err}
use rya.Store.{Store}
use rya.Store.Docs.{Lease, Worker}
use rya.Store.Table
use rya.Store.Workers.{registration_id, deregister_found, worker_deregister}
use rya.Store.Leases.{lease_id, slug, is_taken, lease_acquire, lease_get, new_lease, unless_taken}
use rya.Leases
use rya.Deployments.Resolves.{ok_injective}
use rya.Execution.Fleet.{Config, Action, reaps, starts, stops, View, WorkerHandle, plan}
use rya.Execution.Supervisor.{
  Acquire, file_acquire, Driver, World, Tick, lease_name, observe, with_lease, hold_lease, act,
  tick, ticked, reap_worker, started_one, carry_out, carry_out_all, apply,
}

lease_get-leases :
    (name : String) (s u : Store) → s.leases ≡ u.leases → lease_get name s ≡ lease_get name u
unfolding lease_get
lease_get-leases name s u e = ap (Table.get lease_id (slug name)) e

deregister_found-leases :
    (now : ℕ) (o : Option Worker) (s : Store) → (deregister_found now "lost" o s).leases ≡ s.leases
deregister_found-leases now none s = refl
deregister_found-leases now (some w) s = refl

reap_worker-leases :
    {D : Type 0} (driver : Driver D) (c : Config) (now : ℕ) (i : String) (s : Store)
    → (reap_worker driver c now i s).leases ≡ s.leases
unfolding worker_deregister
reap_worker-leases driver c now i s = elim (Bool-cases (str_eq i "")) [
  | inl e ↦ rw (reap_worker, e) refl
  | inr e ↦
      rw (reap_worker, e) (deregister_found-leases now (Table.get registration_id i s.workers) s)
]

module _ {D : Type 0} (driver : Driver D) (c : Config) (now : ℕ) where
  started_one-leases :
      (key : String) (a : Action) (r : Result WorkerHandle × D) (w : World D)
      → (started_one driver c key a r w).1.store.leases ≡ w.store.leases
  started_one-leases key a (ok h, d) w = refl
  started_one-leases key a (err e, d) w = refl

  carry_out-leases :
      (a : Action) (w : World D) → (carry_out driver c now a w).1.store.leases ≡ w.store.leases
  unfolding carry_out
  carry_out-leases (reaps key i) w = reap_worker-leases driver c now i w.store
  carry_out-leases (starts key r p) w =
      started_one-leases key (starts key r p) (driver.start p w.driven) w
  carry_out-leases (stops key h) w = refl

  -- Carrying out a plan leaves the leases alone.
  carry_out_all-leases :
      (acts : List Action) (w : World D)
      → (carry_out_all driver c now acts w).1.store.leases ≡ w.store.leases
  unfolding carry_out_all
  carry_out_all-leases [] w = refl
  carry_out_all-leases (a ∷ acts) w =
      carry_out_all-leases acts (carry_out driver c now a w).1 ∙ carry_out-leases a w

  act-leases :
      (held : Bool) (v : View) (acts : List Action) (w : World D)
      → (act driver c now held v acts w).1.store.leases ≡ w.store.leases
  unfolding act apply
  act-leases true v acts w = carry_out_all-leases acts _
  act-leases false v acts w = refl

  -- A tick that is not passive has taken the lease and leaves it stored.
  record Held (l : Lease) (w : World D) : Type 0 where
    pub holder : l.holder ≡ c.id
    pub until : l.expires_at ≡ now + max 1 c.policy.lease_seconds
    pub stored : lease_get (lease_name c) w.store ≡ some l

  hold_lease_asks :
      (ask : Acquire) (w : World D)
      → c.policy.require_lease ≡ true
      → hold_lease driver (some ask) c now w
        ≡ with_lease driver c (ask now (lease_name c) c.id c.policy.lease_seconds w.store) w
  unfolding hold_lease
  hold_lease_asks ask w e = rw e refl

  act-Held :
      (v : View) (acts : List Action) (w : World D) (o : Option Lease × Store)
      → lease_acquire now (lease_name c) c.id c.policy.lease_seconds w.store ≡ o
      → let (held, u) = with_lease driver c (ok o.0, o.1) w in
        (act driver c now held v acts u).0.passive ≡ false
        → (l : Lease) × Held l (act driver c now held v acts u).1
  unfolding act
  act-Held v acts w (none, s) e h = cc
  act-Held v acts w (some l, s) e h =
      let (stored, held_by, expires) =
        Leases.acquired now (lease_name c) c.id c.policy.lease_seconds w.store l
          (ap (λ x. x.0) e) in
      (
        l,
        record {
          holder = held_by;
          until = expires;
          stored =
              lease_get-leases (lease_name c) _ _
                (act-leases true v acts (with_lease driver c (ok (some l), s) w).1)
              ∙ ap (λ x. lease_get (lease_name c) x.1) (sym e)
              ∙ stored;
        },
      )

  ticked-Held :
      (r : Result View) (w w' : World D) (t : Tick)
      → c.policy.require_lease ≡ true
      → ticked driver (some (file_acquire none)) c now r w ≡ (ok t, w')
      → t.passive ≡ false
      → (l : Lease) × Held l w'
  ticked-Held (err x) w w' t q e h = cc
  ticked-Held (ok v) w w' t q e h =
      let o = lease_acquire now (lease_name c) c.id c.policy.lease_seconds w.store in
      let acts = plan c w.store v in
      let same =
        ap (λ x. act driver c now x.0 v acts x.1) (sym (hold_lease_asks (file_acquire none) w q)) in
      let left = ok_injective _ _ (ap (λ x. x.0) e) in
      let right = ap (λ x. x.1) e in
      let active = ap (λ x. x.0.passive) same ∙ ap (λ x. x.passive) left ∙ h in
      let (l, held) = act-Held v acts w o refl active in
      (l, rw (← (ap (λ x. x.1) same ∙ right)) held)

  -- While another supervisor's lease has time left, a tick is passive.
  refused :
      (later : ℕ) (l : Lease) (holder : String) (ttl : ℕ) (s : Store)
      → lease_get (lease_name c) s ≡ some l
      → l.holder ≢ holder
      → later < l.expires_at
      → lease_acquire later (lease_name c) holder ttl s ≡ (none, s)
  unfolding lease_acquire is_taken
  refused later l holder ttl s e ne lt =
      let taken : is_taken later holder (some l) ≡ true =
        ground (arith, lt→ltb later l.expires_at lt, eq_iff l.holder holder) in
      ap
        (λ t.
          unless_taken t (new_lease later (lease_name c) holder ttl (lease_get (lease_name c) s)) s)
        (ap (is_taken later holder) e ∙ taken)

  ticked-idle :
      (r : Result View) (w w' : World D) (t : Tick)
      → c.policy.require_lease ≡ true
      → lease_acquire now (lease_name c) c.id c.policy.lease_seconds w.store ≡ (none, w.store)
      → ticked driver (some (file_acquire none)) c now r w ≡ (ok t, w')
      → (t.passive ≡ true) × (t.done ≡ []) × (w'.driven ≡ w.driven) × (w'.store ≡ w.store)
  unfolding act
  ticked-idle (err x) w w' t q n e = cc
  ticked-idle (ok v) w w' t q n e =
      let acts = plan c w.store v in
      let none_held =
        hold_lease_asks (file_acquire none) w q ∙ ap (λ o. with_lease driver c (ok o.0, o.1) w) n in
      let same = ap (λ x. act driver c now x.0 v acts x.1) (sym none_held) in
      let left = ap (λ x. x.0) same ∙ ok_injective _ _ (ap (λ x. x.0) e) in
      let right = ap (λ x. x.1) same ∙ ap (λ x. x.1) e in
      (
        sym (ap (λ x. x.passive) left),
        sym (ap (λ x. x.done) left),
        sym (ap (λ x. x.driven) right),
        sym (ap (λ x. x.store) right),
      )

-- A supervisor whose `lease_acquire` raises acts anyway.
module _ {D : Type 0} (driver : Driver D) (c : Config) (now : ℕ) where
  raised-active :
      (x : Code) (r : Result View) (w w' : World D) (t : Tick)
      → c.policy.require_lease ≡ true
      → ticked driver (some (file_acquire (some x))) c now r w ≡ (ok t, w')
      → t.passive ≡ false
  unfolding act
  raised-active x (err y) w w' t q e = cc
  raised-active x (ok v) w w' t q e =
      let acts = plan c w.store v in
      let same =
        ap (λ h. act driver c now h.0 v acts h.1)
          (sym (hold_lease_asks driver c now (file_acquire (some x)) w q)) in
      sym (ap (λ y. y.0.passive) same ∙ ap (λ y. y.passive) (ok_injective _ _ (ap (λ y. y.0) e)))

-- When a supervisor that requires the lease, and whose `lease_acquire` did not raise, has made a
-- tick that is not passive, and another supervisor of the workspace that requires the lease, with
-- another id, its own driver and the leases of the store as that tick left them, makes a tick
-- that returns before the lease seconds (at least one) of the first have run out, then either the
-- other's `lease_acquire` did not raise, and its tick is passive and carries out nothing, what it
-- drives and the store being as they were; or its `lease_acquire` raised, and its tick is not
-- passive: it acts without the lease.
pub standby_waits :
    {D E : Type 0} (driver : Driver D) (other : Driver E) (c b : Config) (now later : ℕ)
    (outage : Option Code) (w w' : World D) (u u' : World E) (t t' : Tick)
    → c.policy.require_lease ≡ true
    → b.policy.require_lease ≡ true
    → b.workspace ≡ c.workspace
    → c.id ≢ b.id
    → tick driver (some (file_acquire none)) c now w ≡ (ok t, w')
    → t.passive ≡ false
    → u.store.leases ≡ w'.store.leases
    → later < now + max 1 c.policy.lease_seconds
    → tick other (some (file_acquire outage)) b later u ≡ (ok t', u')
    → ((outage ≡ none)
        × (t'.passive ≡ true)
        × (t'.done ≡ [])
        × (u'.driven ≡ u.driven)
        × (u'.store ≡ u.store))
      ⊎ ((outage ≢ none) × (t'.passive ≡ false))
unfolding tick
standby_waits driver other c b now later (some x) w w' u u' t t' need need' same ne e active kept lt
      e' =
    inr (λ q. cc q, raised-active other b later x (observe other b later u) u u' t' need' e')
standby_waits driver other c b now later none w w' u u' t t' need need' same ne e active kept lt
      e' =
    let (l, held) = ticked-Held driver c now (observe driver c now w) w w' t need e active in
    let shared : lease_get (lease_name b) u.store ≡ some l =
      ap (λ x. lease_get (join "supervisor:" x) u.store) same
      ∙ lease_get-leases (lease_name c) _ _ kept
      ∙ held.stored in
    let out =
      refused other b later later l b.id b.policy.lease_seconds u.store shared
        (λ x. ne (sym held.holder ∙ x)) (rw held.until lt) in
    let (p, d, x, y) = ticked-idle other b later (observe other b later u) u u' t' need' out e' in
    inl (refl, p, d, x, y)
