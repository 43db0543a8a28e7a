-- ===== src/Execution/Supervisor.antt =====
-- execution/supervisor.py: the tick of a supervisor, over a driver that starts and stops workers.
use Prim.Native.String.{◌++◌ as join}
use rya.Prelude.{
  ℕ, suc, String, Bool, true, false, Option, none, some, List, [], ◌∷◌, ◌++◌, keep, length, str_eq,
}
use rya.Errors.{Code, Exec, Result, ok, err}
use rya.Store.{Store}
use rya.Store.Docs.{Worker, WorkerStatus, Lease}
use rya.Store.Leases.{lease_acquire, lease_release}
use rya.Store.Workers.{worker_list, worker_deregister}
use rya.Execution.Scope.{Claimable}
use rya.Execution.Peek.{peek}
use rya.Execution.Fleet.{Config, WorkerHandle, WorkerSpec, Action, reaps, starts, stops, View, plan}

-- ExecutionDriver, over the state of what it drives
pub record Driver (D : Type 0) : Type 0 where
  pub list : D → Result (List WorkerHandle)
  pub start : WorkerSpec → D → Result WorkerHandle × D
  pub stop : WorkerHandle → D → Result (Unit {0}) × D

-- an action that was carried out, the handle that it made, and whether it succeeded
pub record Done : Type 0 where
  pub action : Action
  pub handle : Option String
  pub success : Bool

-- The fields of a `Supervisor` that change.
pub record Supervisor : Type 0 where
  pub started : List WorkerHandle
  pub ticks : ℕ
  pub actions : List Done
  pub lease : Option Lease
  pub passive : Bool

-- The supervisor, what it drives and the store.
pub record World (D : Type 0) : Type 0 where
  pub supervisor : Supervisor
  pub driven : D
  pub store : Store

-- What `tick` returns.
pub record Tick : Type 0 where
  pub number : ℕ
  pub done : List Done
  pub alive_count : ℕ
  pub lost_count : ℕ
  pub passive : Bool
  pub withheld : List Action

abbrev pub is_alive : Worker → Bool
is_alive w = elim w.status [ WorkerStatus.alive ↦ true | _ ↦ false ]

abbrev pub is_lost : Worker → Bool
is_lost w = elim w.status [ WorkerStatus.lost ↦ true | _ ↦ false ]

abbrev pub or_started : Result (List WorkerHandle) → List WorkerHandle → List WorkerHandle
or_started (ok hs) mine = hs
or_started (err c) mine = mine

abbrev pub seen : List Worker → List WorkerHandle → Result (List Claimable) → Result View
seen ws hs (err c) = err c
seen ws hs (ok gs) =
    ok (record { alive = keep is_alive ws; lost = keep is_lost ws; launched = hs; claimable = gs })

-- lease_name
abbrev pub lease_name : Config → String
lease_name c = join "supervisor:" c.workspace

abbrev pub has_lease : Option Lease → Bool
has_lease none = false
has_lease (some l) = true

-- The `lease_acquire` of the supervisor's store, which may raise; a store of before may have none.
abbrev pub Acquire : Type 0
Acquire = ℕ → String → String → ℕ → Exec Store (Option Lease)

-- the method of `FileStore`, which an outage of what it stands on makes raise
abbrev pub file_acquire : Option Code → Acquire
file_acquire none now name holder ttl s =
    let (l, t) = lease_acquire now name holder ttl s in (ok l, t)
file_acquire (some e) now name holder ttl s = (err e, s)

module _ {D : Type 0} (driver : Driver D) (c : Config) where
  -- observe
  unfoldable pub observe : ℕ → World D → Result View
  observe now w =
      seen (worker_list now w.store) (or_started (driver.list w.driven) w.supervisor.started)
        (peek c.workspace none now w.store)

  abbrev pub with_lease : Result (Option Lease) × Store → World D → Bool × World D
  with_lease (ok l, s) w =
      (has_lease l, record w { supervisor = record w.supervisor { lease = l }; store = s })
  -- acting anyway
  with_lease (err e, s) w = (true, record w { store = s })

  abbrev pub ask_for_lease : Option Acquire → ℕ → World D → Bool × World D
  ask_for_lease none now w = (true, w)
  ask_for_lease (some ask) now w =
      with_lease (ask now (lease_name c) c.id c.policy.lease_seconds w.store) w

  abbrev pub reap_worker : ℕ → String → Store → Store
  reap_worker now i s = elim (str_eq i "") [ true ↦ s | false ↦ worker_deregister now i "lost" s ]

  -- the handle is filed under the key of the action
  abbrev pub started_one : String → Action → Result WorkerHandle × D → World D → Done × World D
  started_one key a (ok h, d) w = (
    record { action = a; handle = some h.id; success = true },
    record w {
      supervisor = record w.supervisor {
        started = w.supervisor.started ++ (record h { key = key }) ∷ [];
      };
      driven = d;
    },
  )
  started_one key a (err e, d) w =
      (record { action = a; handle = none; success = false }, record w { driven = d })

  abbrev pub succeeded : Result (Unit {0}) → Bool
  succeeded (ok u) = true
  succeeded (err e) = false

  -- one round of the loop of `apply`
  unfoldable pub carry_out : ℕ → Action → World D → Done × World D
  carry_out now (reaps key i) w = (
    record { action = reaps key i; handle = none; success = true },
    record w { store = reap_worker now i w.store },
  )
  carry_out now (starts key r p) w = started_one key (starts key r p) (driver.start p w.driven) w
  carry_out now (stops key h) w =
      let (r, d) = driver.stop h w.driven in
      (
        record { action = stops key h; handle = none; success = succeeded r },
        record w { driven = d },
      )

  unfoldable pub carry_out_all : ℕ → List Action → World D → List Done × World D
  unfolding carry_out
  carry_out_all now [] w = ([], w)
  carry_out_all now (a ∷ acts) w =
      let (done, v) = carry_out now a w in
      let (later, u) = carry_out_all now acts v in (done ∷ later, u)

  -- apply
  unfoldable pub apply : ℕ → List Action → World D → List Done × World D
  unfolding carry_out_all
  apply now acts w =
      let (done, v) = carry_out_all now acts w in
      (
        done,
        record v { supervisor = record v.supervisor { actions = v.supervisor.actions ++ done } },
      )

  abbrev pub set_passive : Bool → World D → World D
  set_passive b w = record w { supervisor = record w.supervisor { passive = b } }

  abbrev pub counted : World D → World D
  counted w = record w { supervisor = record w.supervisor { ticks = suc w.supervisor.ticks } }

  -- the plan is applied, or withheld
  unfoldable pub act : ℕ → Bool → View → List Action → World D → Tick × World D
  unfolding apply
  act now true v acts w =
      let (done, u) = apply now acts (set_passive false w) in
      (
        record {
          number = suc u.supervisor.ticks;
          done = done;
          alive_count = length v.alive;
          lost_count = length v.lost;
          passive = false;
          withheld = [];
        },
        counted u,
      )
  act now false v acts w = (
    record {
      number = suc w.supervisor.ticks;
      done = [];
      alive_count = length v.alive;
      lost_count = length v.lost;
      passive = true;
      withheld = acts;
    },
    counted (set_passive true w),
  )

  abbrev pub if_leased : Option Lease → World D → World D
  if_leased none w = w
  if_leased (some l) w = record w {
    supervisor = record w.supervisor { lease = none };
    store = (lease_release (lease_name c) c.id w.store).1;
  }

  -- release_lease
  unfoldable pub release_lease : World D → World D
  release_lease w = if_leased w.supervisor.lease w

module _ {D : Type 0} (driver : Driver D) (acquire : Option Acquire) (c : Config) where
  -- hold_lease
  unfoldable pub hold_lease : ℕ → World D → Bool × World D
  hold_lease now w = elim c.policy.require_lease [
    | false ↦ (true, w)
    | true ↦ ask_for_lease driver c acquire now w
  ]

  abbrev pub ticked : ℕ → Result View → World D → Result Tick × World D
  ticked now (err e) w = (err e, w)
  ticked now (ok v) w =
      let acts = plan c w.store v in
      let (held, u) = hold_lease now w in let (t, x) = act driver c now held v acts u in (ok t, x)

  -- tick
  unfoldable pub tick : ℕ → World D → Result Tick × World D
  unfolding observe hold_lease act
  tick now w = ticked now (observe driver c now w) w
