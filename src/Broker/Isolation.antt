-- ===== src/Broker/Isolation.antt =====
-- What a fork can reach through the broker (broker/server.py), whatever it asks for.
use Prim.Native.String.{◌++◌ as join}
use Prim.Native.String.append
use mathlib.Core.Path.{subst}
use mathlib.Core.Option.{some-injective}
use rya.Prelude.{
  ℕ, min, String, ◌≡◌, refl, sym, ap, ◌∙◌, ◌≢◌, ◌⊎◌, inl, inr, Bool, true, false, Option, none,
  some, List, [], ◌∷◌, Member, str_eq, eq_iff, arith, Bool-cases, if◌then◌else◌,
}
use rya.Json.{Json, Fields, null, bool, whole, millionths, text, arr, obj, get_field}
use rya.Errors.{Result, ok, err, e_scope_denied, then_run}
use rya.Store.{Store}
use rya.Store.Docs.{QueueJob, Approval}
use rya.Store.Queue.{contains, queue_get}
use rya.Store.Runs.{get_approval}
use rya.Queue.Claim.{claim, is_foreign, version_of, agent_of}
use rya.Queue.Claiming.{claim_returns}
use rya.Queue.Valid.{IsQueue}
use rya.Queue.Report.{heartbeat, complete, fail}
use rya.Queue.History.{
  Call, claims, completes, fails, heartbeats, run, step, run-IsQueue, run-SameSpec, AreFreshCalls,
}
use rya.Broker.Mediation.{
  Capability, Owned, Mediated, worker_id, or_none, or_default, add_run, add_approval, approved_of,
  payload_of, add_payload, own, own_each, forced_filter, owning, claimed_by, brokered_claim,
  Transition, Reply, moved, transition_if, brokered_transition, default_lease_seconds,
}

-- What a fork asks of the broker.
pub data Request : Type 0 where
  asks_claim : (types : List String) (lease_seconds now : ℕ) → Request
  asks_move : (i : String) → Transition → (now : ℕ) → Request

module _ (cap : Capability) where
  unfoldable pub serve : Request → Mediated → Mediated
  serve (asks_claim types lease_seconds now) m = (brokered_claim cap types lease_seconds now m).1
  serve (asks_move i t now) m = (brokered_transition cap i t now m).1

  unfoldable pub serve_all : List Request → Mediated → Mediated
  serve_all [] m = m
  serve_all (r ∷ rs) m = serve_all rs (serve r m)

  -- The job may be run under the capability.
  abbrev pub IsOwn : QueueJob → Type 0
  IsOwn j = is_foreign (or_none cap.version_id) (or_none cap.agent) j ≡ false

  -- Every item of the dispatch is stored and may be run under the capability.
  abbrev pub OwnsItsOwn : Mediated → Type 0
  OwnsItsOwn m =
      (i : String)
      → Member i m.owned.jobs
      → (k : QueueJob) × (queue_get i m.store.queue ≡ some k) × IsOwn k

  -- The queue's operations behind a request.
  move_call : String → Transition → ℕ → Call
  move_call i (Transition.completes output) now = completes i (worker_id cap) output now
  move_call i (Transition.fails message) now = fails i (worker_id cap) message now
  move_call i (Transition.extends seconds) now =
      heartbeats i (worker_id cap) (min (or_default seconds) default_lease_seconds) now

  then_store :
      {A B : Type 0} (x : Result A × Store) (f : A → B)
      → (then_run x (λ a s. (ok (f a), s))).1 ≡ x.1
  then_store (ok a, s) f = refl
  then_store (err c, s) f = refl

  moved_store :
      (i : String) (t : Transition) (now : ℕ) (s : Store)
      → (moved cap i t now s).1 ≡ step (move_call i t now) s
  unfolding moved move_call step
  moved_store i (Transition.completes output) now s =
      then_store (complete i (worker_id cap) output now s) Reply.item
  moved_store i (Transition.fails message) now s =
      then_store (fail i (worker_id cap) message now s) Reply.item
  moved_store i (Transition.extends seconds) now s =
      then_store
        (heartbeat i (worker_id cap) (min (or_default seconds) default_lease_seconds) now s)
        Reply.lease

  move_fresh :
      (i : String) (t : Transition) (now : ℕ) (s : Store) → AreFreshCalls (move_call i t now ∷ []) s
  unfolding move_call
  move_fresh i (Transition.completes output) now s = (tt, tt)
  move_fresh i (Transition.fails message) now s = (tt, tt)
  move_fresh i (Transition.extends seconds) now s = (tt, tt)

-- What `_own` adds to the jobs.
add_run-jobs : (v : Json) (o : Owned) → (add_run v o).1.jobs ≡ o.jobs
unfolding add_run
add_run-jobs null o = refl
add_run-jobs (bool b) o = ground arith
add_run-jobs (whole z) o = ground arith
add_run-jobs (millionths z) o = ground arith
add_run-jobs (text s) o = ground arith
add_run-jobs (arr xs) o = ground arith
add_run-jobs (obj fs) o = ground arith

approved_of-jobs :
    (i : String) (a : Option Approval) (o : Owned) → (approved_of i a o).jobs ≡ o.jobs
approved_of-jobs i none o = refl
approved_of-jobs i (some a) o = refl

add_approval-jobs :
    (i : Option String) (s : Store) (o : Owned) → (add_approval i s o).1.jobs ≡ o.jobs
unfolding add_approval
add_approval-jobs none s o = refl
add_approval-jobs (some i) s o = ground (arith, approved_of-jobs i (get_approval i s) o)

then-jobs :
    (x : Result (Unit {0}) × Owned) (i : Option String) (s : Store)
    → (then_run x (λ u. add_approval i s)).1.jobs ≡ x.1.jobs
then-jobs (ok u, o) i s = add_approval-jobs i s o
then-jobs (err c, o) i s = refl

add_payload-jobs : (p : Option Fields) (s : Store) (o : Owned) → (add_payload p s o).1.jobs ≡ o.jobs
add_payload-jobs none s o = refl
add_payload-jobs (some fs) s o =
    then-jobs (add_run (get_field "runId" fs) o) _ s ∙ add_run-jobs (get_field "runId" fs) o

own-Member :
    (j : QueueJob) (s : Store) (o : Owned) (i : String)
    → Member i (own j s o).1.jobs
    → (i ≡ j.id) ⊎ Member i o.jobs
unfolding own
own-Member j s o i m =
    added (str_eq j.id "") (subst (Member i) (add_payload-jobs (payload_of j.payload) s _) m)
  where
    added :
        (b : Bool)
        → Member i ((λ (y : Owned). y.jobs) (if b then o else record o { jobs = j.id ∷ o.jobs }))
        → (i ≡ j.id) ⊎ Member i o.jobs
    added true n = inr n
    added false n = n

own_each-Member :
    (js : List QueueJob) (s : Store) (o : Owned) (i : String)
    → Member i (own_each js s o).1.jobs
    → ((j : QueueJob) × Member j js × (i ≡ j.id)) ⊎ Member i o.jobs
unfolding own_each
own_each-Member [] s o i m = inr m
own_each-Member (j ∷ js) s o i m =
    by_result (own j s o) (own_each-Member js s (own j s o).1 i) (own-Member j s o i) m
  where
    by_result :
        (x : Result (Unit {0}) × Owned)
        → (Member i (own_each js s x.1).1.jobs
            → ((k : QueueJob) × Member k js × (i ≡ k.id)) ⊎ Member i x.1.jobs)
        → (Member i x.1.jobs → (i ≡ j.id) ⊎ Member i o.jobs)
        → Member i (then_run x (λ u. own_each js s)).1.jobs
        → ((k : QueueJob) × Member k (j ∷ js) × (i ≡ k.id)) ⊎ Member i o.jobs
    by_result (ok u, o') later here n = elim (later n) [
      | inl (k, in_js, e) ↦ inl (k, inr in_js, e)
      | inr n' ↦ elim (here n') [ inl e ↦ inl (j, inl refl, e) | inr n'' ↦ inr n'' ]
    ]
    by_result (err c, o') later here n = elim (here n) [
      | inl e ↦ inl (j, inl refl, e)
      | inr n'' ↦ inr n''
    ]

contains-Member : (i : String) (xs : List String) → contains i xs ≡ true → Member i xs
contains-Member i [] e = cc
contains-Member i (x ∷ xs) e = elim (Bool-cases (str_eq x i)) [
  | inl h ↦ inl (sym ((eq_iff x i).0 h))
  | inr h ↦ inr (contains-Member i xs (rw h at e))
]

is_nil : String → Bool
is_nil String.[] = true
is_nil (String.◌∷◌ c s) = false

prefixed : (t x : String) → is_nil t ≡ false → is_nil (join t x) ≡ false
unfolding is_nil
prefixed String.[] x e = cc
prefixed (String.◌∷◌ c s) x e = ap is_nil (append.cons c s x)

module _ (cap : Capability) where
  named : worker_id cap ≢ ""
  unfolding worker_id is_nil
  named e =
      let h : is_nil (worker_id cap) ≡ true = ap is_nil e in
      cc (
        h,
        prefixed "brokered:"
            (join (if str_eq cap.agent "" then "-" else cap.agent) (join ":" cap.dispatch)) refl,
      )

  -- A change of the queue by its operations keeps what the dispatch may run.
  keeps_own :
      (c : Call) (s : Store) (i : String) (j : QueueJob)
      → IsQueue s.queue
      → AreFreshCalls (c ∷ []) s
      → queue_get i s.queue ≡ some j
      → (k : QueueJob) × (queue_get i (step c s).queue ≡ some k)
        × (is_foreign (or_none cap.version_id) (or_none cap.agent) k
            ≡ is_foreign (or_none cap.version_id) (or_none cap.agent) j)
  unfolding run is_foreign version_of agent_of
  keeps_own c s i j q f e =
      let (k, k_is, same) = run-SameSpec (c ∷ []) s i j q.apart f e in
      (k, k_is, rw same.metadata refl)

  -- What holds of the broker's state between the requests.
  pub record IsSafe (m : Mediated) : Type 0 where
    pub queue : IsQueue m.store.queue
    pub owns : OwnsItsOwn cap m

  abbrev claim_call : List String → ℕ → ℕ → Call
  claim_call types lease_seconds now =
      claims (worker_id cap) (forced_filter cap types) 1 (or_default lease_seconds) now

  claimed_store : (x : Result (List QueueJob) × Store) (o : Owned) → (claimed_by x o).1.store ≡ x.1
  claimed_store (err c, s) o = refl
  claimed_store (ok rs, s) o = owning_store (own_each rs s o) rs s
    where
      owning_store :
          (y : Result (Unit {0}) × Owned) (rs : List QueueJob) (s : Store)
          → (owning y rs s).1.store ≡ s
      owning_store (ok u, o) rs s = refl
      owning_store (err c, o) rs s = refl

  claimed_jobs :
      (x : Result (List QueueJob) × Store) (o : Owned) (i : String)
      → Member i (claimed_by x o).1.owned.jobs
      → ((rs : List QueueJob) × (r : QueueJob) × (x.0 ≡ ok rs) × Member r rs × (i ≡ r.id))
        ⊎ Member i o.jobs
  claimed_jobs (err c, s) o i m = inr m
  claimed_jobs (ok rs, s) o i m = by_result (own_each rs s o) refl m
    where
      by_result :
          (y : Result (Unit {0}) × Owned)
          → own_each rs s o ≡ y
          → Member i (owning y rs s).1.owned.jobs
          → ((rs' : List QueueJob) × (r : QueueJob) × (ok rs ≡ ok rs') × Member r rs' × (i ≡ r.id))
            ⊎ Member i o.jobs
      by_result (ok u, o') e n = elim (own_each-Member rs s o i (rw e n)) [
        | inl (r, in_rs, q) ↦ inl (rs, r, refl, in_rs, q)
        | inr old ↦ inr old
      ]
      by_result (err c, o') e n = elim (own_each-Member rs s o i (rw e n)) [
        | inl (r, in_rs, q) ↦ inl (rs, r, refl, in_rs, q)
        | inr old ↦ inr old
      ]

  run_one : (c : Call) (s : Store) → run (c ∷ []) s ≡ step c s
  unfolding run
  run_one c s = refl

  step-IsQueue :
      (c : Call) (s : Store) → AreFreshCalls (c ∷ []) s → IsQueue s.queue → IsQueue (step c s).queue
  step-IsQueue c s f q = subst (λ y. IsQueue y.queue) (run_one c s) (run-IsQueue (c ∷ []) s q f)

  -- What a step keeps of the items that are owned.
  still_owned :
      (c : Call) (m : Mediated) (i : String)
      → IsSafe m
      → AreFreshCalls (c ∷ []) m.store
      → Member i m.owned.jobs
      → (k : QueueJob) × (queue_get i (step c m.store).queue ≡ some k) × IsOwn cap k
  still_owned c m i h f mem =
      let (j, e, o) = h.owns i mem in
      let (k, k_is, same) = keeps_own c m.store i j h.queue f e in (k, k_is, same ∙ o)

  serve-IsSafe : (r : Request) (m : Mediated) → IsSafe m → IsSafe (serve cap r m)
  unfolding serve brokered_claim brokered_transition forced_filter step
  serve-IsSafe (asks_claim types lease_seconds now) m h =
      let c = claim_call types lease_seconds now in
      let x =
        claim (worker_id cap) (forced_filter cap types) 1 (or_default lease_seconds) now m.store in
      record {
        queue = rw (claimed_store x m.owned) (step-IsQueue c m.store (tt, tt) h.queue);
        owns = λ i mem. elim (claimed_jobs x m.owned i mem) [
          | inr old ↦ rw (claimed_store x m.owned) (still_owned c m i h (tt, tt) old)
          | inl (rs, r, is_rs, in_rs, q) ↦
              let (t, mine, stored) =
                claim_returns (worker_id cap) (forced_filter cap types) 1 (or_default lease_seconds)
                  now m.store named h.queue rs is_rs r in_rs in
              (r, rw (claimed_store x m.owned) (ap (λ y. queue_get y x.1.queue) q ∙ stored), mine)
        ];
      }
  serve-IsSafe (asks_move i t now) m h = by_owned (contains i m.owned.jobs)
    where
      by_owned : (b : Bool) → IsSafe (transition_if b cap i t now m).1
      by_owned false = h
      by_owned true = record {
        queue =
            rw (moved_store cap i t now m.store) (
              step-IsQueue (move_call cap i t now) m.store (move_fresh cap i t now m.store)
                h.queue);
        owns = λ k mem.
            rw (moved_store cap i t now m.store)
              (still_owned (move_call cap i t now) m k h (move_fresh cap i t now m.store) mem);
      }

  serve_all-IsSafe : (rs : List Request) (m : Mediated) → IsSafe m → IsSafe (serve_all cap rs m)
  unfolding serve_all
  serve_all-IsSafe [] m h = h
  serve_all-IsSafe (r ∷ rs) m h = serve_all-IsSafe rs _ (serve-IsSafe r m h)

  -- A stored job keeps what tells whose it is.
  serve-keeps :
      (r : Request) (m : Mediated) (i : String) (j : QueueJob)
      → IsSafe m
      → queue_get i m.store.queue ≡ some j
      → (k : QueueJob) × (queue_get i (serve cap r m).store.queue ≡ some k)
        × (is_foreign (or_none cap.version_id) (or_none cap.agent) k
            ≡ is_foreign (or_none cap.version_id) (or_none cap.agent) j)
  unfolding serve brokered_claim brokered_transition step
  serve-keeps (asks_claim types lease_seconds now) m i j h e =
      rw
        (claimed_store
          (claim (worker_id cap) (forced_filter cap types) 1 (or_default lease_seconds) now m.store)
          m.owned)
        (keeps_own (claim_call types lease_seconds now) m.store i j h.queue (tt, tt) e)
  serve-keeps (asks_move i' t now) m i j h e = by_owned (contains i' m.owned.jobs)
    where
      by_owned :
          (b : Bool)
          → (k : QueueJob) × (queue_get i (transition_if b cap i' t now m).1.store.queue ≡ some k)
            × (is_foreign (or_none cap.version_id) (or_none cap.agent) k
                ≡ is_foreign (or_none cap.version_id) (or_none cap.agent) j)
      by_owned false = (j, e, refl)
      by_owned true = rw (moved_store cap i' t now m.store) (
          keeps_own (move_call cap i' t now) m.store i j h.queue (move_fresh cap i' t now m.store)
            e)

  serve_all-keeps :
      (rs : List Request) (m : Mediated) (i : String) (j : QueueJob)
      → IsSafe m
      → queue_get i m.store.queue ≡ some j
      → (k : QueueJob) × (queue_get i (serve_all cap rs m).store.queue ≡ some k)
        × (is_foreign (or_none cap.version_id) (or_none cap.agent) k
            ≡ is_foreign (or_none cap.version_id) (or_none cap.agent) j)
  unfolding serve_all
  serve_all-keeps [] m i j h e = (j, e, refl)
  serve_all-keeps (r ∷ rs) m i j h e =
      let (k, k_is, same) = serve-keeps r m i j h e in
      let (l, l_is, same') = serve_all-keeps rs _ i k (serve-IsSafe r m h) k_is in
      (l, l_is, same' ∙ same)

-- Nothing is owned before the first claim.
abbrev pub unowned : Owned
unowned = record { runs = []; jobs = []; approvals = [] }

-- On a valid queue, after any requests of a fork that owned nothing before, claims and
-- transitions with any arguments, a transition on a stored item whose version or agent is not
-- that of the fork's capability is refused as out of scope, and nothing is written.
pub fork_isolated :
    (cap : Capability) (s : Store) (requests : List Request) (j : QueueJob) (t : Transition)
    (now : ℕ)
    → IsQueue s.queue
    → queue_get j.id s.queue ≡ some j
    → is_foreign (or_none cap.version_id) (or_none cap.agent) j ≡ true
    → brokered_transition cap j.id t now
        (serve_all cap requests (record { store = s; owned = unowned }))
      ≡ (err e_scope_denied, serve_all cap requests (record { store = s; owned = unowned }))
unfolding brokered_transition
fork_isolated cap s requests j t now q e foreign =
    let m : Mediated = record { store = s; owned = unowned } in
    let safe : IsSafe cap m = record { queue = q; owns = λ i n. elim n [ ] } in
    let m' = serve_all cap requests m in
    let safe' = serve_all-IsSafe cap requests m safe in
    let (k, k_is, same) = serve_all-keeps cap requests m j.id j safe e in
    elim (Bool-cases (contains j.id m'.owned.jobs)) [
      | inr n ↦ ap (λ b. transition_if b cap j.id t now m') n
      | inl y ↦
          let (l, l_is, mine) = safe'.owns j.id (contains-Member j.id m'.owned.jobs y) in
          let l_k : l ≡ k = some-injective _ _ (sym l_is ∙ k_is) in
          absurd (
            cc (
              mine,
              same,
              foreign,
              ap (is_foreign (or_none cap.version_id) (or_none cap.agent)) l_k,
            ))
    ]
