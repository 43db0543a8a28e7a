-- ===== src/Execution/Reached.antt =====
-- From the queue to a worker: a waiting turn or resume, the plan of a supervisor
-- (execution/supervisor.py) and the filter of `claim` (queue.py).
use rya.Prelude.{
  ℕ, ◌≤◌, ◌<◌, String, ◌≡◌, refl, ap, ◌∙◌, ◌≢◌, ◌⊎◌, inl, inr, Bool, true, false, ◌&&◌, Option,
  none, some, List, [], ◌∷◌, map, count_where, Member, All, All-Member, arith, str_eq, eq_iff,
  Bool-cases,
}
use rya.Errors.{Result, ok, err}
use rya.Deployments.Resolves.{ok_injective}
use rya.Store.{Store}
use rya.Store.Docs.{QueueJob, pending, Version, Worker}
use rya.Store.Queue.{text_or}
use rya.Store.Workers.{worker_list}
use rya.Deployments.Tables.{version_get}
use rya.Deployments.Actions.{is_retired}
use rya.Quotas.Policy.{QuotaPolicy, resolve_quota}
use rya.Queue.Claim.{agent_of, version_of, is_foreign, clashes}
use rya.Execution.Scope.{version, scope_key, Claimable, attributed}
use rya.Execution.Keys.{IsKey}
use rya.Execution.Peek.{
  Count, same_version, to_claimable, as_groups, sort_counts, bump_all, waiting, peek,
}
use rya.Execution.Waiting.{depth_at, work_for, is_work, peek_depth}
use rya.Execution.Fleet.{
  Config, View, starts, WorkerSpec, WorkerHandle, Reason, live_count, resolve_key, spec_at, plan,
}
use rya.Execution.Scheduled.{planned_key}
use rya.Execution.Supervisor.{Driver, World, observe, seen, or_started}
use rya.Execution.Starts.{resolved_key, group_starts}

count_where-Member :
    {A : Type 0} (p : A → Bool) (x : A) (xs : List A)
    → Member x xs
    → p x ≡ true
    → 1 ≤ count_where p xs
count_where-Member p x [] m h = elim m [ ]
count_where-Member p x (y ∷ ys) (inl e) h = rw (← e, h) (omega arith)
count_where-Member p x (y ∷ ys) (inr m) h = ground (arith, count_where-Member p x ys m h)

-- A turn or a resume that waits for an agent and a version.
pub record Waits (a v : String) (s : Store) (j : QueueJob) : Type 0 where
  pub found : Member j s.queue
  pub status : j.status ≡ pending
  pub kind : (j.type ≡ "chat-turn") ⊎ (j.type ≡ "approval-resume")
  pub agent : agent_of j ≡ some a
  pub pinned : version_of j ≡ some v
  pub named : a ≢ ""

Waits-is_work :
    (a v : String) (s : Store) (j : QueueJob) → Waits a v s j → is_work a (some v) j ≡ true
unfolding agent_of version_of
Waits-is_work a v s j w =
    rw (w.status, w.agent, w.pinned)
      (ground (
        arith,
        w.kind,
        w.named,
        eq_iff a "",
        eq_iff a a,
        eq_iff v v,
        eq_iff j.type "chat-turn",
        eq_iff j.type "approval-resume",
      ))

depth-Member :
    (a : String) (v : String) (gs : List Claimable)
    → 0 < depth_at a (some v) gs
    → (g : Claimable) × Member g gs × (g.agent ≡ a) × (g.version_id ≡ some v)
unfolding depth_at
depth-Member a v [] h = absurd (omega arith)
depth-Member a v (g ∷ gs) h =
    elim (Bool-cases (str_eq g.agent a && same_version g.version_id (some v))) [
      | inl e ↦
          (g, inl refl, ground (arith, eq_iff g.agent a), at_version g.version_id (ground arith))
      | inr e ↦ let (x, m, p, q) = depth-Member a v gs (rw e at h) in (x, inr m, p, q)
    ]
  where
    at_version : (o : Option String) → same_version o (some v) ≡ true → o ≡ some v
    at_version none k = cc
    at_version (some w) k = ground (arith, eq_iff w v)

abbrev InWorkspace : String → Claimable → Type 0
InWorkspace workspace g = g.workspace ≡ workspace

map-InWorkspace :
    (workspace : String) (cs : List Count)
    → All (InWorkspace workspace) (map (to_claimable workspace) cs)
map-InWorkspace workspace [] = tt
map-InWorkspace workspace (c ∷ cs) = (refl, map-InWorkspace workspace cs)

as_groups-InWorkspace :
    (workspace : String) (r : Result (List Count)) (gs : List Claimable)
    → as_groups workspace none r ≡ ok gs
    → All (InWorkspace workspace) gs
as_groups-InWorkspace workspace (err c) gs e = cc
as_groups-InWorkspace workspace (ok cs) gs e =
    let same = ok_injective _ _ e in rw (← same) (map-InWorkspace workspace cs)

seen-claimable :
    (ws : List Worker) (hs : List WorkerHandle) (r : Result (List Claimable)) (v : View)
    → seen ws hs r ≡ ok v
    → r ≡ ok v.claimable
seen-claimable ws hs (err c) v e = cc
seen-claimable ws hs (ok gs) v e = ap (λ x. ok x.claimable) (ok_injective _ _ e)

peek-InWorkspace :
    (workspace : String) (now : ℕ) (s : Store) (gs : List Claimable)
    → peek workspace none now s ≡ ok gs
    → All (InWorkspace workspace) gs
unfolding peek
peek-InWorkspace workspace now s gs e =
    as_groups-InWorkspace workspace (sort_counts (bump_all (waiting now s) [])) gs e

-- The filter of a claim lets the item through for its own agent and version.
own-claim :
    (a i : String) (j : QueueJob)
    → agent_of j ≡ some a
    → version_of j ≡ some i
    → is_foreign (some i) (some a) j ≡ false
unfolding is_foreign clashes
own-claim a i j e f = rw (e, f) (ground (arith, eq_iff a a, eq_iff i i))

has_work :
    (now : ℕ) (a i : String) (s : Store)
    → 1 ≤ count_where (is_work a (some i)) s.queue
    → 0 < work_for now a (some i) s
unfolding work_for
has_work now a i s h = omega (arith, h)

-- When a version-scoped supervisor, which may start at least one replica per key, observes its
-- workspace, which sets no limit on workers: for a pending turn or resume that names an agent and
-- a version that is stored and not retired, where workspace, agent and version can be read back
-- from the key, and that key has no worker in the view, the plan starts a worker of the workspace
-- whose agent and version are such that the filters of `claim` do not set the item aside.
pub waiting_work_gets_worker :
    {D : Type 0} (driver : Driver D) (c : Config) (now : ℕ) (w : World D) (v : View) (j : QueueJob)
    (a i : String) (rec : Version) (p : QuotaPolicy)
    → observe driver c now w ≡ ok v
    → Waits a i w.store j
    → c.scope ≡ version
    → 1 ≤ c.policy.max_replicas_per_key
    → resolve_quota w.store ≡ ok p
    → p.max_workers ≡ none
    → version_get i w.store ≡ some rec
    → is_retired rec ≡ false
    → IsKey
        (record { scope = version; workspace = c.workspace; agent = some a; version_id = some i })
    → live_count (scope_key version c.workspace (some a) (some i)) v ≡ 0
    → (key : String) × (r : Reason) × (q : WorkerSpec) × Member (starts key r q) (plan c w.store v)
      × (q.workspace ≡ c.workspace)
      × (is_foreign q.version_id (some q.agent) j ≡ false)
unfolding observe
waiting_work_gets_worker driver c now w v j a i rec p seen_as waits wide some_replica e f found live
      h none_live =
    let s = w.store in
    let peeked =
      seen-claimable (worker_list now s) (or_started (driver.list w.driven) w.supervisor.started)
        (peek c.workspace none now s) v seen_as in
    let some_work : 0 < work_for now a (some i) s = has_work now a i s (
      count_where-Member (is_work a (some i)) j s.queue waits.found
        (Waits-is_work a i s j waits)) in
    let (g, m, g_a, g_v) =
      depth-Member a i v.claimable
        (rw (peek_depth c.workspace now s v.claimable a (some i) peeked) some_work) in
    let g_w =
      All-Member (InWorkspace c.workspace) g v.claimable
        (peek-InWorkspace c.workspace now s v.claimable peeked) m in
    let named : attributed g ≡ true = ground (arith, waits.named, g_a, eq_iff g.agent "") in
    let key_is : resolve_key c s g ≡ scope_key version c.workspace (some a) (some i) =
      resolved_key c s v g i g_v ∙ rw (g_w, g_a) refl in
    let (r, member) =
      group_starts c s v g i rec p wide some_replica e f m named g_v found live (rw (g_w, g_a) h)
        (rw key_is none_live) in
    let agent_is : text_or (some g.agent) "" ≡ a =
      ground (arith, waits.named, g_a, eq_iff g.agent "") in
    (
      resolve_key c s g,
      r,
      spec_at c s (planned_key c s v g i) r,
      member,
      g_w,
      rw agent_is (own-claim a i j waits.agent waits.pinned),
    )
