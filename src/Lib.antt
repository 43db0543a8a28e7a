-- ===== src/Lib.antt =====
-- rya runs agents on a durable store. This library models the part of it that decides what work is
-- accepted and who may run it, as functions on the tables of one workspace, and proves what they promise.
--
-- The parts, with the file of the repository that each models:
-- - Errors (src/rya/errors.py): the codes of `RyaError`, and actions that change the store and may
--   raise.
-- - Json: the JSON values of payloads and policy rows.
-- - Store (src/rya/store.py, `FileStore`): the tables of a workspace. Store/Table is a directory of
--   JSON documents, one per id (`_read`, `_write`); Store/Docs has the documents; Store/Queue the
--   `queue_*` methods and `_fair_order`; Store/Reads the counts that admission asks for and the
--   policy rows.
-- - Purge (src/rya/purge.py) and Orgs (src/rya/orgs.py): what admission reads of the lifecycle of a
--   workspace (`lifecycle`, `require_active`) and of its organization's budget (`org_violations`).
-- - Quotas (src/rya/quotas.py): Quotas/Casts and Quotas/Policy read the quota row (`_coerce`,
--   `resolve_quota`, `set_quota`), Quotas/Admission decides (`_usage_for`, `check_admission`,
--   `require_admission`). Quotas/Cases, Quotas/Exact and Quotas/RoundTrip hold the proofs.
-- - Queue (src/rya/queue.py): Queue/Enqueue, Queue/Claim and Queue/Report have one function per
--   function of the file. `claim` reaps, then loops over `queue_claim_one`, sets aside the jobs of
--   other versions and agents, and hands them back. Queue/Life is the life of one job as a
--   relation, Queue/Valid what it keeps, Queue/Tables and Queue/Steps lift it to the table and to
--   each operation, and Queue/History to sequences of calls. Queue/Eligible, Queue/Precedence,
--   Queue/Listing, Queue/Reap, Queue/Claims, Queue/Released, Queue/Claiming, Queue/Arrivals,
--   Queue/Room, Queue/Batch and Queue/Reports hold the proofs about single operations.
-- - Gates (src/rya/gates.py): Gates/Policy resolves the promotion gate of an environment,
--   Gates/Check has the attestations and the check (`check_promotion`, `require_promotion`),
--   Gates/Newest and Gates/Exact the proofs.
-- - Deployments (src/rya/deployments.py): Deployments/Tables has the `version_*` and `env_*`
--   methods of the store, Deployments/Actions `create_version`, `promote`, `rollback`, `retire` and
--   `resolve_for_run`. Deployments/Pointers, Deployments/Resolves, Deployments/Rollback,
--   Deployments/Idempotent, Deployments/RoundTrip and Deployments/Retirement hold the proofs about
--   single calls, Deployments/Invariant and Deployments/Steps those about sequences of calls. A
--   promotion asks Gates before it moves a pointer.
-- - Turns (src/rya/turns.py): Turns/Start has `create_turn` and `enqueue_event`, Turns/Approvals
--   `enqueue_resume`, `reject_approval`, `reject_on_stream` and `is_terminal`, over Store/Runs and the
--   stream buffers of Store/Streams (`stream_append`, `stream_read`). Turns/Events, Turns/Decisions,
--   Turns/Pinned, Turns/Rejections, Turns/Announced and Turns/Streaming hold the proofs. A turn and a
--   resume are jobs of Queue; who may claim them is decided by `claim`.
-- - Leases: the named leases of Store/Leases (`lease_acquire`, `lease_release`), which keep two
--   supervisors apart.
-- - Jobs (src/rya/runtime/engine.py): Store/Jobs has `create_job` and `claim_due_job`, Store/Groups
--   `create_job_group` and `group_job_done`, and Jobs/Work `run_job` and `retry_job`, with the handler
--   as a parameter: what it does to the store, how its run ends, and whether `_execute` raises. Jobs/Due, Jobs/Retries and
--   Jobs/Lost prove them; Jobs/FanIn proves the groups against a specification on the list of ends.
-- - Journal: the append-only journal of a run in the store. Journal/Revisions has `journal_append` and
--   `journal_read`, Journal/Latest the proof.
-- - Pool (src/rya/execution/pool.py): Pool/Warm has `WarmPool`, with what an interpreter does as a
--   parameter. Pool/Keys, Pool/Bounded, Pool/Acquire and Pool/Sequence hold the proofs.
-- - Execution: who serves the waiting work. Execution/Scope and Execution/Peek model
--   src/rya/execution/scope.py: the keys of claimers (`scope_key`, `parse_key`) and the waiting groups
--   (`peek`), proved by Execution/Keys, Execution/Waiting and Execution/Unordered. Execution/Fleet and
--   Execution/Supervisor model src/rya/execution/supervisor.py: `plan`, which decides how many workers
--   each key gets from what `observe` sees, and `tick`, which applies a plan under the lease, over a
--   driver and a `lease_acquire` that are parameters (it may be missing, and it may raise); Execution/Spent, Execution/Replicas, Execution/Budget,
--   Execution/Served, Execution/Scheduled and Execution/Standby prove them, and Execution/Reached
--   follows an item from the queue to the filter of the claim. Execution/Rounds models `FairOrder` and the drain of a workspace
--   (src/rya/worker.py, `_drain_tenant`), with the fork of a template as a parameter; Execution/Fair
--   and Execution/Drained prove them. The supervisor reads Queue's and Jobs' tables, the limits of
--   Quotas and the versions of Deployments, and holds a lease of Leases.
-- - Guard (src/rya/guard.py): Guard/Policy finds the policy of an agent, Guard/Verdicts judges a
--   request (`evaluate`, `check_egress`), Guard/Decisions proves it. Egress (src/rya/egress.py):
--   Egress/Posture has the network posture that is set up from a policy, Egress/Service asks the guard
--   and the posture about each request; Egress/Sealed and Egress/Divergences prove what leaves and what
--   is recorded.
-- - Broker (src/rya/broker/server.py): Broker/Mediation has `_queue_claim`, `_queue_transition` and
--   `_own`, which run Queue's operations for a fork under its capability; Broker/Isolation proves
--   what a fork cannot reach.
-- - Words: `strip`, `in` and `replace` on names.
-- - Prelude: Boolean tests on numbers, lists, integers and the stable `sorted`. Tests: the theorems
--   at concrete inputs.
--
-- How the code is read. A time is a number of seconds, since the code compares fixed-width UTC
-- texts; a call reads the clock once (`now`), and takes its `seq` (`ns`) and the id of `_new_id`
-- (`fresh`) as arguments. Delays and leases are whole seconds and not negative, costs are counted
-- in millionths of a dollar, which the code rounds to, and metadata values are texts. The order of
-- a directory listing is the order of the table. An error is its code. The store is the file store,
-- not itself behind a broker, and one call runs at a time, as that store assumes. The numerals that
-- a quota row may hold as text are a sign, ASCII digits and at most six decimals. The keys that a
-- gate requires as provenance are texts, and scores are counted in millionths. The loop of `claim`
-- is bounded by `MAX_CLAIM_LIMIT`, and that of `_drain_tenant` by the range over its budget and its
-- candidates, as in the code; no other loop needs a bound. What the guard calls of Python's library to take a URL apart, to match a glob, to recognise a private
-- address, to change case and to hash a policy is a parameter; the pattern of a rule is a text and its
-- methods are texts. The policy of a supervisor is in whole
-- numbers that are not negative, and the fields of a worker's specification that are copied from the
-- policy are left out.
--
-- The usage in the summary of a run, the body and the action of an approval, and the signature and
-- deadline of a capability are left out; the lock of a lease or a group is left out since one call
-- runs at a time. A torn last line of a journal is left out.
--
-- Not modelled: the grounding and secrecy checks of the guard, the PostgreSQL store (its work is done in SQL), the sockets and the mediated store of
-- the broker, the runtime that executes handlers and models, HTTP, the command line, the loops that sleep between
-- ticks, and deployment tooling.
mod Prelude
mod Tests
pub mod Errors
pub mod Execution
pub mod Guard
pub mod Egress
pub mod Json
pub mod Turns
pub mod Jobs
pub mod Leases
pub mod Broker
pub mod Pool
pub mod Journal
pub mod Words
pub mod Store
pub mod Purge
pub mod Orgs
pub mod Quotas
pub mod Queue
pub mod Gates
pub mod Deployments
