-- ===== src/Store.antt =====
-- store.py: `FileStore`, the tables of one workspace. Each child models one group of its methods
-- over the tables that the group reads and writes.
pub mod Table
pub mod Docs
pub mod Queue
pub mod Reads
pub mod Runs
pub mod Streams
pub mod Leases
pub mod Groups
pub mod Jobs
pub mod Workers
use rya.Prelude.{List, []}
use Docs.{
  QueueJob, Run, Approval, MeterRecord, Worker, PolicyRecord, Version, Environment, Attestation,
  Stream, Lease, JobGroup, Job,
}

pub record Store : Type 0 where
  pub queue : List QueueJob
  pub runs : List Run
  pub approvals : List Approval
  pub streams : List Stream
  pub meter : List MeterRecord
  pub workers : List Worker
  pub policies : List PolicyRecord
  pub policy_log : List PolicyRecord
  pub versions : List Version
  pub environments : List Environment
  pub attestations : List Attestation
  pub leases : List Lease
  pub groups : List JobGroup
  pub jobs : List Job

abbrev pub empty : Store
empty = record {
  queue = [];
  runs = [];
  approvals = [];
  streams = [];
  meter = [];
  workers = [];
  policies = [];
  policy_log = [];
  versions = [];
  environments = [];
  attestations = [];
  leases = [];
  groups = [];
  jobs = [];
}
