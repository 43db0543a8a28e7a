-- ===== src/Queue.antt =====
-- queue.py: the durable job queue for external workers.
pub mod Enqueue
pub mod Claim
pub mod Report
pub mod Life
pub mod Valid
pub mod Tables
pub mod Eligible
pub mod Precedence
pub mod Listing
pub mod Reap
pub mod Claims
pub mod Released
pub mod Claiming
pub mod Steps
pub mod Accepted
pub mod Arrivals
pub mod History
pub mod Room
pub mod Batch
pub mod Reports
