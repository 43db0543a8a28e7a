-- ===== src/Execution.antt =====
-- execution/: which work waits, which claimer serves it, and the supervisor that starts the claimers.
pub mod Scope
pub mod Keys
pub mod Peek
pub mod Waiting
pub mod Unordered
pub mod Fleet
pub mod Spent
pub mod Replicas
pub mod Budget
pub mod Served
pub mod Scheduled
pub mod Supervisor
pub mod Standby
pub mod Rounds
pub mod Drained
pub mod Fair
pub mod Starts
pub mod Reached
