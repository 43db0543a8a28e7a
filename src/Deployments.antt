-- ===== src/Deployments.antt =====
-- deployments.py: versions, the environments that point at them, promotion, rollback and retirement.
pub mod Tables
pub mod Actions
pub mod Pointers
pub mod Resolves
pub mod Rollback
pub mod RoundTrip
pub mod Retirement
pub mod Invariant
pub mod Steps
pub mod Idempotent
