-- ===== src/Tests.antt =====
-- The theorems at concrete inputs.
mod Queue
mod Quotas
mod Turns
mod Shared
mod Journal
mod Jobs
mod Pool
mod Execution
mod Egress
mod Deployments
