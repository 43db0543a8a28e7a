-- ===== src/Guard.antt =====
-- guard.py: the policy that outbound requests are checked against.
pub mod Policy
pub mod Verdicts
pub mod Decisions
