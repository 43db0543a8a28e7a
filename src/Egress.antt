-- ===== src/Egress.antt =====
-- egress.py: what can leave a sandbox, and the two verdicts on each request.
pub mod Posture
pub mod Service
pub mod Sealed
pub mod Divergences
