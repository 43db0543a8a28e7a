-- ===== src/Gates.antt =====
-- gates.py: what a version must show before an environment is pointed at it.
pub mod Policy
pub mod Check
pub mod Newest
pub mod Exact
