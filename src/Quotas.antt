-- ===== src/Quotas.antt =====
-- quotas.py, per-workspace quotas, in parts: Python's casts, the policy, admission, and what holds of it.
pub mod Casts
pub mod Policy
pub mod Admission
pub mod Cases
pub mod Exact
pub mod RoundTrip
