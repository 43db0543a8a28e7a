-- ===== src/Pool.antt =====
-- execution/pool.py: the pool of warm interpreters.
pub mod Warm
pub mod Keys
pub mod Bounded
pub mod Acquire
pub mod Sequence
