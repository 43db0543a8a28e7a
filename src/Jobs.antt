-- ===== src/Jobs.antt =====
-- The jobs that a run schedules (store.py), and the groups that join them.
pub mod FanIn
pub mod Work
pub mod Due
pub mod Retries
pub mod Lost
