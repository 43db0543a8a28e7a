-- ===== src/Journal.antt =====
-- store.py: the revisions of the journal of a run.
pub mod Revisions
pub mod Latest
