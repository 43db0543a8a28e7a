-- ===== src/Turns.antt =====
-- turns.py: durable chat turns, the approvals that their runs wait for, and the streams of frames
-- that a client follows.
pub mod Start
pub mod Approvals
pub mod Decisions
pub mod Pinned
pub mod Rejections
pub mod Announced
pub mod Events
pub mod Streaming
