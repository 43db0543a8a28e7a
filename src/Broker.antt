-- ===== src/Broker.antt =====
-- broker/server.py: what the broker does for a fork that runs tenant code, where that touches the queue.
pub mod Mediation
pub mod Isolation
