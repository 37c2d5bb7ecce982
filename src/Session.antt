-- ===== src/Session.antt =====
-- The state of a caller's session that outlives a worker: durability/session_payload.py, and the
-- recent orders of commerce/orders.py.
pub mod Recent
pub mod Payload
pub mod Bounded
mod Tests
