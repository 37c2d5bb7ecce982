-- ===== src/Identity.antt =====
-- commerce/identity.py: what a caller may read, and on what a caller may act.
pub mod Guests
pub mod Store
pub mod Authorization
mod Tests
