-- ===== src/Cart.antt =====
-- commerce/cart.py: the cart of a session and the ledger of its confirmed mutations.
pub mod Types
pub mod Store
pub mod Mutations
pub mod Once
pub mod State
pub mod Roundtrip
mod Tests
