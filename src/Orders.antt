-- ===== src/Orders.antt =====
-- commerce/orders.py: order records, reads, and the idempotent effects on the order store.
pub mod Types
pub mod Speech
pub mod Store
pub mod Effects
pub mod Guards
pub mod Outcomes
pub mod Calls
pub mod Ledgers
pub mod Solvent
pub mod Conservation
pub mod History
pub mod Balance
pub mod Growth
pub mod Replay
pub mod Tests
