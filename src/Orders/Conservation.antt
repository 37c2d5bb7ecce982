-- ===== src/Orders/Conservation.antt =====
-- Every effect of the order store keeps the money invariant.
pub mod Refunds
pub mod Returns
pub mod Placements
pub mod Cancels
