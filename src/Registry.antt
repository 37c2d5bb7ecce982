-- ===== src/Registry.antt =====
-- durability/session_registry.py: which worker holds a session, what it may write, and how the
-- session is closed.
pub mod Types
pub mod Database
pub mod Generations
pub mod Admission
pub mod Envelopes
pub mod Leases
pub mod Publication
pub mod Reconciliation
pub mod Rotation
pub mod Switching
pub mod Closing
pub mod Finalizing
pub mod Reaping
pub mod Rows
pub mod Scopes
pub mod Progress
pub mod Statements
pub mod Locked
pub mod Holding
pub mod Rotating
pub mod Ending
pub mod Registering
pub mod Calls
pub mod Inversion
pub mod Fencing
pub mod Fenced
pub mod Taking
pub mod Claims
pub mod Takeover
pub mod Publishing
pub mod Restoring
pub mod Exclusive
pub mod Held
pub mod Erased
pub mod Erasing
pub mod InMemory
pub mod Bound
pub mod Destination
pub mod Switches
pub mod Rotated
mod Tests
