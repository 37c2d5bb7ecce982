-- ===== src/Verification.antt =====
-- commerce/verification.py: the OTP provider, and the proofs of a session.
pub mod Types
pub mod Provider
pub mod Cleanup
pub mod Attempts
pub mod Store
pub mod Session
pub mod Subjects
pub mod Bound
pub mod Runs
pub mod Codes
pub mod Terms
pub mod Resend
pub mod Authority
pub mod Accepted
pub mod Fixture
pub mod Withdrawn
pub mod Risk
mod Tests
