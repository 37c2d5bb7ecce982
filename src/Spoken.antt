-- ===== src/Spoken.antt =====
-- commerce/spoken.py: what a caller said, after speech recognition, as the values it stands for.
pub mod Digits
pub mod Codes
mod Tests
