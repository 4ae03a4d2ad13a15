-- ===== src/Ssrf.antt =====
-- webhook_engine/ssrf_guard.py: which addresses and targets a delivery may go to.
pub mod Address
pub mod Host
pub mod Guard
pub mod Target
pub mod Ranges
pub mod Validation
