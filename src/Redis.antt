-- ===== src/Redis.antt =====
-- stores/redis.py
pub mod Hash
pub mod RoundTrip
pub mod Defs
pub mod Methods
pub mod Scripts
pub mod Sets
pub mod Leases
pub mod Queue
pub mod Fields
pub mod Marks
pub mod Faults
