-- ===== src/Store.antt =====
-- webhook_engine/stores/memory.py: the in-memory delivery store, its methods and their laws.
pub mod Defs
pub mod Invariant
pub mod Leases
pub mod Order
pub mod Claim
pub mod Reclaim
pub mod Marks
pub mod Queue
