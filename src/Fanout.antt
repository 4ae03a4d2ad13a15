-- ===== src/Fanout.antt =====
-- webhook_engine/fanout.py: from an event of the in-process bus to deliveries.
pub mod Defs
pub mod Sealed
