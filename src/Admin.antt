-- ===== src/Admin.antt =====
-- webhook_engine/service/: redelivery, ping, and the pages of the delivery log.
pub mod Defs
pub mod Replay
pub mod Pages
