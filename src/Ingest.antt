-- ===== src/Ingest.antt =====
-- webhook_engine/ingest/: the queue of events and what turns them into deliveries.
pub mod Queue
pub mod Claims
pub mod Pg
pub mod PgClaims
pub mod Ingestor
pub mod Fanout
pub mod Tick
