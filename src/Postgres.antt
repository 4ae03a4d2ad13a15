-- ===== src/Postgres.antt =====
-- webhook_engine/stores/pg.py and service/pg_repos.py: the delivery store on Postgres.
pub mod Defs
pub mod Names
pub mod Rows
pub mod Where
pub mod Claim
pub mod Leases
pub mod Purge
pub mod Retention
pub mod Notices
pub mod Queue
