-- ===== src/Subscriptions.antt =====
-- service/subscription_store.py and service/subscription_pg.py
pub mod Types
pub mod Contract
pub mod Redis
pub mod Pg
pub mod Agreement
pub mod PgRows
pub mod PgLaws
pub mod Sets
pub mod RedisLaws
pub mod RedisCalls
pub mod Stores
