-- ===== src/Mongo.antt =====
-- stores/mongo.py
pub mod Defs
pub mod Claims
pub mod Queue
