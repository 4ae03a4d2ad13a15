-- ===== src/Examples.antt =====
-- Runs of the engine on concrete data, and the theorems applied to them.
pub mod Setup
pub mod Deliveries
pub mod Sends
pub mod Guarded
pub mod Events
pub mod Replays
pub mod Payloads
pub mod Tables
pub mod Caches
pub mod Subscribers
pub mod Documents
pub mod Queued
