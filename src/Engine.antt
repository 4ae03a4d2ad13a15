-- ===== src/Engine.antt =====
-- webhook_engine/engine.py: the tick that drives the dispatcher.
pub mod Defs
pub mod Frame
pub mod Tick
pub mod Quarantine
