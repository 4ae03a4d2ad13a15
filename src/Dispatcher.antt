-- ===== src/Dispatcher.antt =====
-- webhook_engine/dispatcher.py: one delivery, from the claimed record to its transition.
pub mod Env
pub mod Defs
pub mod Atomic
pub mod Safety
pub mod Verdict
