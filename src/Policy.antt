-- ===== src/Policy.antt =====
-- webhook_engine/policy.py: classification of answers, retry decisions, delays.
pub mod Defs
pub mod Delay
pub mod RetryAfter
