-- ===== src/Payload.antt =====
-- webhook_engine/envelope.py and http_sender.py: what leaves in a payload, and how much of an
-- answer is read.
pub mod Defs
pub mod Redaction
pub mod Capture
pub mod Sensitive
