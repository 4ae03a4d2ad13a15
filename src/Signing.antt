-- ===== src/Signing.antt =====
-- webhook_engine/signer.py and verify.py: signing, and the two verifiers.
pub mod Defs
pub mod RoundTrip
pub mod Agreement
