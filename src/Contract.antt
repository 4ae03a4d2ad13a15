-- ===== src/Contract.antt =====
-- What webhook_engine/protocols.py asks of a delivery store, as an interface that each back end
-- fills, and what follows from it for the workers that share a store.
pub mod Queue
pub mod Runs
