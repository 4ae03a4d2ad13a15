-- ===== src/Examples/Queued.antt =====
-- The Postgres event store on a table of two events.
use webhooks_engine.Prelude.{
  ◌≡◌, ◌∷◌, [], refl, arith, Bool, true, false, some, Text, codes, text_eq, lookup, insert,
  if◌then◌else◌, ltb, ◌+◌,
}
use webhooks_engine.Prelude.Keyed.{IsKeyed}
use webhooks_engine.Types.{Bytes, seconds}
use webhooks_engine.Ingest.Queue.{pending, claimed}
use webhooks_engine.Ingest.Claims.{has_id}
use webhooks_engine.Ingest.Pg.{
  EventTable, event_id_of, append_many, append, claim_events, reclaim_stale, selected,
}
use webhooks_engine.Ingest.PgClaims.{append_many-IsKeyed, status_at, claim_events-leases}
use webhooks_engine.Examples.Events.{event}

abbrev rows : EventTable Bytes
rows = append_many 3 (event (codes "x") ∷ event (codes "y") ∷ []) []

abbrev unlocked : Text → Bool
unlocked _ = false

rows-IsKeyed : IsKeyed event_id_of rows
unfolding lookup
rows-IsKeyed =
    append_many-IsKeyed 3 (event (codes "x") ∷ event (codes "y") ∷ []) []
      (record { distinct = tt; keyed = λ k row h. absurd (ground arith) })

x_claimed : has_id (codes "x") (claim_events unlocked 5 30 1 rows).0 ≡ true
unfolding claim_events selected append_many append lookup insert text_eq
x_claimed = refl

-- One second after a claim for thirty, a store whose `lock_ttl_s` is zero frees the event.
claim_events-leases_example :
    let rows' = (claim_events unlocked 5 30 1 rows).1 in
    (status_at (codes "x") rows ≡ some pending)
    × (unlocked (codes "x") ≡ false)
    × (has_id (codes "x") (claim_events unlocked 6 30 5 rows').0 ≡ false)
    × (status_at (codes "x") (reclaim_stale 0 6 rows').1
        ≡ some (if ltb (5 + seconds 0) 6 then pending else claimed))
claim_events-leases_example =
    claim_events-leases unlocked unlocked 5 6 30 30 1 5 0 rows (codes "x") rows-IsKeyed x_claimed
