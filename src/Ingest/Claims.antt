-- ===== src/Ingest/Claims.antt =====
-- `claim_events`, `ack`, `mark_failed`, `reclaim_stale` and `append_many` of the in-memory event
-- store of ingest/memory.py, row by row.
mod Rows
pub use Rows.*
use webhooks_engine.Prelude.{
  ℕ, zero, suc, ◌+◌, ◌≤◌, ◌≡◌, refl, ◌⊎◌, inl, inr, Bool, true, false, Option, none, some, List, [],
  ◌∷◌, Text, text_eq, text_eq→eq, text_eq_refl, lookup, contains, lookup-insert, arith,
  if◌then◌else◌, any, length, Bool-cases, Option-cases,
}
use webhooks_engine.Types.{DateTime, seconds}
use webhooks_engine.Ingest.Queue.{
  EventIngestStatus, pending, done, failed, IncomingEvent, Row, EventStore, is_pending, is_stale,
  append, append_many, claimed_row, claim_rows, claim_events, close_row, ack, mark_failed,
  reclaimed_row, reclaim_stale,
}

module _ {D : Type 0} where
  pub claim_events-IsKeyed :
      (now : DateTime) (ttl batch_size : ℕ) (rows : EventStore D)
      → IsKeyed rows
      → IsKeyed (claim_events now ttl batch_size rows).1
  unfolding claim_events
  claim_events-IsKeyed now ttl batch_size rows v = claim_rows-IsKeyed batch_size _ rows v

  -- From a keyed event store, a claim takes at most `batch_size` events, each of a PENDING row,
  -- and every PENDING row if it takes fewer. The rows of the events that it takes are CLAIMED
  -- until `now + lease_ttl_s`, and every other row is as it was.
  pub claim_events-pending :
      (now : DateTime) (ttl batch_size : ℕ) (rows : EventStore D) (k : Text)
      → IsKeyed rows
      → let (es, rows') = claim_events now ttl batch_size rows in
        (length es ≤ batch_size)
        × (has_id k es ≡ true → is_pending_option (lookup k rows) ≡ true)
        × ((length es ≡ batch_size) ⊎ (has_id k es ≡ is_pending_option (lookup k rows)))
        × (lookup k rows' ≡ (
            if has_id k es
            then claimed_option (now + seconds ttl) (lookup k rows)
            else lookup k rows))
  unfolding claim_events
  claim_events-pending now ttl batch_size rows k v =
      let (few, sound, complete) = claim_rows-pending batch_size (now + seconds ttl) rows k v in
      (few, sound, complete, claim_rows-lookup batch_size (now + seconds ttl) rows k v)

  -- From a keyed event store, an event that a claim has taken is not taken by the next one,
  -- whenever that is made.
  pub claim_events-exclusive :
      (now now' : DateTime) (ttl ttl' batch_size batch_size' : ℕ) (rows : EventStore D) (k : Text)
      → IsKeyed rows
      → let (es, rows') = claim_events now ttl batch_size rows in
        has_id k es ≡ true → has_id k (claim_events now' ttl' batch_size' rows').0 ≡ false
  claim_events-exclusive now now' ttl ttl' batch_size batch_size' rows k v h =
      let rows' = (claim_events now ttl batch_size rows).1 in
      let v' = claim_events-IsKeyed now ttl batch_size rows v in
      ground (
        arith,
        claim_events-pending now ttl batch_size rows k v,
        claim_events-pending now' ttl' batch_size' rows' k v',
        Option-cases (lookup k rows),
        Bool-cases (has_id k (claim_events now' ttl' batch_size' rows').0),
      )

  -- `reclaim_stale` makes PENDING again exactly the CLAIMED rows whose lease ran out before now.
  pub reclaim_stale-lookup :
      (now : DateTime) (rows : EventStore D) (k : Text)
      → lookup k (reclaim_stale now rows).1 ≡ reclaimed_option now (lookup k rows)
  unfolding reclaim_stale lookup
  reclaim_stale-lookup now [] k = refl
  reclaim_stale-lookup now ((j, row) ∷ rows) k = ground (arith, reclaim_stale-lookup now rows k)

  pub reclaim_stale-IsKeyed :
      (now : DateTime) (rows : EventStore D) → IsKeyed rows → IsKeyed (reclaim_stale now rows).1
  unfolding reclaim_stale
  reclaim_stale-IsKeyed now [] v = v
  reclaim_stale-IsKeyed now ((j, row) ∷ rows) v = ground (
    arith,
    reclaim_stale-lookup now rows j,
    reclaim_stale-IsKeyed now rows v.2,
    Option-cases (lookup j rows),
  )

  lookup-close_row :
      (k j : Text) (status : EventIngestStatus) (rows : EventStore D)
      → lookup k (close_row j status rows)
        ≡ (if text_eq k j then closed_option status (lookup k rows) else lookup k rows)
  unfolding close_row
  lookup-close_row k j status rows = elim (Option-cases (lookup j rows)) [
    | inl e ↦ ground (arith, text_eq→eq k j)
    | inr (row, e) ↦ ground (
      arith,
      text_eq→eq k j,
      lookup-insert k j (record row { status = status; lease_until = none }) rows,
    )
  ]

  pub lookup-mark_failed :
      (k j : Text) (rows : EventStore D)
      → lookup k (mark_failed j rows)
        ≡ (if text_eq k j then closed_option failed (lookup k rows) else lookup k rows)
  unfolding mark_failed
  lookup-mark_failed k j rows = lookup-close_row k j failed rows

  -- `ack` makes DONE exactly the rows of the ids that it is given.
  pub lookup-ack :
      (k : Text) (ids : List Text) (rows : EventStore D)
      → lookup k (ack ids rows)
        ≡ (if any (text_eq k) ids then closed_option done (lookup k rows) else lookup k rows)
  unfolding ack
  lookup-ack k [] rows = refl
  lookup-ack k (j ∷ ids) rows = ground (
    arith,
    lookup-ack k ids (close_row j done rows),
    lookup-close_row k j done rows,
    Option-cases (lookup k rows),
  )

  -- The row that is there, or a fresh one of the first event of that id.
  abbrev pub or_first : Text → Option (Row D) → List (IncomingEvent D) → Option (Row D)
  or_first k (some row) es = some row
  or_first k none [] = none
  or_first k none (e ∷ es) =
      if text_eq k e.event_id
      then some (record { event = e; status = pending; lease_until = none })
      else or_first k none es

  lookup-append :
      (k : Text) (e : IncomingEvent D) (rows : EventStore D)
      → lookup k (append e rows) ≡ or_first k (lookup k rows) (e ∷ [])
  unfolding append
  lookup-append k e rows = ground (
    arith,
    lookup-insert k e.event_id (record { event = e; status = pending; lease_until = none }) rows,
    text_eq→eq k e.event_id,
    Option-cases (lookup k rows),
  )

  -- `append_many` is idempotent by event id: a row that is there stays as it is, whatever its
  -- status, and of several new events of an id the first is kept, PENDING.
  pub lookup-append_many :
      (k : Text) (es : List (IncomingEvent D)) (rows : EventStore D)
      → lookup k (append_many es rows) ≡ or_first k (lookup k rows) es
  unfolding append_many
  lookup-append_many k [] rows = ground (arith, Option-cases (lookup k rows))
  lookup-append_many k (e ∷ es) rows = ground (
    arith,
    lookup-append_many k es (append e rows),
    lookup-append k e rows,
    Option-cases (lookup k rows),
  )
