-- ===== src/Ingest/Queue.antt =====
-- `IncomingEvent` of ingest/events.py and `MemoryEventStore` of ingest/memory.py, with
-- `BaseEventStore.append_many`, which it inherits. The payload of an event is any type `D`.
use webhooks_engine.Prelude.{
  ℕ, zero, suc, ◌+◌, Bool, true, false, Option, none, some, List, [], ◌∷◌, Text, Dict, lookup,
  contains, insert, if◌then◌else◌, ltb,
}
use webhooks_engine.Types.{DateTime, seconds}

pub data EventIngestStatus : Type 0 where
  pending claimed done failed : EventIngestStatus

pub record IncomingEvent (D : Type 0) : Type 0 where
  pub event_id : Text
  pub event : Text
  pub data' : D
  pub tenant_id : Option Text
  pub schema_version : Text
  pub created_at : Option DateTime

-- `_Row`
pub record Row (D : Type 0) : Type 0 where
  pub event : IncomingEvent D
  pub status : EventIngestStatus
  pub lease_until : Option DateTime

abbrev pub EventStore : Type 0 → Type 0
EventStore D = Dict (Row D)

abbrev pub is_pending : EventIngestStatus → Bool
is_pending pending = true
is_pending _ = false

-- `status is CLAIMED and lease_until is not None and lease_until < now`
abbrev pub is_stale : DateTime → EventIngestStatus → Option DateTime → Bool
is_stale now claimed (some lease_until) = ltb lease_until now
is_stale now _ _ = false

module _ {D : Type 0} where
  -- `append`: `setdefault`
  unfoldable pub append : IncomingEvent D → EventStore D → EventStore D
  append e rows =
      if contains e.event_id rows
      then rows
      else insert e.event_id (record { event = e; status = pending; lease_until = none }) rows

  unfoldable pub append_many : List (IncomingEvent D) → EventStore D → EventStore D
  append_many [] rows = rows
  append_many (e ∷ es) rows = append_many es (append e rows)

  abbrev pub claimed_row : DateTime → Row D → Row D
  claimed_row expiry row = record row { status = claimed; lease_until = some expiry }

  -- The loop of `claim_events`; `room` is `batch_size - len(claimed)`.
  unfoldable pub claim_rows : ℕ → DateTime → EventStore D → List (IncomingEvent D) × EventStore D
  claim_rows room expiry [] = ([], [])
  claim_rows zero expiry (kv ∷ rows) = ([], kv ∷ rows)
  claim_rows (suc room) expiry ((k, row) ∷ rows) =
      let (es, rows') = claim_rows room expiry rows in
      let (es', rows'') = claim_rows (suc room) expiry rows in
      if is_pending row.status
      then (row.event ∷ es, (k, claimed_row expiry row) ∷ rows')
      else (es', (k, row) ∷ rows'')

  -- `claim_events`
  unfoldable pub claim_events :
      DateTime → ℕ → ℕ → EventStore D → List (IncomingEvent D) × EventStore D
  unfolding claim_rows
  claim_events now lease_ttl_s batch_size rows =
      claim_rows batch_size (now + seconds lease_ttl_s) rows

  -- The end of a row: its status is `status` and its lease is gone; a missing row is no error.
  unfoldable pub close_row : Text → EventIngestStatus → EventStore D → EventStore D
  close_row event_id status rows = elim (lookup event_id rows) [
    | none ↦ rows
    | some row ↦ insert event_id (record row { status = status; lease_until = none }) rows
  ]

  -- `ack`
  unfoldable pub ack : List Text → EventStore D → EventStore D
  unfolding close_row
  ack [] rows = rows
  ack (event_id ∷ event_ids) rows = ack event_ids (close_row event_id done rows)

  -- `mark_failed`: the error text is dropped.
  unfoldable pub mark_failed : Text → EventStore D → EventStore D
  unfolding close_row
  mark_failed event_id rows = close_row event_id failed rows

  abbrev pub reclaimed_row : Row D → Row D
  reclaimed_row row = record row { status = pending; lease_until = none }

  -- `reclaim_stale`
  unfoldable pub reclaim_stale : DateTime → EventStore D → ℕ × EventStore D
  reclaim_stale now [] = (0, [])
  reclaim_stale now ((k, row) ∷ rows) =
      let (n, rows') = reclaim_stale now rows in
      if is_stale now row.status row.lease_until
      then (suc n, (k, reclaimed_row row) ∷ rows')
      else (n, (k, row) ∷ rows')
