-- ===== src/Ingest/Pg.antt =====
-- `PgEventStore` of ingest/pg.py: one table with the primary key `event_id`, by the documented
-- semantics of SQL. `locked` says which rows other transactions hold.
use webhooks_engine.Prelude.{
  ℕ, ◌+◌, Bool, true, false, not, ◌&&◌, Option, none, some, List, [], ◌∷◌, map, Text, text_eq, Dict,
  contains, insert, values, filter, take, leb, ltb, is_empty, any, if◌then◌else◌,
}
use webhooks_engine.Prelude.Tables.{update_where, count_where, order_by}
use webhooks_engine.Types.{DateTime, seconds}
use webhooks_engine.Ingest.Queue.{
  EventIngestStatus, pending, claimed, done, failed, IncomingEvent, is_pending,
}

pub record PgRow (D : Type 0) : Type 0 where
  pub event : IncomingEvent D
  pub created_at : DateTime
  pub status : EventIngestStatus
  pub locked_at : Option DateTime
  pub error : Option Text

abbrev pub EventTable : Type 0 → Type 0
EventTable D = Dict (PgRow D)

-- `x or y` of a time
abbrev pub or_now : Option DateTime → DateTime → DateTime
or_now none now = now
or_now (some t) now = t

abbrev pub is_claimed : EventIngestStatus → Bool
is_claimed claimed = true
is_claimed _ = false

module _ {D : Type 0} where
  abbrev pub event_id_of : PgRow D → Text
  event_id_of row = row.event.event_id

  abbrev pub new_row : DateTime → IncomingEvent D → PgRow D
  new_row now e = record {
    event = e;
    created_at = or_now e.created_at now;
    status = pending;
    locked_at = none;
    error = none;
  }

  -- `append` at the time `now`; `ON CONFLICT` leaves a row that is there.
  unfoldable pub append : DateTime → IncomingEvent D → EventTable D → EventTable D
  append now e rows =
      if contains e.event_id rows then rows else insert e.event_id (new_row now e) rows

  unfoldable pub append_many : DateTime → List (IncomingEvent D) → EventTable D → EventTable D
  unfolding append
  append_many now [] rows = rows
  append_many now (e ∷ es) rows = append_many now es (append now e rows)

  -- The SELECT of `claim_events`.
  abbrev pub claimable : (Text → Bool) → PgRow D → Bool
  claimable locked row = is_pending row.status && not (locked (event_id_of row))

  abbrev pub older : PgRow D → PgRow D → Bool
  older a b = leb a.created_at b.created_at

  unfoldable pub selected : (Text → Bool) → ℕ → EventTable D → List (PgRow D)
  unfolding order_by
  selected locked batch_size rows =
      take batch_size (order_by older (filter (claimable locked) (values rows)))

  -- `event_id = ANY(:ids)`
  abbrev pub is_any : List Text → PgRow D → Bool
  is_any ids row = any (text_eq (event_id_of row)) ids

  abbrev pub claimed_row : DateTime → PgRow D → PgRow D
  claimed_row now row = record row { status = claimed; locked_at = some now }

  -- The event as the row gives it back.
  abbrev pub event_of : PgRow D → IncomingEvent D
  event_of row = record row.event { created_at = some row.created_at }

  -- `claim_events`, which drops `lease_ttl_s`
  unfoldable pub claim_events :
      (Text → Bool) → DateTime → ℕ → ℕ → EventTable D → List (IncomingEvent D) × EventTable D
  unfolding selected update_where
  claim_events locked now lease_ttl_s batch_size rows =
      let found = selected locked batch_size rows in
      if is_empty found then ([], rows) else (
        map event_of found,
        update_where (is_any (map event_id_of found)) (claimed_row now) rows,
      )

  abbrev pub set_status : EventIngestStatus → PgRow D → PgRow D
  set_status status row = record row { status = status }

  unfoldable pub ack : List Text → EventTable D → EventTable D
  unfolding update_where
  ack event_ids rows =
      if is_empty event_ids then rows else update_where (is_any event_ids) (set_status done) rows

  unfoldable pub mark_failed : Text → Text → EventTable D → EventTable D
  unfolding update_where
  mark_failed event_id error =
      update_where (λ row. text_eq (event_id_of row) event_id)
        (λ row. record row { status = failed; error = some error })

  -- The WHERE of `reclaim_stale`: `locked_at < now - lock_ttl_s`, where NULL is not less
  abbrev pub is_stale : ℕ → DateTime → PgRow D → Bool
  is_stale lock_ttl_s now row =
      is_claimed row.status
      && elim row.locked_at [ none ↦ false | some t ↦ ltb (t + seconds lock_ttl_s) now ]

  abbrev pub reclaimed_row : PgRow D → PgRow D
  reclaimed_row row = record row { status = pending; locked_at = none }

  unfoldable pub reclaim_stale : ℕ → DateTime → EventTable D → ℕ × EventTable D
  unfolding update_where count_where
  reclaim_stale lock_ttl_s now rows = (
    count_where (is_stale lock_ttl_s now) rows,
    update_where (is_stale lock_ttl_s now) reclaimed_row rows,
  )
