-- ===== src/Ingest/PgClaims.antt =====
-- Claims and reclaims of the Postgres event store of ingest/pg.py.
use webhooks_engine.Prelude.{
  ℕ, ◌+◌, ◌≡◌, refl, sym, ◌∙◌, ap, Bool, true, false, Option, none, some, List, [], ◌∷◌, map, Text,
  text_eq, lookup, contains, any, ltb, is_empty, arith, if◌then◌else◌, Bool-cases, inl, inr,
}
use webhooks_engine.Prelude.Tables.{lookup-update_where}
use webhooks_engine.Prelude.Keyed.{
  IsKeyed, insert-IsKeyed, picked, picked-row, update_where-IsKeyed,
}
use webhooks_engine.Types.{DateTime, seconds}
use webhooks_engine.Ingest.Queue.{
  EventIngestStatus, pending, claimed, done, failed, IncomingEvent, is_pending,
}
use webhooks_engine.Ingest.Claims.{has_id}
use webhooks_engine.Ingest.Pg.{
  PgRow, EventTable, event_id_of, new_row, append, append_many, claimable, older, selected, is_any,
  claimed_row, event_of, claim_events, is_stale, reclaimed_row, reclaim_stale,
}

is_pending-pending : (st : EventIngestStatus) → is_pending st ≡ true → st ≡ pending
is_pending-pending pending h = refl
is_pending-pending claimed h = absurd (ground arith)
is_pending-pending done h = absurd (ground arith)
is_pending-pending failed h = absurd (ground arith)

module _ {D : Type 0} where
  claimable-is_pending :
      (locked : Text → Bool) (row : PgRow D)
      → claimable locked row ≡ true
      → is_pending row.status ≡ true
  claimable-is_pending locked row h = ground arith

  abbrev pub status_at : Text → EventTable D → Option EventIngestStatus
  status_at k rows = elim (lookup k rows) [ none ↦ none | some row ↦ some row.status ]

  has_id-events :
      (k : Text) (found : List (PgRow D))
      → has_id k (map event_of found) ≡ any (text_eq k) (map event_id_of found)
  has_id-events k [] = refl
  has_id-events k (row ∷ found) = ground (arith, has_id-events k found)

  any-empty :
      (k : Text) (found : List (PgRow D))
      → is_empty found ≡ true
      → any (text_eq k) (map event_id_of found) ≡ false
  any-empty k [] h = refl
  any-empty k (row ∷ found) h = absurd (ground arith)

  -- What a claim gives is what its SELECT finds.
  has_id-claim_events :
      (locked : Text → Bool) (now : DateTime) (ttl n : ℕ) (rows : EventTable D) (k : Text)
      → has_id k (claim_events locked now ttl n rows).0
        ≡ any (text_eq k) (map event_id_of (selected locked n rows))
  unfolding claim_events
  has_id-claim_events locked now ttl n rows k =
      elim (Bool-cases (is_empty (selected locked n rows))) [
        | inl nothing ↦
            rw (nothing, claim_events) (sym (any-empty k (selected locked n rows) nothing))
        | inr something ↦ rw (something, claim_events) (has_id-events k (selected locked n rows))
      ]

  claimed-lookup :
      (locked : Text → Bool) (now : DateTime) (ttl n : ℕ) (rows : EventTable D) (k : Text)
      → IsKeyed event_id_of rows
      → has_id k (claim_events locked now ttl n rows).0 ≡ true
      → (row : PgRow D) × (lookup k rows ≡ some row)
        × (claimable locked row ≡ true)
        × (lookup k (claim_events locked now ttl n rows).1 ≡ some (claimed_row now row))
  unfolding claim_events selected
  claimed-lookup locked now ttl n rows k v h =
      let found = selected locked n rows in
      let taken : any (text_eq k) (picked event_id_of (claimable locked) older n rows) ≡ true =
        sym (has_id-claim_events locked now ttl n rows k) ∙ h in
      let (row, here, fit) = picked-row event_id_of (claimable locked) older n rows k v taken in
      (
        row,
        here,
        fit,
        elim (Bool-cases (is_empty found)) [
          | inl nothing ↦ absurd (ground (arith, any-empty k found nothing))
          | inr something ↦
              rw (something, claim_events)
                (ground (
                  arith,
                  lookup-update_where k (is_any (map event_id_of found)) (claimed_row now) rows,
                  v.keyed k row here,
                ))
        ],
      )

  claim_events-IsKeyed :
      (locked : Text → Bool) (now : DateTime) (ttl n : ℕ) (rows : EventTable D)
      → IsKeyed event_id_of rows
      → IsKeyed event_id_of (claim_events locked now ttl n rows).1
  unfolding claim_events
  claim_events-IsKeyed locked now ttl n rows v =
      elim (Bool-cases (is_empty (selected locked n rows))) [
        | inl nothing ↦ rw (nothing, claim_events) v
        | inr something ↦
            rw (something, claim_events)
              (update_where-IsKeyed event_id_of _ (claimed_row now) rows (λ row. refl) v)
      ]

  append-IsKeyed :
      (now : DateTime) (e : IncomingEvent D) (rows : EventTable D)
      → IsKeyed event_id_of rows
      → IsKeyed event_id_of (append now e rows)
  unfolding append
  append-IsKeyed now e rows v = elim (Bool-cases (contains e.event_id rows)) [
    | inl there ↦ rw (there, append) v
    | inr new ↦ rw (new, append) (insert-IsKeyed event_id_of (new_row now e) rows v)
  ]

  pub append_many-IsKeyed :
      (now : DateTime) (es : List (IncomingEvent D)) (rows : EventTable D)
      → IsKeyed event_id_of rows
      → IsKeyed event_id_of (append_many now es rows)
  unfolding append_many
  append_many-IsKeyed now [] rows v = v
  append_many-IsKeyed now (e ∷ es) rows v =
      append_many-IsKeyed now es (append now e rows) (append-IsKeyed now e rows v)

  -- From a table keyed by `event_id`, an event that a claim takes was PENDING and held by no
  -- other transaction. No later claim takes it from the table that the claim leaves, whatever is
  -- locked then. A reclaim of that table makes it PENDING again exactly when `lock_ttl_s` of the
  -- store, and not the `lease_ttl_s` of the claim, is over.
  pub claim_events-leases :
      (locked locked' : Text → Bool) (now now' : DateTime) (ttl ttl' n n' lock_ttl_s : ℕ)
      (rows : EventTable D) (k : Text)
      → IsKeyed event_id_of rows
      → has_id k (claim_events locked now ttl n rows).0 ≡ true
      → let rows' = (claim_events locked now ttl n rows).1 in
        (status_at k rows ≡ some pending)
        × (locked k ≡ false)
        × (has_id k (claim_events locked' now' ttl' n' rows').0 ≡ false)
        × (status_at k (reclaim_stale lock_ttl_s now' rows').1
            ≡ some (if ltb (now + seconds lock_ttl_s) now' then pending else claimed))
  unfolding reclaim_stale
  claim_events-leases locked locked' now now' ttl ttl' n n' lock_ttl_s rows k v h =
      let rows' = (claim_events locked now ttl n rows).1 in
      let v' = claim_events-IsKeyed locked now ttl n rows v in
      let (row, here, fit, there) = claimed-lookup locked now ttl n rows k v h in
      (
        rw (here, status_at)
            (ap some (is_pending-pending row.status (claimable-is_pending locked row fit))),
        ground (arith, v.keyed k row here),
        elim (Bool-cases (has_id k (claim_events locked' now' ttl' n' rows').0)) [
          | inr free ↦ free
          | inl again ↦
              let (row', here', fit', there') =
                claimed-lookup locked' now' ttl' n' rows' k v' again in
              absurd (ground arith)
        ],
        ground (arith, lookup-update_where k (is_stale lock_ttl_s now') reclaimed_row rows'),
      )
