-- ===== src/Ingest/Claims/Rows.antt =====
-- The loop of `claim_events` of ingest/memory.py, row by row.
use webhooks_engine.Prelude.{
  ℕ, zero, suc, ◌≤◌, ◌≡◌, refl, ◌⊎◌, Bool, true, false, Option, none, some, List, [], ◌∷◌, Text,
  text_eq, text_eq→eq, text_eq_refl, lookup, contains, arith, if◌then◌else◌, any, length,
}
use webhooks_engine.Types.{DateTime}
use webhooks_engine.Ingest.Queue.{
  EventIngestStatus, IncomingEvent, Row, EventStore, is_pending, is_stale, claimed_row, claim_rows,
  reclaimed_row,
}

module _ {D : Type 0} where
  -- Ids are distinct, and a row holds the event of its id.
  abbrev pub IsKeyed : EventStore D → Type 0
  IsKeyed [] = Unit
  IsKeyed ((k, row) ∷ rows) = (contains k rows ≡ false) × (row.event.event_id ≡ k) × IsKeyed rows

  -- Whether the list holds an event of that id.
  abbrev pub has_id : Text → List (IncomingEvent D) → Bool
  has_id k = any (λ e. text_eq k e.event_id)

  abbrev pub claimed_option : DateTime → Option (Row D) → Option (Row D)
  claimed_option expiry none = none
  claimed_option expiry (some row) = some (claimed_row expiry row)

  abbrev pub reclaimed_option : DateTime → Option (Row D) → Option (Row D)
  reclaimed_option now none = none
  reclaimed_option now (some row) =
      if is_stale now row.status row.lease_until then some (reclaimed_row row) else some row

  abbrev pub closed_option : EventIngestStatus → Option (Row D) → Option (Row D)
  closed_option status none = none
  closed_option status (some row) = some (record row { status = status; lease_until = none })

  pub claim_rows-has_id :
      (room : ℕ) (expiry : DateTime) (rows : EventStore D) (k : Text)
      → IsKeyed rows
      → contains k rows ≡ false
      → has_id k (claim_rows room expiry rows).0 ≡ false
  unfolding claim_rows lookup
  claim_rows-has_id room expiry [] k v h = refl
  claim_rows-has_id zero expiry (kv ∷ rows) k v h = refl
  claim_rows-has_id (suc room) expiry ((j, row) ∷ rows) k v h = ground (
    arith,
    claim_rows-has_id room expiry rows k v.2,
    claim_rows-has_id (suc room) expiry rows k v.2,
  )

  pub claim_rows-lookup :
      (room : ℕ) (expiry : DateTime) (rows : EventStore D) (k : Text)
      → IsKeyed rows
      → let (es, rows') = claim_rows room expiry rows in
        lookup k rows'
        ≡ (if has_id k es then claimed_option expiry (lookup k rows) else lookup k rows)
  unfolding claim_rows lookup
  claim_rows-lookup room expiry [] k v = refl
  claim_rows-lookup zero expiry (kv ∷ rows) k v = refl
  claim_rows-lookup (suc room) expiry ((j, row) ∷ rows) k v = ground (
    arith,
    text_eq→eq k j,
    claim_rows-has_id room expiry rows j v.2 v.0,
    claim_rows-has_id (suc room) expiry rows j v.2 v.0,
    claim_rows-lookup room expiry rows k v.2,
    claim_rows-lookup (suc room) expiry rows k v.2,
  )

  abbrev pub is_pending_option : Option (Row D) → Bool
  is_pending_option none = false
  is_pending_option (some row) = is_pending row.status

  pub claim_rows-pending :
      (room : ℕ) (expiry : DateTime) (rows : EventStore D) (k : Text)
      → IsKeyed rows
      → let es = (claim_rows room expiry rows).0 in
        (length es ≤ room)
        × (has_id k es ≡ true → is_pending_option (lookup k rows) ≡ true)
        × ((length es ≡ room) ⊎ (has_id k es ≡ is_pending_option (lookup k rows)))
  unfolding claim_rows lookup
  claim_rows-pending room expiry [] k v = ground arith
  claim_rows-pending zero expiry (kv ∷ rows) k v = ground arith
  claim_rows-pending (suc room) expiry ((j, row) ∷ rows) k v = ground (
    arith,
    text_eq→eq k j,
    text_eq_refl j,
    claim_rows-has_id room expiry rows j v.2 v.0,
    claim_rows-has_id (suc room) expiry rows j v.2 v.0,
    claim_rows-pending room expiry rows k v.2,
    claim_rows-pending (suc room) expiry rows k v.2,
  )

  pub claim_rows-contains :
      (room : ℕ) (expiry : DateTime) (rows : EventStore D) (k : Text)
      → contains k (claim_rows room expiry rows).1 ≡ contains k rows
  unfolding claim_rows lookup
  claim_rows-contains room expiry [] k = refl
  claim_rows-contains zero expiry (kv ∷ rows) k = refl
  claim_rows-contains (suc room) expiry ((j, row) ∷ rows) k =
      ground (
        arith,
        claim_rows-contains room expiry rows k,
        claim_rows-contains (suc room) expiry rows k,
      )

  pub claim_rows-IsKeyed :
      (room : ℕ) (expiry : DateTime) (rows : EventStore D)
      → IsKeyed rows
      → IsKeyed (claim_rows room expiry rows).1
  unfolding claim_rows
  claim_rows-IsKeyed room expiry [] v = v
  claim_rows-IsKeyed zero expiry (kv ∷ rows) v = v
  claim_rows-IsKeyed (suc room) expiry ((j, row) ∷ rows) v = ground (
    arith,
    claim_rows-contains room expiry rows j,
    claim_rows-contains (suc room) expiry rows j,
    claim_rows-IsKeyed room expiry rows v.2,
    claim_rows-IsKeyed (suc room) expiry rows v.2,
  )
