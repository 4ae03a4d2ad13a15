-- ===== src/Postgres/Rows.antt =====
-- The well-formedness of the deliveries table, and what each method leaves of a row.
use webhooks_engine.Prelude.{
  ℕ, ◌+◌, ◌≡◌, refl, Bool, true, false, Option, none, some, List, [], ◌∷◌, Text, text_eq,
  text_eq→eq, Dict, lookup, contains, insert, lookup-insert, arith, if◌then◌else◌, Option-cases,
  Bool-cases, inl, inr, is_empty,
}
use webhooks_engine.Prelude.Tables.{updated, lookup-update_where}
use webhooks_engine.Prelude.Keyed
use webhooks_engine.Types.{DateTime, DeliveryRecord, seconds}
use webhooks_engine.Contract.Queue.{has}
use webhooks_engine.Postgres.Defs.{
  Row, Db, id_of, new_row, insert_all, claimable, fires_before, selected, is_any, leased_row,
  claim_batch,
}

-- The key of each row is its `delivery_id`.
abbrev pub IsKeyed : Dict Row → Type 0
IsKeyed = Keyed.IsKeyed id_of

pub insert_all-IsKeyed :
    (rs : List DeliveryRecord) (rows : Dict Row) → IsKeyed rows → IsKeyed (insert_all rs rows).1
unfolding insert_all
insert_all-IsKeyed [] rows v = v
insert_all-IsKeyed (r ∷ rs) rows v = elim (Bool-cases (contains r.delivery_id rows)) [
  | inl there ↦ rw there (insert_all-IsKeyed rs rows v)
  | inr fresh ↦ rw fresh (
      insert_all-IsKeyed rs (insert r.delivery_id (new_row r) rows)
        (Keyed.insert-IsKeyed id_of (new_row r) rows v))
]

abbrev pub or_row : Option Row → Option Row → Option Row
or_row none o = o
or_row (some row) o = some row

-- The row that an INSERT of the records makes for the id.
abbrev pub first_row : Text → List DeliveryRecord → Option Row
first_row k [] = none
first_row k (r ∷ rs) = if text_eq k r.delivery_id then some (new_row r) else first_row k rs

pub lookup-insert_all :
    (k : Text) (rs : List DeliveryRecord) (rows : Dict Row)
    → lookup k (insert_all rs rows).1 ≡ or_row (lookup k rows) (first_row k rs)
unfolding insert_all
lookup-insert_all k [] rows = ground (arith, Option-cases (lookup k rows))
lookup-insert_all k (r ∷ rs) rows = elim (Bool-cases (contains r.delivery_id rows)) [
  | inl there ↦ rw there (
      ground (
        arith,
        lookup-insert_all k rs rows,
        text_eq→eq k r.delivery_id,
        Option-cases (lookup k rows),
      ))
  | inr fresh ↦ rw fresh (
      ground (
        arith,
        lookup-insert_all k rs (insert r.delivery_id (new_row r) rows),
        lookup-insert k r.delivery_id (new_row r) rows,
        text_eq→eq k r.delivery_id,
        Option-cases (lookup k rows),
      ))
]

-- The ids of the rows that a WHERE finds, in an order, up to a limit.
abbrev pub picked : (Row → Bool) → (Row → Row → Bool) → ℕ → Dict Row → List Text
picked = Keyed.picked id_of

-- Every id that the SELECT of a claim gives is that of a row that may be claimed and is not locked.
pub selected-claimable :
    (locked : Text → Bool) (now : DateTime) (n : ℕ) (rows : Dict Row) (k : Text)
    → IsKeyed rows
    → has k (selected locked now n rows) ≡ true
    → (row : Row) × (lookup k rows ≡ some row) × (claimable locked now row ≡ true)
unfolding selected
selected-claimable locked now n = Keyed.picked-row id_of (claimable locked now) fires_before n

pub is_empty-has : (k : Text) (ids : List Text) → is_empty ids ≡ true → has k ids ≡ false
is_empty-has k [] e = refl
is_empty-has k (j ∷ ids) e = absurd (ground arith)

-- What the UPDATE of a claim leaves, with or without ids.
pub lookup-claim_batch :
    (locked : Text → Bool) (now : DateTime) (ttl n : ℕ) (db : Db) (k : Text)
    → IsKeyed db.deliveries
    → let ids = selected locked now n db.deliveries in
      lookup k (claim_batch locked now ttl n db).1.deliveries ≡ (
        if has k ids
        then updated (λ row. true) (leased_row (now + seconds ttl)) (lookup k db.deliveries)
        else lookup k db.deliveries)
unfolding claim_batch
lookup-claim_batch locked now ttl n db k v =
    let ids = selected locked now n db.deliveries in
    elim (Option-cases (lookup k db.deliveries)) [
      | inl gone ↦
          ground (
            arith,
            lookup-update_where k (is_any ids) (leased_row (now + seconds ttl)) db.deliveries,
          )
      | inr (row, e) ↦ ground (
        arith,
        lookup-update_where k (is_any ids) (leased_row (now + seconds ttl)) db.deliveries,
        v.keyed k row e,
        Bool-cases (is_empty ids),
        is_empty-has k ids,
      )
    ]
