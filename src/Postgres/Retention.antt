-- ===== src/Postgres/Retention.antt =====
-- What a purge deletes and keeps, and what the notification of a failure changes.
mod Attempts
pub use Attempts.*
use webhooks_engine.Prelude.{
  contains, ℕ, ◌≤◌, ◌<◌, ◌≡◌, ◌≢◌, ◌⊎◌, refl, subst, Bool, true, false, not, ◌&&◌, none, some, List,
  [], ◌∷◌, Text, text_eq, text_eq→eq, lookup, values, filter, take, length, length-map, length-take,
  ◌==◌, is_empty, All, arith, if◌then◌else◌, Option-cases, Bool-cases, inl, inr, ok,
}
use webhooks_engine.Prelude.Tables.{lookup-delete_where, order_by}
use webhooks_engine.Prelude.Keyed.{picked-row}
use webhooks_engine.Prelude.Unique.{IsUnique, picked-IsUnique}
use webhooks_engine.Types.{DateTime, is_sent}
use webhooks_engine.Contract.Queue.{has}
use webhooks_engine.Postgres.Names.{is_safe}
use webhooks_engine.Postgres.Defs.{Row, AttemptRow, Db, id_of, is_any}
use webhooks_engine.Postgres.Rows.{IsKeyed, is_empty-has}
use webhooks_engine.Postgres.Where.{picked-all}
use webhooks_engine.Postgres.Purge.{
  older, has_old_attempt, has_new_attempt, purgeable, purge_ids, delete_ids, purge_sent,
}

purge_ids-IsPurgeable :
    (locked : Text → Bool) (before : Text → Text → Bool) (older_than : DateTime) (limit : ℕ)
    (db : Db) (k : Text) (row : Row)
    → IsKeyed db.deliveries
    → lookup k db.deliveries ≡ some row
    → has k (purge_ids locked before older_than limit db) ≡ true
    → IsPurgeable locked older_than db k row
unfolding purge_ids purgeable
purge_ids-IsPurgeable locked before t limit db k row v found h =
    let (row', found', fit) =
      picked-row id_of (purgeable locked t db.attempts) (older before) limit db.deliveries k v h in
    let same : row' ≡ row = cc in
    let fit' = subst (λ r. purgeable locked t db.attempts r ≡ true) same fit in
    let own = v.keyed k row found in
    (
      ground arith,
      ground arith,
      ground arith,
      some_old_attempt t k db.attempts (ground arith),
      no_new_attempt t k db.attempts (ground (arith, Bool-cases (has_new_attempt t k db.attempts))),
    )

lookup-delete_ids :
    (ids : List Text) (db : Db) (k : Text)
    → IsKeyed db.deliveries
    → lookup k (delete_ids ids db).deliveries ≡ (if has k ids then none else lookup k db.deliveries)
unfolding delete_ids
lookup-delete_ids ids db k v = elim (Option-cases (lookup k db.deliveries)) [
  | inl gone ↦ ground (arith, lookup-delete_where k (is_any ids) db.deliveries v.distinct)
  | inr (row, e) ↦
      ground (arith, lookup-delete_where k (is_any ids) db.deliveries v.distinct, v.keyed k row e)
]

-- Whether a purge comes to its DELETEs.
abbrev runs : ℕ → Text → Text → List Text → Bool
runs limit deliveries attempts ids =
    not (limit == 0) && is_safe deliveries && is_safe attempts && not (is_empty ids)

purge_sent-runs :
    (locked : Text → Bool) (before : Text → Text → Bool) (deliveries : Text) (older_than : DateTime)
    (limit : ℕ) (attempts : Text) (db : Db)
    → let ids = purge_ids locked before older_than limit db in
      (purge_sent locked before deliveries older_than limit attempts db).1
      ≡ (if runs limit deliveries attempts ids then delete_ids ids db else db)
unfolding purge_sent
purge_sent-runs locked before deliveries t limit attempts db = ground arith

-- A purge keeps a row with every attempt of it, or deletes the row with every attempt of it; and it
-- deletes only rows that are sent, older than the given time and not held by another transaction,
-- which have attempts, all of them older than that time.
pub purge_sent-keeps :
    (locked : Text → Bool) (before : Text → Text → Bool) (deliveries : Text) (older_than : DateTime)
    (limit : ℕ) (attempts : Text) (db : Db) (k : Text) (row : Row)
    → IsKeyed db.deliveries
    → lookup k db.deliveries ≡ some row
    → let db' = (purge_sent locked before deliveries older_than limit attempts db).1 in
      ((lookup k db'.deliveries ≡ some row)
        × (attempts_of k db'.attempts ≡ attempts_of k db.attempts))
      ⊎ ((lookup k db'.deliveries ≡ none)
          × (attempts_of k db'.attempts ≡ [])
          × IsPurgeable locked older_than db k row)
unfolding delete_ids
purge_sent-keeps locked before deliveries t limit attempts db k row v found =
    let ids = purge_ids locked before t limit db in
    let after = purge_sent-runs locked before deliveries t limit attempts db in
    elim (Bool-cases (runs limit deliveries attempts ids)) [
      | inr stopped ↦ rw (after, stopped) (inl (found, refl))
      | inl running ↦ elim (Bool-cases (has k ids)) [
        | inl gone ↦
            rw (after, running)
              (inr (
                ground (arith, lookup-delete_ids ids db k v),
                ground (arith, attempts-deleted ids k db.attempts),
                purge_ids-IsPurgeable locked before t limit db k row v found gone,
              ))
        | inr kept ↦
            rw (after, running)
              (inl (
                ground (arith, lookup-delete_ids ids db k v),
                ground (arith, attempts-deleted ids k db.attempts),
              ))
      ]
    ]

lookup-purge_sent :
    (locked : Text → Bool) (before : Text → Text → Bool) (deliveries : Text) (older_than : DateTime)
    (limit : ℕ) (attempts : Text) (db : Db) (k : Text)
    → IsKeyed db.deliveries
    → 0 < limit
    → is_safe deliveries ≡ true
    → is_safe attempts ≡ true
    → lookup k (purge_sent locked before deliveries older_than limit attempts db).1.deliveries ≡ (
        if has k (purge_ids locked before older_than limit db)
        then none
        else lookup k db.deliveries)
lookup-purge_sent locked before deliveries t limit attempts db k v pos safe safe' =
    let ids = purge_ids locked before t limit db in
    rw (purge_sent-runs locked before deliveries t limit attempts db)
      (elim (Bool-cases (is_empty ids)) [
        | inl nothing ↦ ground (arith, is_empty-has k ids)
        | inr some_ ↦ ground (arith, lookup-delete_ids ids db k v)
      ])

purgeable-IsPurgeable :
    (locked : Text → Bool) (older_than : DateTime) (db : Db) (k : Text) (row : Row)
    → id_of row ≡ k
    → IsPurgeable locked older_than db k row
    → purgeable locked older_than db.attempts row ≡ true
unfolding purgeable
purgeable-IsPurgeable locked t db k row own (sent, old, free, some_, all_old) = ground (
  arith,
  own,
  has_new_attempt-All t k db.attempts all_old,
  has_old_attempt-some t k db.attempts some_ all_old,
)

-- A purge with a positive limit and two safe table names deletes exactly the rows of `n` ids of
-- the table, no two of which are the same, returns `n`, and `n` is at most the limit; when it is
-- below the limit, no row is left that is sent, older than the given time, held by no other
-- transaction, and has attempts, all of them older than that time. The table is keyed.
pub purge_sent-exhausts :
    (locked : Text → Bool) (before : Text → Text → Bool) (deliveries : Text) (older_than : DateTime)
    (limit : ℕ) (attempts : Text) (db : Db)
    → IsKeyed db.deliveries
    → 0 < limit
    → is_safe deliveries ≡ true
    → is_safe attempts ≡ true
    → let (r, db') = purge_sent locked before deliveries older_than limit attempts db in
      (ids : List Text) × (r ≡ ok (length ids))
      × (length ids ≤ limit)
      × IsUnique ids
      × ((k : Text) → has k ids ≡ true → contains k db.deliveries ≡ true)
      × ((k : Text)
          → lookup k db'.deliveries ≡ (if has k ids then none else lookup k db.deliveries))
      × (length ids < limit
          → (k : Text) (row : Row) → lookup k db'.deliveries ≡ some row
          → ¬ IsPurgeable locked older_than db k row)
unfolding purge_sent purge_ids
purge_sent-exhausts locked before deliveries t limit attempts db v pos safe safe' =
    let ids = purge_ids locked before t limit db in
    let p = purgeable locked t db.attempts in
    let found = order_by (older before) (filter p (values db.deliveries)) in
    let gone : (k : Text)
        → lookup k (purge_sent locked before deliveries t limit attempts db).1.deliveries
          ≡ (if has k ids then none else lookup k db.deliveries) =
      λ k. lookup-purge_sent locked before deliveries t limit attempts db k v pos safe safe' in
    (
      ids,
      ground (arith, Bool-cases (is_empty ids)),
      omega (arith, length-map id_of (take limit found), length-take limit found),
      picked-IsUnique id_of p (older before) limit db.deliveries v,
      λ k taken.
          let (row, there, fit) = picked-row id_of p (older before) limit db.deliveries k v taken in
          ground arith,
      gone,
      λ fewer k row e left.
          let before_ : lookup k db.deliveries ≡ some row =
            ground (arith, gone k, Bool-cases (has k ids)) in
          let fit = purgeable-IsPurgeable locked t db k row (v.keyed k row before_) left in
          ground (
            arith,
            picked-all p (older before) limit db.deliveries k v,
            gone k,
            Bool-cases (has k ids),
          ),
    )
