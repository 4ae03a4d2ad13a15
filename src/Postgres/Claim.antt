-- ===== src/Postgres/Claim.antt =====
-- What a claim of the Postgres store returns, and which rows it touches.
use webhooks_engine.Prelude.{
  ℕ, ◌+◌, ◌≡◌, refl, sym, Bool, true, false, List, map, Text, lookup, arith, Option-cases,
  Bool-cases, inl, inr, is_empty,
}
use webhooks_engine.Prelude.Tables.{update_where, lookup-update_where}
use webhooks_engine.Types.{DateTime, DeliveryRecord, seconds}
use webhooks_engine.Contract.Queue.{has}
use webhooks_engine.Postgres.Defs.{id_of, Db, claimable, selected, is_any, leased_row, claim_batch}
use webhooks_engine.Postgres.Where.{has-records}
use webhooks_engine.Prelude.Keyed.{update_where-IsKeyed}
use webhooks_engine.Postgres.Rows.{IsKeyed, selected-claimable, lookup-claim_batch, is_empty-has}

abbrev pub ids_of : List DeliveryRecord → List Text
ids_of = map (λ r. r.delivery_id)

-- A claim returns the rows of the ids that its SELECT gives, and no other.
pub has-claim_batch :
    (locked : Text → Bool) (now : DateTime) (ttl n : ℕ) (db : Db) (k : Text)
    → IsKeyed db.deliveries
    → has k (ids_of (claim_batch locked now ttl n db).0)
      ≡ has k (selected locked now n db.deliveries)
unfolding claim_batch
has-claim_batch locked now ttl n db k v =
    let ids = selected locked now n db.deliveries in
    let f = leased_row (now + seconds ttl) in
    let rows = update_where (is_any ids) f db.deliveries in
    let v' = update_where-IsKeyed id_of (is_any ids) f db.deliveries (λ row. refl) v in
    elim (Bool-cases (is_empty ids)) [
      | inl none_due ↦ rw none_due (sym (is_empty-has k ids none_due))
      | inr due ↦ rw due (elim (Bool-cases (has k ids)) [
        | inl taken ↦
            let (row, found, ok) = selected-claimable locked now n db.deliveries k v taken in
            ground (
              arith,
              has-records k (is_any ids) rows v',
              lookup-update_where k (is_any ids) f db.deliveries,
              v.keyed k row found,
            )
        | inr other ↦ elim (Option-cases (lookup k rows)) [
          | inl gone ↦ ground (arith, has-records k (is_any ids) rows v')
          | inr (row, e) ↦ ground (arith, has-records k (is_any ids) rows v', v'.keyed k row e)
        ]
      ])
    ]

-- A claim passes over a row that another transaction holds: it neither returns nor changes it.
pub claim_batch-skips :
    (locked : Text → Bool) (now : DateTime) (ttl n : ℕ) (db : Db) (k : Text)
    → IsKeyed db.deliveries
    → locked k ≡ true
    → (has k (ids_of (claim_batch locked now ttl n db).0) ≡ false)
      × (lookup k (claim_batch locked now ttl n db).1.deliveries ≡ lookup k db.deliveries)
unfolding claimable
claim_batch-skips locked now ttl n db k v held =
    let ids = selected locked now n db.deliveries in
    let unselected : has k ids ≡ false = elim (Bool-cases (has k ids)) [
      | inl taken ↦
          let (row, found, ok) = selected-claimable locked now n db.deliveries k v taken in
          ground (arith, v.keyed k row found)
      | inr other ↦ other
    ] in
    (
      ground (arith, has-claim_batch locked now ttl n db k v),
      ground (arith, lookup-claim_batch locked now ttl n db k v),
    )
