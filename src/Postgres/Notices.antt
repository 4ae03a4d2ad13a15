-- ===== src/Postgres/Notices.antt =====
-- The notification of deliveries that died: what the acknowledgement of one changes.
use webhooks_engine.Prelude.{
  ℕ, ◌≡◌, refl, ◌∙◌, ap, Bool, false, ◌&&◌, some, map, Text, text_eq, text_eq_refl, lookup, values,
  filter, take, arith, Option-cases, Bool-cases, inl, inr,
}
use webhooks_engine.Prelude.Tables.{update_where, lookup-update_where, order_by}
use webhooks_engine.Types.{DateTime, DeliveryRecord}
use webhooks_engine.Contract.Queue.{has}
use webhooks_engine.Postgres.Defs.{Row, Db, id_of, is_row}
use webhooks_engine.Prelude.Keyed.{picked-row, update_where-IsKeyed}
use webhooks_engine.Postgres.Rows.{IsKeyed}
use webhooks_engine.Postgres.Where.{ids_of_columns}
use webhooks_engine.Postgres.Purge.{
  older, is_dead, unnotified, dead_unnotified, ack_failure_notification,
}

-- A failure that was acknowledged is not listed again, and the acknowledgement changes no other
-- row.
pub ack_failure_notification-acknowledges :
    (locked : Text → Bool) (before : Text → Text → Bool) (limit : ℕ) (db : Db) (j k : Text)
    (now : DateTime)
    → IsKeyed db.deliveries
    → let db' = ack_failure_notification k now db in
      (has k (map (λ (r : DeliveryRecord). r.delivery_id) (dead_unnotified locked before limit db'))
        ≡ false)
      × (text_eq j k ≡ false → lookup j db'.deliveries ≡ lookup j db.deliveries)
unfolding ack_failure_notification dead_unnotified
ack_failure_notification-acknowledges locked before limit db j k now v =
    let p = λ (row : Row). is_row k row && is_dead row.columns.status in
    let f = λ (row : Row). record row { failure_notified_at = some now } in
    let rows = update_where p f db.deliveries in
    let listed = take limit (order_by (older before) (filter (unnotified locked) (values rows))) in
    (
      elim (Bool-cases (has k (map id_of listed))) [
        | inr absent ↦ ap (has k) (ids_of_columns listed) ∙ absent
        | inl present ↦
            let v' = update_where-IsKeyed id_of p f db.deliveries (λ row. refl) v in
            let (row', e, fit) =
              picked-row id_of (unnotified locked) (older before) limit rows k v' present in
            elim (Option-cases (lookup k db.deliveries)) [
              | inl gone ↦ absurd (ground (arith, lookup-update_where k p f db.deliveries))
              | inr (row, found) ↦ absurd (
                  ground (
                    arith,
                    lookup-update_where k p f db.deliveries,
                    v.keyed k row found,
                    text_eq_refl k,
                    Bool-cases (is_dead row.columns.status),
                  ))
            ]
      ],
      λ other. elim (Option-cases (lookup j db.deliveries)) [
        | inl gone ↦ ground (arith, lookup-update_where j p f db.deliveries)
        | inr (row, found) ↦
            ground (arith, lookup-update_where j p f db.deliveries, v.keyed j row found)
      ],
    )
