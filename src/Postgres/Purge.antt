-- ===== src/Postgres/Purge.antt =====
-- `purge_sent`, `dead_unnotified` and `ack_failure_notification` of `PgDeliveryRepo`
-- (service/pg_repos.py). `before` is the collation in which the database orders ids.
use webhooks_engine.Prelude.{
  ℕ, Bool, true, false, not, ◌&&◌, Option, none, some, List, map, Text, text_eq, values, filter,
  take, length, any, leb, ltb, ◌==◌, is_empty, if◌then◌else◌, Result, ok, err, Fault, value_error,
}
use webhooks_engine.Prelude.Tables.{update_where, delete_where, order_by}
use webhooks_engine.Types.{DateTime, DeliveryRecord, DeliveryStatus, dead_lettered, is_sent}
use webhooks_engine.Contract.Queue.{has}
use webhooks_engine.Postgres.Names.{is_safe}
use webhooks_engine.Postgres.Defs.{Row, AttemptRow, Db, row_to_delivery, id_of, is_any, is_row}

-- `ORDER BY created_at, delivery_id`
abbrev pub older : (Text → Text → Bool) → Row → Row → Bool
older before a b =
    if a.columns.created_at == b.columns.created_at
    then before (id_of a) (id_of b)
    else ltb a.columns.created_at b.columns.created_at

-- `EXISTS (… WHERE a.delivery_id = d.delivery_id AND a.attempted_at < :older_than)`
abbrev pub has_old_attempt : DateTime → Text → List AttemptRow → Bool
has_old_attempt older_than k =
    any (λ (a : AttemptRow). text_eq a.delivery_id k && ltb a.attempted_at older_than)

-- `EXISTS (… AND a.attempted_at >= :older_than)`
abbrev pub has_new_attempt : DateTime → Text → List AttemptRow → Bool
has_new_attempt older_than k =
    any (λ (a : AttemptRow). text_eq a.delivery_id k && leb older_than a.attempted_at)

-- The WHERE of the SELECT, and the lock that it skips.
unfoldable pub purgeable : (Text → Bool) → DateTime → List AttemptRow → Row → Bool
purgeable locked older_than attempts row =
    is_sent row.columns.status
    && ltb row.columns.created_at older_than
    && has_old_attempt older_than (id_of row) attempts
    && not (has_new_attempt older_than (id_of row) attempts)
    && not (locked (id_of row))

unfoldable pub purge_ids : (Text → Bool) → (Text → Text → Bool) → DateTime → ℕ → Db → List Text
unfolding purgeable order_by
purge_ids locked before older_than limit db = map id_of (
    take limit (
      order_by (older before)
        (filter (purgeable locked older_than db.attempts) (values db.deliveries))))

-- The two DELETEs; without ids there are none.
unfoldable pub delete_ids : List Text → Db → Db
unfolding delete_where
delete_ids ids db = record {
  deliveries = delete_where (is_any ids) db.deliveries;
  attempts = filter (λ (a : AttemptRow). not (has a.delivery_id ids)) db.attempts;
}

-- `purge_sent`, of a limit that is not negative; a negative one raises as 0 does. `deliveries` and
-- `attempts` are the names of the two tables.
unfoldable pub purge_sent :
    (Text → Bool) → (Text → Text → Bool) → Text → DateTime → ℕ → Text → Db → Result Fault ℕ × Db
unfolding purge_ids delete_ids is_safe
purge_sent locked before deliveries older_than limit attempts db =
    let ids = purge_ids locked before older_than limit db in
    if limit == 0
    then (err value_error, db)
    else if not (is_safe deliveries)
    then (err value_error, db)
    else if not (is_safe attempts)
    then (err value_error, db)
    else if is_empty ids
    then (ok 0, db)
    else (ok (length ids), delete_ids ids db)

abbrev pub is_dead : DeliveryStatus → Bool
is_dead dead_lettered = true
is_dead _ = false

abbrev pub is_null : Option DateTime → Bool
is_null none = true
is_null (some _) = false

-- The WHERE of `dead_unnotified`, and the lock that it skips.
abbrev pub unnotified : (Text → Bool) → Row → Bool
unnotified locked row =
    is_dead row.columns.status && is_null row.failure_notified_at && not (locked (id_of row))

unfoldable pub dead_unnotified : (Text → Bool) → (Text → Text → Bool) → ℕ → Db → List DeliveryRecord
unfolding order_by
dead_unnotified locked before limit db =
    map row_to_delivery
      (take limit (order_by (older before) (filter (unnotified locked) (values db.deliveries))))

unfoldable pub ack_failure_notification : Text → DateTime → Db → Db
unfolding update_where
ack_failure_notification delivery_id now db = record db {
  deliveries =
      update_where (λ row. is_row delivery_id row && is_dead row.columns.status)
        (λ row. record row { failure_notified_at = some now }) db.deliveries;
}
