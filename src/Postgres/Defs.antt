-- ===== src/Postgres/Defs.antt =====
-- `PgDeliveryRepo` and `PgAttemptRepo` of service/pg_repos.py, and `PgWebhookDeliveryStore` of
-- stores/pg.py, whose every method is one transaction. The statements are read by the documented
-- semantics of SQL: the deliveries are a table with the primary key `delivery_id`, the attempts a
-- table without a key of its own columns (`delivery_schema_sql`). `locked` says which rows other
-- transactions hold, which `FOR UPDATE SKIP LOCKED` passes over. The database does not fail.
use webhooks_engine.Prelude.{
  ℕ, ◌+◌, Bool, false, not, ◌&&◌, Option, none, some, List, [], ◌∷◌, ◌++◌, map, Text, text_eq, Dict,
  lookup, contains, insert, values, filter, take, leb, ltb, is_empty, if◌then◌else◌,
}
use webhooks_engine.Prelude.Tables.{update_where, count_where, order_by}
use webhooks_engine.Types.{
  DateTime, DeliveryRecord, AttemptRecord, DeliveryStatus, pending, in_flight, sent, failed_retry,
  dead_lettered, is_in_flight, is_ready, seconds,
}
use webhooks_engine.Contract.Queue.{has}

-- A row of the deliveries: the columns of the record, and the two that the record has not.
pub record Row : Type 0 where
  pub columns : DeliveryRecord
  pub lease_expiry : Option DateTime
  pub failure_notified_at : Option DateTime

-- A row of the attempts.
pub record AttemptRow : Type 0 where
  pub delivery_id : Text
  pub attempt : ℕ
  pub attempted_at : DateTime
  pub http_code : Option ℕ
  pub duration_ms : ℕ
  pub error : Option Text
  pub response_snippet : Text

pub record Db : Type 0 where
  pub deliveries : Dict Row
  pub attempts : List AttemptRow

-- `_row_to_delivery`: the columns come back as they were written, with their time zone.
abbrev pub row_to_delivery : Row → DeliveryRecord
row_to_delivery row = row.columns

abbrev pub id_of : Row → Text
id_of row = row.columns.delivery_id

-- `PgDeliveryRepo.enqueue_many`: every row is inserted as 'pending', without a lease; `ON CONFLICT`
-- leaves a row that is there. The count is that of the rows inserted.
abbrev pub new_row : DeliveryRecord → Row
new_row r = record {
  columns = record r { status = pending };
  lease_expiry = none;
  failure_notified_at = none;
}

unfoldable pub insert_all : List DeliveryRecord → Dict Row → ℕ × Dict Row
insert_all [] rows = (0, rows)
insert_all (r ∷ rs) rows =
    let there = contains r.delivery_id rows in
    let next = if there then rows else insert r.delivery_id (new_row r) rows in
    let (n, rows') = insert_all rs next in (if there then n else n + 1, rows')

unfoldable pub enqueue_many : List DeliveryRecord → Db → Db
unfolding insert_all
enqueue_many rs db =
    if is_empty rs then db else record db { deliveries = (insert_all rs db.deliveries).1 }

-- The WHERE of the SELECT of `claim_batch`, and the lock that it skips.
unfoldable pub claimable : (Text → Bool) → DateTime → Row → Bool
claimable locked now row =
    is_ready row.columns.status && leb row.columns.fire_at now && not (locked (id_of row))

abbrev pub fires_before : Row → Row → Bool
fires_before a b = leb a.columns.fire_at b.columns.fire_at

-- The ids that the SELECT gives.
unfoldable pub selected : (Text → Bool) → DateTime → ℕ → Dict Row → List Text
unfolding claimable order_by
selected locked now batch_size rows =
    map id_of
      (take batch_size (order_by fires_before (filter (claimable locked now) (values rows))))

-- `delivery_id = ANY(:ids)`
abbrev pub is_any : List Text → Row → Bool
is_any ids row = has (id_of row) ids

-- The SET of the UPDATE of `claim_batch`.
abbrev pub leased_row : DateTime → Row → Row
leased_row lease_expiry row = record {
  columns = record row.columns { status = in_flight };
  lease_expiry = some lease_expiry;
  failure_notified_at = row.failure_notified_at;
}

-- `claim_batch`: the UPDATE returns the rows of the ids as it leaves them, in no promised order.
unfoldable pub claim_batch : (Text → Bool) → DateTime → ℕ → ℕ → Db → List DeliveryRecord × Db
unfolding selected update_where
claim_batch locked now lease_ttl_s batch_size db =
    let ids = selected locked now batch_size db.deliveries in
    let rows = update_where (is_any ids) (leased_row (now + seconds lease_ttl_s)) db.deliveries in
    if is_empty ids
    then ([], db)
    else (map row_to_delivery (filter (is_any ids) (values rows)), record db { deliveries = rows })

-- The WHERE of `reclaim_stale`; a lease that is NULL is not less than anything.
abbrev pub is_stale : DateTime → Row → Bool
is_stale now row =
    is_in_flight row.columns.status && elim row.lease_expiry [ none ↦ false | some e ↦ ltb e now ]

-- What every UPDATE sets but that of the claim: a status, and no lease.
abbrev pub set_free : DeliveryStatus → Row → Row
set_free status row = record {
  columns = record row.columns { status = status };
  lease_expiry = none;
  failure_notified_at = row.failure_notified_at;
}

unfoldable pub reclaim_stale : DateTime → Db → ℕ × Db
unfolding update_where count_where
reclaim_stale now db = (
  count_where (is_stale now) db.deliveries,
  record db { deliveries = update_where (is_stale now) (set_free pending) db.deliveries },
)

-- `WHERE delivery_id = :delivery_id`
abbrev pub is_row : Text → Row → Bool
is_row delivery_id row = text_eq (id_of row) delivery_id

abbrev pub set_attempts : ℕ → Row → Row
set_attempts n row = record row { columns = record row.columns { attempts = n } }

abbrev pub set_fire_at : DateTime → Row → Row
set_fire_at at row = record row { columns = record row.columns { fire_at = at } }

-- `PgAttemptRepo.append`. `ON CONFLICT DO NOTHING` has nothing to conflict with but the serial
-- key, which is always new.
unfoldable pub append : Text → AttemptRecord → Db → Db
append delivery_id a db = record db {
  attempts =
      db.attempts
      ++ record {
        delivery_id = delivery_id;
        attempt = a.attempt;
        attempted_at = a.attempted_at;
        http_code = a.http_code;
        duration_ms = a.duration_ms;
        error = a.error;
        response_snippet = a.response_snippet;
      }
        ∷ [];
}

-- An UPDATE of one delivery.
abbrev pub update_row : Text → (Row → Row) → Db → Db
update_row delivery_id f db = record db {
  deliveries = update_where (is_row delivery_id) f db.deliveries;
}

-- The UPDATEs of `PgDeliveryRepo` by its key.
abbrev pub repo_mark_sent : Text → AttemptRecord → Db → Db
repo_mark_sent did a = update_row did (λ row. set_attempts a.attempt (set_free sent row))

abbrev pub repo_schedule_retry : Text → DateTime → AttemptRecord → Db → Db
repo_schedule_retry did fire_at a =
    update_row did (λ row. set_fire_at fire_at (set_attempts a.attempt (set_free failed_retry row)))

abbrev pub repo_mark_dead : Text → AttemptRecord → Db → Db
repo_mark_dead did a = update_row did (λ row. set_attempts a.attempt (set_free dead_lettered row))

abbrev pub bump_attempt : Text → AttemptRecord → Db → Db
bump_attempt did a = update_row did (set_attempts a.attempt)

-- The methods of `PgWebhookDeliveryStore` that write: the attempt, then the row.
unfoldable pub mark_sent : Text → AttemptRecord → Db → Db
unfolding append update_where
mark_sent did a db = repo_mark_sent did a (append did a db)

unfoldable pub schedule_retry : Text → DateTime → AttemptRecord → Db → Db
unfolding append update_where
schedule_retry did fire_at a db = repo_schedule_retry did fire_at a (append did a db)

unfoldable pub mark_dead : Text → AttemptRecord → Db → Db
unfolding append update_where
mark_dead did a db = repo_mark_dead did a (append did a db)

unfoldable pub append_attempt : Text → AttemptRecord → Db → Db
unfolding append update_where
append_attempt did a db = bump_attempt did a (append did a db)

unfoldable pub get : Text → Db → Option DeliveryRecord
get did db = elim (lookup did db.deliveries) [ none ↦ none | some row ↦ some (row_to_delivery row) ]

-- `ORDER BY created_at DESC`
abbrev pub newer : Row → Row → Bool
newer a b = leb b.columns.created_at a.columns.created_at

unfoldable pub recent_for_subscription : Text → ℕ → Db → List DeliveryRecord
unfolding order_by
recent_for_subscription sub_id limit db = map row_to_delivery (
    take limit (
      order_by newer
        (filter (λ row. text_eq row.columns.subscription_id sub_id) (values db.deliveries))))
