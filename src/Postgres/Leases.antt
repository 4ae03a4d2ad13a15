-- ===== src/Postgres/Leases.antt =====
-- The leases of the deliveries table, and the transitions that end them.
use webhooks_engine.Prelude.{
  ℕ, ◌≡◌, refl, true, Option, none, some, Text, text_eq, lookup, ltb, arith, if◌then◌else◌,
  Option-cases, Bool-cases, inl, inr,
}
use webhooks_engine.Prelude.Tables.{updated, lookup-update_where}
use webhooks_engine.Types.{DateTime, AttemptRecord, pending, is_in_flight}
use webhooks_engine.Contract.Queue.{Mark, to_sent, to_dead, to_retry}
use webhooks_engine.Postgres.Defs.{
  id_of, Row, Db, is_row, update_row, append, mark_sent, schedule_retry, mark_dead, append_attempt,
  set_free, set_attempts, reclaim_stale, is_stale,
}
use webhooks_engine.Prelude.Keyed.{update_where-IsKeyed}
use webhooks_engine.Postgres.Rows.{IsKeyed}

-- The lease of a row that is in flight.
abbrev pub row_lease : Option Row → Option ℕ
row_lease none = none
row_lease (some row) = if is_in_flight row.columns.status then row.lease_expiry else none

abbrev pub lease_of : Text → Db → Option ℕ
lease_of k db = row_lease (lookup k db.deliveries)

abbrev pub IsValid : Db → Type 0
IsValid db = IsKeyed db.deliveries

abbrev pub mark : Text → Mark → Db → Db
mark k (to_sent a) db = mark_sent k a db
mark k (to_dead a) db = mark_dead k a db
mark k (to_retry at a) db = schedule_retry k at a db

pub lookup-update_row :
    (j k : Text) (f : Row → Row) (db : Db)
    → IsValid db
    → lookup j (update_row k f db).deliveries ≡ (
        if text_eq j k
        then updated (λ row. true) f (lookup j db.deliveries)
        else lookup j db.deliveries)
lookup-update_row j k f db v = elim (Option-cases (lookup j db.deliveries)) [
  | inl gone ↦ ground (arith, lookup-update_where j (is_row k) f db.deliveries)
  | inr (row, e) ↦ ground (arith, lookup-update_where j (is_row k) f db.deliveries, v.keyed j row e)
]

pub row_lease-free :
    (j k : Text) (f : Row → Row) (db : Db)
    → IsValid db
    → ((row : Row) → row_lease (some (f row)) ≡ none)
    → lease_of j (update_row k f db) ≡ (if text_eq j k then none else lease_of j db)
row_lease-free j k f db v free = elim (Option-cases (lookup j db.deliveries)) [
  | inl gone ↦ ground (arith, lookup-update_row j k f db v)
  | inr (row, e) ↦ ground (arith, lookup-update_row j k f db v, free row)
]

pub mark_IsValid_lem : (k : Text) (m : Mark) (db : Db) → IsValid db → IsValid (mark k m db)
unfolding mark_sent mark_dead schedule_retry append
mark_IsValid_lem k (to_sent a) db v =
    update_where-IsKeyed id_of (is_row k) _ db.deliveries (λ row. refl) v
mark_IsValid_lem k (to_dead a) db v =
    update_where-IsKeyed id_of (is_row k) _ db.deliveries (λ row. refl) v
mark_IsValid_lem k (to_retry at a) db v =
    update_where-IsKeyed id_of (is_row k) _ db.deliveries (λ row. refl) v

pub mark_frees_lem :
    (j k : Text) (m : Mark) (db : Db)
    → IsValid db
    → lease_of j (mark k m db) ≡ (if text_eq j k then none else lease_of j db)
unfolding mark_sent mark_dead schedule_retry append
mark_frees_lem j k (to_sent a) db v = row_lease-free j k _ (append k a db) v (λ row. refl)
mark_frees_lem j k (to_dead a) db v = row_lease-free j k _ (append k a db) v (λ row. refl)
mark_frees_lem j k (to_retry at a) db v = row_lease-free j k _ (append k a db) v (λ row. refl)

pub reclaim_keeps_lem :
    (now : DateTime) (db : Db) (k : Text) (e : ℕ)
    → IsValid db
    → lease_of k db ≡ some e
    → lease_of k (reclaim_stale now db).1 ≡ (if ltb e now then none else some e)
unfolding reclaim_stale
reclaim_keeps_lem now db k e v h = elim (Option-cases (lookup k db.deliveries)) [
  | inl gone ↦ absurd (ground arith)
  | inr (row, found) ↦ elim (Bool-cases (is_in_flight row.columns.status)) [
    | inl flying ↦
        ground (arith, lookup-update_where k (is_stale now) (set_free pending) db.deliveries)
    | inr landed ↦ absurd (ground arith)
  ]
]

pub log_keeps_lem :
    (j k : Text) (a : AttemptRecord) (db : Db)
    → IsValid db
    → lease_of j (append_attempt k a db) ≡ lease_of j db
unfolding append_attempt append
log_keeps_lem j k a db v = elim (Option-cases (lookup j db.deliveries)) [
  | inl gone ↦ ground (arith, lookup-update_row j k (set_attempts a.attempt) (append k a db) v)
  | inr (row, e) ↦ ground (arith, lookup-update_row j k (set_attempts a.attempt) (append k a db) v)
]
