-- ===== src/Examples/Tables.antt =====
-- The in-memory store and the Postgres store shared by workers, and a purge.
use webhooks_engine.Prelude.Unique.{IsUnique}
use webhooks_engine.Prelude.{
  if◌then◌else◌, contains, length, List, ◌≤◌, ◌<◌, ◌≡◌, ◌⊎◌, ◌↔◌, refl, Bool, true, false, none,
  some, [], ◌∷◌, ◌++◌, codes, text_eq, lookup, insert, length, arith, ok, err, value_error, Text,
}
use webhooks_engine.Prelude.Tables.{update_where, delete_where, order_by, insert_by}
use webhooks_engine.Types.{sent}
use webhooks_engine.Contract.Queue.{to_sent, has}
use webhooks_engine.Contract.Runs.{stop, next, reclaims, marks, claims}
use webhooks_engine.Store.Defs
use webhooks_engine.Store.Claim.{listed}
use webhooks_engine.Store.Queue.{memory-exclusive}
use webhooks_engine.Postgres.Defs.{
  Row, Db, insert_all, enqueue_many, claimable, selected, claim_batch, reclaim_stale, mark_sent,
  append,
}
use webhooks_engine.Postgres.Names.{
  is_safe, words_to_end, validate_table_name, validate_table_name-accepts, IsIdentifier, ends,
}
use webhooks_engine.Postgres.Rows.{IsKeyed}
use webhooks_engine.Postgres.Claim.{ids_of, claim_batch-skips}
use webhooks_engine.Postgres.Leases.{mark_IsValid_lem}
use webhooks_engine.Postgres.Queue.{pg-exclusive, enqueue_IsValid_lem}
use webhooks_engine.Postgres.Purge.{purge_sent, purge_ids, purgeable, delete_ids}
use webhooks_engine.Postgres.Retention.{
  attempts_of, IsPurgeable, purge_sent-keeps, purge_sent-exhausts,
}
use webhooks_engine.Examples.Setup.{first, inward, lost, store, attempt}
use webhooks_engine.Examples.Deliveries.{store-IsValid, store-claimed}

-- Another worker reclaims too early and marks another delivery.
memory-exclusive_example :
    let s' = (Defs.claim_batch 5 30 2 store).1 in
    let t = (Defs.mark_sent (codes "c") attempt (Defs.reclaim_stale 6 s').1).1 in
    listed (codes "b") (Defs.claim_batch 7 30 2 t).0 ≡ false
unfolding text_eq
memory-exclusive_example =
    memory-exclusive 5 7 30 30 2 2 (codes "b") store _ store-IsValid store-claimed
      (next (next stop (reclaims 6 refl)) (marks (codes "c") (to_sent attempt) refl))

abbrev empty : Db
empty = record { deliveries = []; attempts = [] }

abbrev db : Db
db = enqueue_many (first ∷ inward ∷ lost ∷ []) empty

db-IsKeyed : IsKeyed db.deliveries
unfolding lookup
db-IsKeyed =
    enqueue_IsValid_lem (first ∷ inward ∷ lost ∷ []) empty
      (record { distinct = tt; keyed = λ k row h. absurd (ground arith) })

abbrev unlocked : Text → Bool
unlocked k = false

db-claimed : has (codes "b") (ids_of (claim_batch unlocked 5 30 2 db).0) ≡ true
unfolding claim_batch selected claimable order_by insert_by update_where enqueue_many insert_all
    lookup insert text_eq
db-claimed = refl

-- A reclaim too early, and another claim, which sees `a` locked.
pg-exclusive_example :
    let db1 = (claim_batch unlocked 5 30 2 db).1 in
    let db2 = (reclaim_stale 6 db1).1 in
    let db3 = (claim_batch (text_eq (codes "a")) 7 30 2 db2).1 in
    has (codes "b") (ids_of (claim_batch unlocked 8 30 2 db3).0) ≡ false
pg-exclusive_example =
    pg-exclusive unlocked unlocked 5 8 30 30 2 2 (codes "b") db _ db-IsKeyed db-claimed
      (next (next stop (reclaims 6 refl)) (claims (text_eq (codes "a")) 7 30 2))

claim_batch-skips_example :
    let (rs, db') = claim_batch (text_eq (codes "a")) 5 30 3 db in
    (has (codes "a") (ids_of rs) ≡ false)
    × (lookup (codes "a") db'.deliveries ≡ lookup (codes "a") db.deliveries)
unfolding text_eq
claim_batch-skips_example =
    claim_batch-skips (text_eq (codes "a")) 5 30 3 db (codes "a") db-IsKeyed refl

-- `c` was sent at 9; nothing newer than 100 is kept.
abbrev settled : Db
settled = mark_sent (codes "c") attempt db

settled-IsKeyed : IsKeyed settled.deliveries
settled-IsKeyed = mark_IsValid_lem (codes "c") (to_sent attempt) db db-IsKeyed

-- It is purged with its attempt, and the others stay.
purge_sent-test :
    let (n, db') = purge_sent unlocked (λ a b. true) (codes "wh") 100 9 (codes "wh_a") settled in
    (n ≡ ok 1)
    × (lookup (codes "c") db'.deliveries ≡ none)
    × (db'.attempts ≡ [])
    × (length db'.deliveries ≡ 2)
unfolding purge_sent purge_ids purgeable delete_ids is_safe words_to_end order_by insert_by
    delete_where update_where mark_sent append enqueue_many insert_all lookup insert text_eq
purge_sent-test = (refl, refl, refl, refl)

abbrev sent_row : Row
sent_row = record {
  columns = record lost { attempts = 1; status = sent };
  lease_expiry = none;
  failure_notified_at = none;
}

settled-lookup : lookup (codes "c") settled.deliveries ≡ some sent_row
unfolding update_where mark_sent append enqueue_many insert_all lookup insert text_eq
settled-lookup = refl

purge_sent-keeps_example :
    let db' = (purge_sent unlocked (λ a b. true) (codes "wh") 100 9 (codes "wh_a") settled).1 in
    ((lookup (codes "c") db'.deliveries ≡ some sent_row)
      × (attempts_of (codes "c") db'.attempts ≡ attempts_of (codes "c") settled.attempts))
    ⊎ ((lookup (codes "c") db'.deliveries ≡ none)
        × (attempts_of (codes "c") db'.attempts ≡ [])
        × IsPurgeable unlocked 100 settled (codes "c") sent_row)
purge_sent-keeps_example =
    purge_sent-keeps unlocked (λ a b. true) (codes "wh") 100 9 (codes "wh_a") settled (codes "c")
      sent_row settled-IsKeyed settled-lookup

names-safe : (is_safe (codes "wh") ≡ true) × (is_safe (codes "wh_a") ≡ true)
unfolding is_safe words_to_end
names-safe = (refl, refl)

purge_sent-exhausts_example :
    let (r, db') = purge_sent unlocked (λ a b. true) (codes "wh") 100 9 (codes "wh_a") settled in
    (ids : List Text) × (r ≡ ok (length ids))
    × (length ids ≤ 9)
    × IsUnique ids
    × ((k : Text) → has k ids ≡ true → contains k settled.deliveries ≡ true)
    × ((k : Text)
        → lookup k db'.deliveries ≡ (if has k ids then none else lookup k settled.deliveries))
    × (length ids < 9
        → (k : Text) (row : Row) → lookup k db'.deliveries ≡ some row
        → ¬ IsPurgeable unlocked 100 settled k row)
purge_sent-exhausts_example =
    purge_sent-exhausts unlocked (λ a b. true) (codes "wh") 100 9 (codes "wh_a") settled
      settled-IsKeyed (omega arith) names-safe.0 names-safe.1

-- The newline at the end passes, a semicolon does not.
validate_table_name-test :
    (validate_table_name (codes "wh" ++ 10 ∷ []) ≡ ok (codes "wh" ++ 10 ∷ []))
    × (validate_table_name (codes "wh;") ≡ err value_error)
unfolding validate_table_name is_safe words_to_end
validate_table_name-test = (refl, refl)

validate_table_name-accepts_example :
    let s = codes "wh" ++ 10 ∷ [] in
    ((validate_table_name s ≡ ok s)
      ↔ ((nl : Bool) × (name : Text) × IsIdentifier name × (s ≡ name ++ ends nl)))
    × ((validate_table_name s ≡ ok s) ⊎ (validate_table_name s ≡ err value_error))
validate_table_name-accepts_example = validate_table_name-accepts (codes "wh" ++ 10 ∷ [])
