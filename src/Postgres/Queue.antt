-- ===== src/Postgres/Queue.antt =====
-- The Postgres delivery store as a `LeaseQueue`.
use webhooks_engine.Prelude.{
  ℕ, ◌+◌, ◌≡◌, refl, sym, ◌∙◌, Bool, true, false, none, some, List, [], ◌∷◌, Text, lookup, ltb,
  arith, if◌then◌else◌, Option-cases, Bool-cases, inl, inr, is_empty,
}
use webhooks_engine.Types.{
  DateTime, DeliveryRecord, AttemptRecord, DeliveryStatus, sent, failed_retry, dead_lettered,
  pending, in_flight, cancelled, is_in_flight, is_ready, seconds,
}
use webhooks_engine.Contract.Queue.{LeaseQueue, has}
use webhooks_engine.Contract.Runs.{Run, Run-lease, claimed_free}
use webhooks_engine.Postgres.Defs.{
  id_of, Db, enqueue_many, claimable, selected, is_any, leased_row, claim_batch, is_row, append,
  append_attempt, set_free, set_attempts, reclaim_stale, is_stale,
}
use webhooks_engine.Postgres.Leases.{
  row_lease, lease_of, IsValid, mark, mark_IsValid_lem, mark_frees_lem, reclaim_keeps_lem,
  log_keeps_lem,
}
use webhooks_engine.Postgres.Claim.{ids_of, has-claim_batch}
use webhooks_engine.Prelude.Keyed.{update_where-IsKeyed}
use webhooks_engine.Postgres.Rows.{
  insert_all-IsKeyed, first_row, lookup-insert_all, selected-claimable, lookup-claim_batch,
}

is_ready_landed : (st : DeliveryStatus) → is_ready st ≡ true → is_in_flight st ≡ false
is_ready_landed in_flight e = absurd (ground arith)
is_ready_landed pending e = refl
is_ready_landed failed_retry e = refl
is_ready_landed sent e = absurd (ground arith)
is_ready_landed dead_lettered e = absurd (ground arith)
is_ready_landed cancelled e = absurd (ground arith)

-- `claim_batch`, with the ids that its SELECT gives.
abbrev pub claim : (Text → Bool) → DateTime → ℕ → ℕ → Db → List Text × Db
claim locked now ttl n db =
    (selected locked now n db.deliveries, (claim_batch locked now ttl n db).1)

pub claim_free_lem :
    (locked : Text → Bool) (now : DateTime) (ttl n : ℕ) (db : Db) (k : Text)
    → IsValid db
    → has k (claim locked now ttl n db).0 ≡ true
    → lease_of k db ≡ none
unfolding claimable
claim_free_lem locked now ttl n db k v h =
    let (row, found, ok) = selected-claimable locked now n db.deliveries k v h in
    ground (arith, is_ready_landed row.columns.status)

pub claim_takes_lem :
    (locked : Text → Bool) (now : DateTime) (ttl n : ℕ) (db : Db) (k : Text)
    → IsValid db
    → let (ids, db') = claim locked now ttl n db in
      lease_of k db' ≡ (if has k ids then some (now + seconds ttl) else lease_of k db)
claim_takes_lem locked now ttl n db k v =
    let ids = selected locked now n db.deliveries in
    elim (Bool-cases (has k ids)) [
      | inl taken ↦
          let (row, found, ok) = selected-claimable locked now n db.deliveries k v taken in
          ground (arith, lookup-claim_batch locked now ttl n db k v)
      | inr other ↦ ground (arith, lookup-claim_batch locked now ttl n db k v)
    ]

pub claim_IsValid_lem :
    (locked : Text → Bool) (now : DateTime) (ttl n : ℕ) (db : Db)
    → IsValid db
    → IsValid (claim_batch locked now ttl n db).1
unfolding claim_batch
claim_IsValid_lem locked now ttl n db v =
    let ids = selected locked now n db.deliveries in
    elim (Bool-cases (is_empty ids)) [
      | inl none_due ↦ rw none_due v
      | inr due ↦ rw due (
          update_where-IsKeyed id_of (is_any ids) (leased_row (now + seconds ttl)) db.deliveries
            (λ row. refl) v)
    ]

pub reclaim_IsValid_lem : (now : DateTime) (db : Db) → IsValid db → IsValid (reclaim_stale now db).1
unfolding reclaim_stale
reclaim_IsValid_lem now db v =
    update_where-IsKeyed id_of (is_stale now) (set_free pending) db.deliveries (λ row. refl) v

pub log_IsValid_lem :
    (k : Text) (a : AttemptRecord) (db : Db) → IsValid db → IsValid (append_attempt k a db)
unfolding append_attempt append
log_IsValid_lem k a db v =
    update_where-IsKeyed id_of (is_row k) (set_attempts a.attempt) db.deliveries (λ row. refl) v

pub enqueue_IsValid_lem :
    (rs : List DeliveryRecord) (db : Db) → IsValid db → IsValid (enqueue_many rs db)
unfolding enqueue_many
enqueue_IsValid_lem [] db v = v
enqueue_IsValid_lem (r ∷ rs) db v = insert_all-IsKeyed (r ∷ rs) db.deliveries v

first_row-free : (k : Text) (rs : List DeliveryRecord) → row_lease (first_row k rs) ≡ none
first_row-free k [] = refl
first_row-free k (r ∷ rs) = ground (arith, first_row-free k rs)

-- Whatever is enqueued, leased or not: a row that is there is left as it is.
pub enqueue_keeps_lem :
    (j : Text) (rs : List DeliveryRecord) (db : Db)
    → lease_of j (enqueue_many rs db) ≡ lease_of j db
unfolding enqueue_many
enqueue_keeps_lem j [] db = refl
enqueue_keeps_lem j (r ∷ rs) db = ground (
  arith,
  lookup-insert_all j (r ∷ rs) db.deliveries,
  first_row-free j (r ∷ rs),
  Option-cases (lookup j db.deliveries),
)

-- The Postgres store keeps the contract; a claim sees the rows that other transactions hold.
abbrev pub pg_queue : LeaseQueue Db
pg_queue = record {
  Locks = Text → Bool;
  IsValid = IsValid;
  lease = lease_of;
  until = λ now ttl. now + seconds ttl;
  is_over = λ e now. ltb e now;
  claim = claim;
  reclaim = λ now db. (reclaim_stale now db).1;
  mark = mark;
  log = append_attempt;
  Admits = λ r db. Unit;
  enqueue = enqueue_many;
  claim_IsValid = claim_IsValid_lem;
  reclaim_IsValid = reclaim_IsValid_lem;
  mark_IsValid = mark_IsValid_lem;
  log_IsValid = log_IsValid_lem;
  enqueue_IsValid = λ rs db fresh. enqueue_IsValid_lem rs db;
  claim_free = claim_free_lem;
  claim_takes = claim_takes_lem;
  reclaim_keeps = reclaim_keeps_lem;
  mark_frees = mark_frees_lem;
  log_keeps = log_keeps_lem;
  enqueue_keeps = λ j rs db fresh v. enqueue_keeps_lem j rs db;
}

-- From a keyed table of the Postgres store: once a claim has returned the row of `k`, no claim
-- returns it again, after any sequence of transactions of any workers in which `k` is not marked
-- and no reclaim finds the lease over, whatever is enqueued. Each claim may see other rows
-- locked.
pub pg-exclusive :
    (locked locked' : Text → Bool) (now now' : DateTime) (ttl ttl' n n' : ℕ) (k : Text)
    (db db' : Db)
    → IsValid db
    → has k (ids_of (claim_batch locked now ttl n db).0) ≡ true
    → Run pg_queue k (now + seconds ttl) (claim_batch locked now ttl n db).1 db'
    → has k (ids_of (claim_batch locked' now' ttl' n' db').0) ≡ false
pg-exclusive locked locked' now now' ttl ttl' n n' k db db' v taken r =
    let (v', h) =
      Run-lease pg_queue locked now ttl n k db db' v
        (sym (has-claim_batch locked now ttl n db k v) ∙ taken) r in
    has-claim_batch locked' now' ttl' n' db' k v'
    ∙ claimed_free pg_queue locked' now' ttl' n' k db' v' h
