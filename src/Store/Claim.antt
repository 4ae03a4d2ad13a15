-- ===== src/Store/Claim.antt =====
-- `claim_batch` of the in-memory delivery store: what it hands out, what it writes, and claims in
-- a row.
use webhooks_engine.Prelude.{
  ℕ, ◌+◌, ◌≤◌, ◌≡◌, Bool, true, false, ◌⊎◌, inl, inr, Option, none, some, List, [], ◌∷◌, Text,
  text_eq, text_eq→eq, lookup, lookup-insert, values, values-lookup, lookup-In, length, take,
  filter, any, All, All-map, All-filter, All-take, In, filter-In, take-drop-In, length-take, arith,
  if◌then◌else◌, refl, ap, Option-cases,
}
use webhooks_engine.Types.{
  DateTime, DeliveryRecord, in_flight, pending, failed_retry, is_ready, seconds,
}
use webhooks_engine.Store.Defs.{Store, claimable, ready, lease, lease_all, claim_batch}
use webhooks_engine.Store.Invariant.{IsValid}
use webhooks_engine.Store.Leases.{lease_all-IsValid}
use webhooks_engine.Store.Order.{
  IsSorted, All-sort_by_fire_at, sort_by_fire_at-IsSorted, In-sort_by_fire_at, take-IsSorted,
  drop-IsSorted,
}

-- The record once it is leased.
abbrev pub leased_record : DeliveryRecord → DeliveryRecord
leased_record r = record r { status = in_flight }

abbrev pub leased_option : Option DeliveryRecord → Option DeliveryRecord
leased_option none = none
leased_option (some r) = some (leased_record r)

-- Whether the batch holds a record of that id.
abbrev pub listed : Text → List DeliveryRecord → Bool
listed k = any (λ r. text_eq k r.delivery_id)

-- A record of the batch as the store has it, ready and due.
abbrev pub IsDue : DateTime → Store → DeliveryRecord → Type 0
IsDue now s r =
    (lookup r.delivery_id s.records ≡ some r) × (is_ready r.status ≡ true) × (r.fire_at ≤ now)

ready-IsDue : (now : DateTime) (s : Store) → IsValid s → All (IsDue now s) (ready now s)
unfolding ready claimable
ready-IsDue now s v = All-sort_by_fire_at (IsDue now s) _ (
    All-map _ _ _ (λ r h. ground arith)
      (All-filter _ (claimable now) (values s.records)
        (values-lookup (λ r. r.delivery_id) s.records v.distinct v.keyed)))

-- From a valid store, a claim hands out at most `batch_size` records, in the order in which they
-- fire; each is the store's own record of its id, pending or waiting for a retry, and due.
pub claim_batch-IsDue :
    (now : DateTime) (ttl batch_size : ℕ) (s : Store)
    → IsValid s
    → let batch = (claim_batch now ttl batch_size s).0 in
      (length batch ≤ batch_size) × IsSorted batch × All (IsDue now s) batch
unfolding claim_batch
claim_batch-IsDue now ttl batch_size s v = (
  omega (arith, length-take batch_size (ready now s)),
  unfold ready in
      take-IsSorted batch_size (ready now s)
        (sort_by_fire_at-IsSorted (filter (claimable now) (values s.records))),
  All-take _ batch_size (ready now s) (ready-IsDue now s v),
)

due-claimable :
    (now : DateTime) (r : DeliveryRecord)
    → (r.status ≡ pending) ⊎ (r.status ≡ failed_retry)
    → r.fire_at ≤ now
    → claimable now r ≡ true
unfolding claimable
due-claimable now r (inl e) due = ground arith
due-claimable now r (inr e) due = ground arith

-- A stored record that is PENDING or FAILED_RETRY and whose `fire_at` is not after `now` is not
-- passed over: it is in the batch, or the batch is full of records that fire no later.
pub claim_batch-fair :
    (now : DateTime) (ttl batch_size : ℕ) (s : Store) (k : Text) (r : DeliveryRecord)
    → lookup k s.records ≡ some r
    → (r.status ≡ pending) ⊎ (r.status ≡ failed_retry)
    → r.fire_at ≤ now
    → let batch = (claim_batch now ttl batch_size s).0 in
      In r batch ⊎ ((length batch ≡ batch_size) × All (λ x. x.fire_at ≤ r.fire_at) batch)
unfolding claim_batch ready
claim_batch-fair now ttl batch_size s k r e open_ due =
    let found =
      In-sort_by_fire_at r _
        (filter-In (claimable now) r _ (lookup-In k s.records e) (due-claimable now r open_ due)) in
    elim (take-drop-In batch_size r _ found) [
      | inl taken ↦ inl taken
      | inr left ↦ inr (
          drop-IsSorted batch_size r _
            (sort_by_fire_at-IsSorted (filter (claimable now) (values s.records))) left)
    ]

lookup-lease :
    (j : Text) (expiry : DateTime) (r : DeliveryRecord) (s : Store)
    → lookup j (lease expiry r s).records
      ≡ (if text_eq j r.delivery_id then some (leased_record r) else lookup j s.records)
unfolding lease
lookup-lease j expiry r s = lookup-insert j r.delivery_id (leased_record r) s.records

lease_expiry-lease :
    (j : Text) (expiry : DateTime) (r : DeliveryRecord) (s : Store)
    → lookup j (lease expiry r s).lease_expiry
      ≡ (if text_eq j r.delivery_id then some expiry else lookup j s.lease_expiry)
unfolding lease
lease_expiry-lease j expiry r s = lookup-insert j r.delivery_id expiry s.lease_expiry

-- The store's record of that id is `r`, but for its status.
abbrev Agrees : Store → DeliveryRecord → Type 0
Agrees s r = leased_option (lookup r.delivery_id s.records) ≡ some (leased_record r)

Agrees-lease :
    (expiry : DateTime) (x r : DeliveryRecord) (s : Store)
    → Agrees s x
    → Agrees s r
    → Agrees (lease expiry x s) r
Agrees-lease expiry x r s hx hr =
    ground (arith, lookup-lease r.delivery_id expiry x s, text_eq→eq r.delivery_id x.delivery_id)

lookup-lease_all :
    (j : Text) (expiry : DateTime) (rs : List DeliveryRecord) (s : Store)
    → All (Agrees s) rs
    → lookup j (lease_all expiry rs s).records
      ≡ (if listed j rs then leased_option (lookup j s.records) else lookup j s.records)
unfolding lease_all
lookup-lease_all j expiry [] s h = refl
lookup-lease_all j expiry (r ∷ rs) s h = ground (
  arith,
  lookup-lease_all j expiry rs (lease expiry r s)
      (All-map _ _ rs (λ x. Agrees-lease expiry r x s h.0) h.1),
  lookup-lease j expiry r s,
  text_eq→eq j r.delivery_id,
)

lease_expiry-lease_all :
    (j : Text) (expiry : DateTime) (rs : List DeliveryRecord) (s : Store)
    → lookup j (lease_all expiry rs s).lease_expiry
      ≡ (if listed j rs then some expiry else lookup j s.lease_expiry)
unfolding lease_all
lease_expiry-lease_all j expiry [] s = refl
lease_expiry-lease_all j expiry (r ∷ rs) s =
    ground (
      arith,
      lease_expiry-lease_all j expiry rs (lease expiry r s),
      lease_expiry-lease j expiry r s,
    )

-- What a claim from a valid store writes: the records of the batch are in flight and leased until
-- `now + lease_ttl_s`; every other record and lease is as it was.
pub claim_batch-leases :
    (now : DateTime) (ttl batch_size : ℕ) (s : Store) (j : Text)
    → IsValid s
    → let (batch, s') = claim_batch now ttl batch_size s in
      (lookup j s'.records
        ≡ (if listed j batch then leased_option (lookup j s.records) else lookup j s.records))
      × (lookup j s'.lease_expiry
          ≡ (if listed j batch then some (now + seconds ttl) else lookup j s.lease_expiry))
unfolding claim_batch
claim_batch-leases now ttl batch_size s j v = (
  lookup-lease_all j (now + seconds ttl) (take batch_size (ready now s)) s (
      All-map _ _ _ (λ r h. ap leased_option h.0)
        (All-take _ batch_size (ready now s) (ready-IsDue now s v))),
  lease_expiry-lease_all j (now + seconds ttl) (take batch_size (ready now s)) s,
)

pub claim_batch-IsValid :
    (now : DateTime) (ttl batch_size : ℕ) (s : Store)
    → IsValid s
    → IsValid (claim_batch now ttl batch_size s).1
unfolding claim_batch
claim_batch-IsValid now ttl batch_size s v =
    lease_all-IsValid (now + seconds ttl) (take batch_size (ready now s)) s
      (All-map _ _ _ (λ r h. ground arith)
        (All-take _ batch_size (ready now s) (ready-IsDue now s v)))
      v

-- From a valid store, two claims in a row never share a record, at whatever times they are made:
-- no id of the second batch is in the first.
pub claim_batch-exclusive :
    (now now' : DateTime) (ttl ttl' batch_size batch_size' : ℕ) (s : Store)
    → IsValid s
    → let (batch, s') = claim_batch now ttl batch_size s in
      All (λ r. listed r.delivery_id batch ≡ false) (claim_batch now' ttl' batch_size' s').0
claim_batch-exclusive now now' ttl ttl' batch_size batch_size' s v =
    let s' = (claim_batch now ttl batch_size s).1 in
    All-map _ _ _
      (λ r h. ground (
        arith,
        (claim_batch-leases now ttl batch_size s r.delivery_id v).0,
        Option-cases (lookup r.delivery_id s.records),
      ))
      (claim_batch-IsDue now' ttl' batch_size' s' (claim_batch-IsValid now ttl batch_size s v)).2
