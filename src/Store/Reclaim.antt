-- ===== src/Store/Reclaim.antt =====
-- `reclaim_stale` of the in-memory delivery store.
use webhooks_engine.Prelude.{
  ℕ, ◌+◌, ◌<◌, ◌≡◌, refl, ◌∙◌, Bool, true, false, Option, none, some, inl, inr, ok, List, [], ◌∷◌,
  Text, text_eq, text_eq→eq, text_eq_refl, lookup, contains, Dict, lookup-insert, lookup-erase,
  IsDistinct, values, length, filter, any, All, All-map, ltb, arith, if◌then◌else◌, Bool-cases,
  Option-cases,
}
use webhooks_engine.Types.{DateTime, DeliveryRecord, pending, seconds}
use webhooks_engine.Store.Defs.{Store, stale_ids, release_all, reclaim_stale, claim_batch}
use webhooks_engine.Store.Invariant.{IsValid, flying}
use webhooks_engine.Store.Leases.{released, release_all-known, release_all-IsValid}
use webhooks_engine.Store.Claim.{listed, claim_batch-leases, claim_batch-IsValid}

-- The ids whose lease has run out, in the order of the dict.
expired_ids : DateTime → Dict DateTime → List Text
expired_ids now [] = []
expired_ids now ((did, expiry) ∷ leases) =
    if ltb expiry now then did ∷ expired_ids now leases else expired_ids now leases

-- Every lease is of a record in flight.
abbrev Grounded : Dict DeliveryRecord → Dict DateTime → Type 0
Grounded records [] = Unit
Grounded records ((did, expiry) ∷ leases) =
    (flying (lookup did records) ≡ true) × Grounded records leases

Grounded-leases :
    (records : Dict DeliveryRecord) (leases : Dict DateTime)
    → ((k : Text) → contains k leases ≡ true → flying (lookup k records) ≡ true)
    → Grounded records leases
unfolding lookup
Grounded-leases records [] f = tt
Grounded-leases records ((did, expiry) ∷ leases) f = (
  f did (ground (arith, text_eq_refl did)),
  Grounded-leases records leases (λ k h. f k (ground arith)),
)

stale_ids-eq-expired_ids :
    (now : DateTime) (records : Dict DeliveryRecord) (leases : Dict DateTime)
    → Grounded records leases
    → stale_ids now records leases ≡ ok (expired_ids now leases)
unfolding stale_ids expired_ids
stale_ids-eq-expired_ids now records [] g = refl
stale_ids-eq-expired_ids now records ((did, expiry) ∷ leases) g =
    ground (arith, stale_ids-eq-expired_ids now records leases g.1)

length-expired_ids :
    (now : DateTime) (leases : Dict DateTime)
    → length (expired_ids now leases) ≡ length (filter (λ e. ltb e now) (values leases))
unfolding expired_ids
length-expired_ids now [] = refl
length-expired_ids now ((did, expiry) ∷ leases) = ground (arith, length-expired_ids now leases)

-- Whether a lease has run out.
abbrev pub has_expired : DateTime → Option DateTime → Bool
has_expired now none = false
has_expired now (some expiry) = ltb expiry now

abbrev holds : Text → List Text → Bool
holds k = any (text_eq k)

holds-expired_ids :
    (now : DateTime) (k : Text) (leases : Dict DateTime)
    → IsDistinct leases
    → holds k (expired_ids now leases) ≡ has_expired now (lookup k leases)
unfolding expired_ids lookup
holds-expired_ids now k [] h = refl
holds-expired_ids now k ((did, expiry) ∷ leases) h =
    ground (arith, holds-expired_ids now k leases h.1, text_eq→eq k did)

abbrev pub pending_option : Option DeliveryRecord → Option DeliveryRecord
pending_option none = none
pending_option (some r) = some (record r { status = pending })

abbrev AllKnown : Store → List Text → Type 0
AllKnown s = All (λ k. contains k s.records ≡ true)

AllKnown-released :
    (did : Text) (r : DeliveryRecord) (s : Store) (ids : List Text)
    → AllKnown s ids
    → AllKnown (released did r s) ids
AllKnown-released did r s ids h =
    All-map _ _ ids
      (λ k e. ground (arith, lookup-insert k did (record r { status = pending }) s.records)) h

-- What `release_all` does to known ids.
release_all-lookup :
    (j : Text) (ids : List Text) (s : Store)
    → AllKnown s ids
    → let (r, s') = release_all ids s in
      (r ≡ ok tt)
      × (lookup j s'.records
          ≡ (if holds j ids then pending_option (lookup j s.records) else lookup j s.records))
      × (lookup j s'.lease_expiry ≡ (if holds j ids then none else lookup j s.lease_expiry))
unfolding release_all
release_all-lookup j [] s h = (refl, refl, refl)
release_all-lookup j (did ∷ ids) s h = elim (Option-cases (lookup did s.records)) [
  | inl e ↦ absurd (ground arith)
  | inr (r, e) ↦ ground (
    arith,
    release_all-known did ids s e,
    release_all-lookup j ids (released did r s) (AllKnown-released did r s ids h.1),
    lookup-insert j did (record r { status = pending }) s.records,
    lookup-erase j did s.lease_expiry,
    text_eq→eq j did,
  )
]

valid-Grounded : (s : Store) → IsValid s → Grounded s.records s.lease_expiry
valid-Grounded s v = Grounded-leases s.records s.lease_expiry (λ k h. v.leased k ∙ h)

Grounded-known :
    (now : DateTime) (s : Store) (leases : Dict DateTime)
    → Grounded s.records leases
    → AllKnown s (expired_ids now leases)
unfolding expired_ids
Grounded-known now s [] g = tt
Grounded-known now s ((did, expiry) ∷ leases) g = elim (Bool-cases (ltb expiry now)) [
  | inl gone ↦ rw gone (ground (arith, g.0), Grounded-known now s leases g.1)
  | inr kept ↦ rw kept (Grounded-known now s leases g.1)
]

reclaim_stale-eq :
    (now : DateTime) (s : Store)
    → IsValid s
    → reclaim_stale now s ≡ (
      ok (length (filter (λ e. ltb e now) (values s.lease_expiry))),
      (release_all (expired_ids now s.lease_expiry) s).1,
    )
unfolding reclaim_stale
reclaim_stale-eq now s v = ground (
  arith,
  stale_ids-eq-expired_ids now s.records s.lease_expiry (valid-Grounded s v),
  length-expired_ids now s.lease_expiry,
  release_all-lookup [] (expired_ids now s.lease_expiry) s
      (Grounded-known now s s.lease_expiry (valid-Grounded s v)),
)

-- In a valid store `reclaim_stale` does not raise; it returns how many leases have run out.
-- Exactly the records whose lease has run out become pending and lose their lease; every other
-- record and lease is as it was.
pub reclaim_stale-expired :
    (now : DateTime) (s : Store) (j : Text)
    → IsValid s
    → let (r, s') = reclaim_stale now s in
      let gone = has_expired now (lookup j s.lease_expiry) in
      (r ≡ ok (length (filter (λ e. ltb e now) (values s.lease_expiry))))
      × (lookup j s'.records
          ≡ (if gone then pending_option (lookup j s.records) else lookup j s.records))
      × (lookup j s'.lease_expiry ≡ (if gone then none else lookup j s.lease_expiry))
reclaim_stale-expired now s j v = rw (reclaim_stale-eq now s v) (
    rw (← holds-expired_ids now j s.lease_expiry v.leases_distinct) (
      let h =
        release_all-lookup j (expired_ids now s.lease_expiry) s
          (Grounded-known now s s.lease_expiry (valid-Grounded s v)) in
      (refl, h.1, h.2)))

pub reclaim_stale-IsValid :
    (now : DateTime) (s : Store) → IsValid s → IsValid (reclaim_stale now s).1
reclaim_stale-IsValid now s v =
    rw (reclaim_stale-eq now s v) (release_all-IsValid (expired_ids now s.lease_expiry) s v)

-- A worker that dies with a batch from a valid store loses nothing: once the leases of a claim
-- have run out, a reclaim makes each record of the batch pending again and leaves it otherwise as
-- it was.
pub reclaim_stale-claim_batch :
    (now later : DateTime) (ttl batch_size : ℕ) (s : Store) (j : Text)
    → IsValid s
    → now + seconds ttl < later
    → let (batch, s') = claim_batch now ttl batch_size s in
      listed j batch ≡ true
      → lookup j (reclaim_stale later s').1.records ≡ pending_option (lookup j s.records)
reclaim_stale-claim_batch now later ttl batch_size s j v late h =
    let s' = (claim_batch now ttl batch_size s).1 in
    ground (
      arith,
      claim_batch-leases now ttl batch_size s j v,
      reclaim_stale-expired later s' j (claim_batch-IsValid now ttl batch_size s v),
      Option-cases (lookup j s.records),
    )
