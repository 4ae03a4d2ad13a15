-- ===== src/Store/Leases.antt =====
-- Leases of the in-memory delivery store: taking them in `claim_batch`, giving them back in
-- `reclaim_stale`.
use webhooks_engine.Prelude.{
  ◌≡◌, true, some, none, List, [], ◌∷◌, Text, text_eq→eq, Dict, lookup, contains, insert, erase,
  inl, inr, ok, err, key_error, lookup-insert, lookup-erase, insert-IsDistinct, erase-IsDistinct,
  All, arith, Option-cases,
}
use webhooks_engine.Types.{DateTime, DeliveryRecord, in_flight, pending}
use webhooks_engine.Store.Defs.{Store, lease, lease_all, release, release_all}
use webhooks_engine.Store.Invariant.{IsValid}

pub lease-IsValid :
    (expiry : DateTime) (r : DeliveryRecord) (s : Store)
    → contains r.delivery_id s.records ≡ true
    → IsValid s
    → IsValid (lease expiry r s)
unfolding lease
lease-IsValid expiry r s known v =
    let r' : DeliveryRecord = record r { status = in_flight } in
    record {
      distinct = insert-IsDistinct r.delivery_id r' s.records v.distinct;
      leases_distinct = insert-IsDistinct r.delivery_id expiry s.lease_expiry v.leases_distinct;
      keyed = λ k x h. ground (
        arith,
        v.keyed k x,
        lookup-insert k r.delivery_id r' s.records,
        text_eq→eq k r.delivery_id,
      );
      logged = λ k h. ground (
        arith,
        v.logged k,
        v.logged r.delivery_id,
        lookup-insert k r.delivery_id r' s.records,
        text_eq→eq k r.delivery_id,
      );
      leased = λ k. ground (
        arith,
        v.leased k,
        lookup-insert k r.delivery_id r' s.records,
        lookup-insert k r.delivery_id expiry s.lease_expiry,
      );
    }

contains-lease :
    (k : Text) (expiry : DateTime) (r : DeliveryRecord) (s : Store)
    → contains k s.records ≡ true
    → contains k (lease expiry r s).records ≡ true
unfolding lease
contains-lease k expiry r s h =
    ground (arith, lookup-insert k r.delivery_id (record r { status = in_flight }) s.records)

-- Every record of the list stands in the dict.
abbrev pub Known : Dict DeliveryRecord → List DeliveryRecord → Type 0
Known records = All (λ r. contains r.delivery_id records ≡ true)

Known-lease :
    (expiry : DateTime) (r : DeliveryRecord) (s : Store) (rs : List DeliveryRecord)
    → Known s.records rs
    → Known (lease expiry r s).records rs
Known-lease expiry r s [] h = tt
Known-lease expiry r s (x ∷ rs) h =
    (contains-lease x.delivery_id expiry r s h.0, Known-lease expiry r s rs h.1)

pub lease_all-IsValid :
    (expiry : DateTime) (rs : List DeliveryRecord) (s : Store)
    → Known s.records rs
    → IsValid s
    → IsValid (lease_all expiry rs s)
unfolding lease_all
lease_all-IsValid expiry [] s h v = v
lease_all-IsValid expiry (r ∷ rs) s h v =
    lease_all-IsValid expiry rs (lease expiry r s) (Known-lease expiry r s rs h.1)
      (lease-IsValid expiry r s h.0 v)

-- The store after `release` of the known record `r`.
abbrev pub released : Text → DeliveryRecord → Store → Store
released did r s = record s {
  records = insert did (record r { status = pending }) s.records;
  lease_expiry = erase did s.lease_expiry;
}

pub release-known :
    (did : Text) (s : Store) {r : DeliveryRecord}
    → lookup did s.records ≡ some r
    → release did s ≡ (ok tt, released did r s)
unfolding release
release-known did s e = ground arith

pub release-unknown :
    (did : Text) (s : Store) → lookup did s.records ≡ none → release did s ≡ (err key_error, s)
unfolding release
release-unknown did s e = ground arith

pub released-IsValid :
    (did : Text) (r : DeliveryRecord) (s : Store)
    → lookup did s.records ≡ some r
    → IsValid s
    → IsValid (released did r s)
released-IsValid did r s e v =
    let r' : DeliveryRecord = record r { status = pending } in
    record {
      distinct = insert-IsDistinct did r' s.records v.distinct;
      leases_distinct = erase-IsDistinct did s.lease_expiry v.leases_distinct;
      keyed = λ k x h.
          ground
            (arith, v.keyed k x, v.keyed did r, lookup-insert k did r' s.records, text_eq→eq k did);
      logged =
          λ k h. ground (arith, v.logged k, lookup-insert k did r' s.records, text_eq→eq k did);
      leased = λ k.
          ground (
            arith,
            v.leased k,
            lookup-insert k did r' s.records,
            lookup-erase k did s.lease_expiry,
          );
    }

pub release_all-known :
    (did : Text) (ids : List Text) (s : Store) {r : DeliveryRecord}
    → lookup did s.records ≡ some r
    → release_all (did ∷ ids) s ≡ release_all ids (released did r s)
unfolding release_all
release_all-known did ids s e = ground (arith, release-known did s e)

pub release_all-unknown :
    (did : Text) (ids : List Text) (s : Store)
    → lookup did s.records ≡ none
    → release_all (did ∷ ids) s ≡ (err key_error, s)
unfolding release_all
release_all-unknown did ids s e = ground (arith, release-unknown did s e)

pub release_all-IsValid : (ids : List Text) (s : Store) → IsValid s → IsValid (release_all ids s).1
unfolding release_all
release_all-IsValid [] s v = v
release_all-IsValid (did ∷ ids) s v = elim (Option-cases (lookup did s.records)) [
  | inl e ↦ rw (release_all-unknown did ids s e) v
  | inr (r, e) ↦
      rw (release_all-known did ids s e)
        (release_all-IsValid ids (released did r s) (released-IsValid did r s e v))
]
