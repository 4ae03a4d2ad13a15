-- ===== src/Store/Invariant.antt =====
-- The well-formedness of the in-memory delivery store, and the methods under it.
use webhooks_engine.Prelude.{
  ◌≡◌, refl, Bool, true, false, Option, none, some, List, [], ◌∷◌, Text, text_eq→eq, lookup,
  lookup-nil, contains, insert, lookup-insert, lookup-erase, erase, inl, inr, ok, err, key_error,
  ◌++◌, ◌∙◌, Option-cases, IsDistinct, insert-IsDistinct, erase-IsDistinct, arith,
}
use webhooks_engine.Types.{DateTime, DeliveryRecord, AttemptRecord, is_in_flight}
use webhooks_engine.Store.Defs.{
  Store, new, enqueue, mark_sent, schedule_retry, mark_dead, append_attempt, settle,
}

abbrev pub flying : Option DeliveryRecord → Bool
flying none = false
flying (some r) = is_in_flight r.status

-- Each record stands under its own id and has a list of attempts, and exactly the records in
-- flight hold a lease.
pub record IsValid (s : Store) : Type 0 where
  pub distinct : IsDistinct s.records
  pub leases_distinct : IsDistinct s.lease_expiry
  pub keyed : (k : Text) (r : DeliveryRecord) → lookup k s.records ≡ some r → r.delivery_id ≡ k
  pub logged : (k : Text) → contains k s.records ≡ true → contains k s.attempts ≡ true
  pub leased : (k : Text) → flying (lookup k s.records) ≡ contains k s.lease_expiry

pub new-IsValid : IsValid new
unfolding new
new-IsValid = record {
  distinct = tt;
  leases_distinct = tt;
  keyed = λ k r h. ground (arith, lookup-nil {V = DeliveryRecord} k);
  logged = λ k h. ground (arith, lookup-nil {V = DeliveryRecord} k);
  leased = λ k. ground (arith, lookup-nil {V = DeliveryRecord} k, lookup-nil {V = DateTime} k);
}

pub enqueue-IsValid :
    (r : DeliveryRecord) (s : Store)
    → is_in_flight r.status ≡ false
    → IsValid s
    → IsValid (enqueue r s)
unfolding enqueue
enqueue-IsValid r s fresh v = record {
  distinct = ground (arith, v.distinct, insert-IsDistinct r.delivery_id r s.records);
  leases_distinct = ground (arith, v.leases_distinct);
  keyed = λ k x h.
      ground
        (arith, v.keyed k x, lookup-insert k r.delivery_id r s.records, text_eq→eq k r.delivery_id);
  logged = λ k h. ground (
    arith,
    v.logged k,
    lookup-insert k r.delivery_id r s.records,
    lookup-insert k r.delivery_id [] s.attempts,
  );
  leased = λ k.
      ground
        (arith, v.leased k, lookup-insert k r.delivery_id r s.records, text_eq→eq k r.delivery_id);
}

-- The store after `settle` of a known record, which becomes `r`.
abbrev pub settled : Text → DeliveryRecord → List AttemptRecord → Store → Store
settled did r log s = record {
  records = insert did r s.records;
  attempts = insert did log s.attempts;
  lease_expiry = erase did s.lease_expiry;
}

settled-IsValid :
    (did : Text) (r : DeliveryRecord) (log : List AttemptRecord) (s : Store)
    → r.delivery_id ≡ did
    → is_in_flight r.status ≡ false
    → IsValid s
    → IsValid (settled did r log s)
settled-IsValid did r log s own landed v = record {
  distinct = insert-IsDistinct did r s.records v.distinct;
  leases_distinct = erase-IsDistinct did s.lease_expiry v.leases_distinct;
  keyed = λ k x h. ground (arith, v.keyed k x, lookup-insert k did r s.records, text_eq→eq k did);
  logged = λ k h.
      ground
        (arith, v.logged k, lookup-insert k did r s.records, lookup-insert k did log s.attempts);
  leased = λ k. ground (
    arith,
    v.leased k,
    lookup-insert k did r s.records,
    lookup-erase k did s.lease_expiry,
    text_eq→eq k did,
  );
}

-- In a valid store `settle` of a known id goes through, and changes that id alone.
pub settle-known :
    (did : Text) (f : DeliveryRecord → DeliveryRecord) (a : AttemptRecord) (s : Store)
    {r : DeliveryRecord}
    → IsValid s
    → lookup did s.records ≡ some r
    → (log : List AttemptRecord) × (lookup did s.attempts ≡ some log)
      × (settle did f a s ≡ (ok tt, settled did (f r) (log ++ a ∷ []) s))
settle-known did f a s {r} v e = elim (Option-cases (lookup did s.attempts)) [
  | inl gone ↦ absurd (ground (arith, v.logged did))
  | inr (log, e') ↦ (log, e', ground arith)
]

pub settle-unknown :
    (did : Text) (f : DeliveryRecord → DeliveryRecord) (a : AttemptRecord) (s : Store)
    → lookup did s.records ≡ none
    → settle did f a s ≡ (err key_error, s)
settle-unknown did f a s e = ground arith

settle-IsValid :
    (did : Text) (f : DeliveryRecord → DeliveryRecord) (a : AttemptRecord) (s : Store)
    → ((r : DeliveryRecord) → (f r).delivery_id ≡ r.delivery_id)
    → ((r : DeliveryRecord) → is_in_flight (f r).status ≡ false)
    → IsValid s
    → IsValid (settle did f a s).1
settle-IsValid did f a s own landed v = elim (Option-cases (lookup did s.records)) [
  | inl e ↦ rw (settle-unknown did f a s e) v
  | inr (r, e) ↦
      let (log, e', done) = settle-known did f a s v e in
      rw done (settled-IsValid did (f r) (log ++ a ∷ []) s (own r ∙ v.keyed did r e) (landed r) v)
]

pub mark_sent-IsValid :
    (did : Text) (a : AttemptRecord) (s : Store) → IsValid s → IsValid (mark_sent did a s).1
unfolding mark_sent
mark_sent-IsValid did a s v = settle-IsValid did _ a s (λ r. refl) (λ r. refl) v

pub schedule_retry-IsValid :
    (did : Text) (fire_at : DateTime) (a : AttemptRecord) (s : Store)
    → IsValid s
    → IsValid (schedule_retry did fire_at a s).1
unfolding schedule_retry
schedule_retry-IsValid did fire_at a s v = settle-IsValid did _ a s (λ r. refl) (λ r. refl) v

pub mark_dead-IsValid :
    (did : Text) (a : AttemptRecord) (s : Store) → IsValid s → IsValid (mark_dead did a s).1
unfolding mark_dead
mark_dead-IsValid did a s v = settle-IsValid did _ a s (λ r. refl) (λ r. refl) v

pub append_attempt-IsValid :
    (did : Text) (a : AttemptRecord) (s : Store) → IsValid s → IsValid (append_attempt did a s)
unfolding append_attempt
append_attempt-IsValid did a s v = record {
  distinct = ground (arith, v.distinct);
  leases_distinct = ground (arith, v.leases_distinct);
  keyed = λ k x h. ground (arith, v.keyed k x);
  logged = λ k h. grind (arith, v.logged k, lookup-insert);
  leased = λ k. ground (arith, v.leased k);
}
