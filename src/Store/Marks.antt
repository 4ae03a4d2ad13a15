-- ===== src/Store/Marks.antt =====
-- What `mark_sent`, `schedule_retry`, `mark_dead` and `append_attempt` write, and what the
-- enqueueing of a batch keeps.
use webhooks_engine.Prelude.{
  ◌+◌, ◌≡◌, refl, false, Option, none, some, ok, err, key_error, List, [], ◌∷◌, ◌++◌, Text, text_eq,
  text_eq→eq, text_eq_refl, lookup, lookup-insert, lookup-erase, arith, if◌then◌else◌, All,
  Option-cases, Result, Fault,
}
use webhooks_engine.Types.{
  DateTime, DeliveryRecord, AttemptRecord, sent, failed_retry, dead_lettered, is_in_flight,
}
use webhooks_engine.Store.Defs.{
  Store, settle, mark_sent, schedule_retry, mark_dead, append_attempt, enqueue, enqueue_many,
}
use webhooks_engine.Store.Invariant.{
  IsValid, settled, settle-known, settle-unknown, enqueue-IsValid,
}

-- What a transition of the record of `did` to `r'` leaves: the record is `r'`, the attempt is the
-- last of its list, the lease is gone, and every other id is untouched.
pub record Landed (did : Text) (r' : DeliveryRecord) (a : AttemptRecord) (s s' : Store)
    : Type 0 where
  pub own : lookup did s'.records ≡ some r'
  pub log :
      (as' : List AttemptRecord)
      → lookup did s.attempts ≡ some as'
      → lookup did s'.attempts ≡ some (as' ++ a ∷ [])
  pub unleased : lookup did s'.lease_expiry ≡ none
  pub others : (j : Text) → text_eq j did ≡ false → lookup j s'.records ≡ lookup j s.records
  pub other_logs : (j : Text) → text_eq j did ≡ false → lookup j s'.attempts ≡ lookup j s.attempts
  pub other_leases :
      (j : Text) → text_eq j did ≡ false → lookup j s'.lease_expiry ≡ lookup j s.lease_expiry

settled-Landed :
    (did : Text) (r' : DeliveryRecord) (a : AttemptRecord) (old : List AttemptRecord) (s : Store)
    → lookup did s.attempts ≡ some old
    → Landed did r' a s (settled did r' (old ++ a ∷ []) s)
settled-Landed did r' a old s e = record {
  own = ground (arith, lookup-insert did did r' s.records, text_eq_refl did);
  log =
      λ as' e'. ground (arith, lookup-insert did did (old ++ a ∷ []) s.attempts, text_eq_refl did);
  unleased = ground (arith, lookup-erase did did s.lease_expiry, text_eq_refl did);
  others = λ j ne. ground (arith, lookup-insert j did r' s.records);
  other_logs = λ j ne. ground (arith, lookup-insert j did (old ++ a ∷ []) s.attempts);
  other_leases = λ j ne. ground (arith, lookup-erase j did s.lease_expiry);
}

-- How a transition of the id ends: of a known record it goes through, of an unknown one it raises
-- `KeyError` and changes nothing.
abbrev pub Settles :
    Text
    → (DeliveryRecord → DeliveryRecord)
    → AttemptRecord
    → Store
    → Result Fault (Unit {0}) × Store
    → Type 0
Settles did f a s (res, s') =
    ((r : DeliveryRecord) → lookup did s.records ≡ some r → (res ≡ ok tt) × Landed did (f r) a s s')
    × (lookup did s.records ≡ none → (res ≡ err key_error) × (s' ≡ s))

settle-Settles :
    (did : Text) (f : DeliveryRecord → DeliveryRecord) (a : AttemptRecord) (s : Store)
    → IsValid s
    → Settles did f a s (settle did f a s)
settle-Settles did f a s v = (
  λ r e.
      let (old, e', done) = settle-known did f a s v e in
      rw done (refl, settled-Landed did (f r) a old s e'),
  λ e. rw (settle-unknown did f a s e) (refl, refl),
)

-- `mark_sent` makes the record SENT and changes nothing else of it.
pub mark_sent-Settles :
    (did : Text) (a : AttemptRecord) (s : Store)
    → IsValid s
    → Settles did (λ r. record r { status = sent }) a s (mark_sent did a s)
unfolding mark_sent
mark_sent-Settles did a s v = settle-Settles did _ a s v

-- In a valid store `schedule_retry` of a known id makes the record FAILED_RETRY, due at
-- `fire_at`, with one attempt more, logs the attempt last, drops the lease, and touches no other
-- id; of an unknown id it raises `KeyError` and changes nothing.
pub schedule_retry-Settles :
    (did : Text) (fire_at : DateTime) (a : AttemptRecord) (s : Store)
    → IsValid s
    → Settles did
        (λ r. record r { status = failed_retry; fire_at = fire_at; attempts = r.attempts + 1 })
        a
        s
        (schedule_retry did fire_at a s)
unfolding schedule_retry
schedule_retry-Settles did fire_at a s v = settle-Settles did _ a s v

-- In a valid store `mark_dead` of a known id makes the record DEAD_LETTERED and changes nothing
-- else of it, logs the attempt last, drops the lease, and touches no other id; of an unknown id
-- it raises `KeyError` and changes nothing.
pub mark_dead-Settles :
    (did : Text) (a : AttemptRecord) (s : Store)
    → IsValid s
    → Settles did (λ r. record r { status = dead_lettered }) a s (mark_dead did a s)
unfolding mark_dead
mark_dead-Settles did a s v = settle-Settles did _ a s v

pub records-append_attempt :
    (did : Text) (a : AttemptRecord) (s : Store)
    → ((append_attempt did a s).records ≡ s.records)
      × ((append_attempt did a s).lease_expiry ≡ s.lease_expiry)
unfolding append_attempt
records-append_attempt did a s = ground arith

-- The first record of that id in the list.
abbrev pub first_of : Text → List DeliveryRecord → Option DeliveryRecord
first_of k [] = none
first_of k (r ∷ rs) = if text_eq k r.delivery_id then some r else first_of k rs

abbrev pub or_else : Option DeliveryRecord → Option DeliveryRecord → Option DeliveryRecord
or_else none o = o
or_else (some r) o = some r

lookup-enqueue :
    (k : Text) (r : DeliveryRecord) (s : Store)
    → lookup k (enqueue r s).records ≡ or_else (lookup k s.records) (first_of k (r ∷ []))
unfolding enqueue
lookup-enqueue k r s = ground (
  arith,
  lookup-insert k r.delivery_id r s.records,
  text_eq→eq k r.delivery_id,
  Option-cases (lookup k s.records),
)

-- Enqueueing is idempotent by delivery id: a record that is there stays as it is, and of several
-- new ones of an id the first is kept.
pub lookup-enqueue_many :
    (k : Text) (rs : List DeliveryRecord) (s : Store)
    → lookup k (enqueue_many rs s).records ≡ or_else (lookup k s.records) (first_of k rs)
unfolding enqueue_many
lookup-enqueue_many k [] s = ground (arith, Option-cases (lookup k s.records))
lookup-enqueue_many k (r ∷ rs) s = ground (
  arith,
  lookup-enqueue_many k rs (enqueue r s),
  lookup-enqueue k r s,
  Option-cases (lookup k s.records),
)

pub enqueue_many-IsValid :
    (rs : List DeliveryRecord) (s : Store)
    → All (λ r. is_in_flight r.status ≡ false) rs
    → IsValid s
    → IsValid (enqueue_many rs s)
unfolding enqueue_many
enqueue_many-IsValid [] s h v = v
enqueue_many-IsValid (r ∷ rs) s h v =
    enqueue_many-IsValid rs (enqueue r s) h.1 (enqueue-IsValid r s h.0 v)
