-- ===== src/Examples/Caches.antt =====
-- The Redis store on three records.
use webhooks_engine.Prelude.{
  ◌≤◌, ◌+◌, ◌≡◌, refl, ap, true, false, none, some, [], ◌∷◌, codes, text_eq, lookup, insert, erase,
  take, length, arith, ok, if◌then◌else◌,
}
use webhooks_engine.Prelude.Tables.{order_by, insert_by}
use webhooks_engine.Prelude.Strings.{decimal}
use webhooks_engine.Types.{DateTime, sent, failed_retry, dead_lettered}
use webhooks_engine.Contract.Queue.{to_sent, has}
use webhooks_engine.Contract.Runs.{stop, next, reclaims, marks}
use webhooks_engine.Redis.Hash.{
  to_ms, from_ms, Codec, Hash, hash_of, record_to_hash, hash_to_record,
}
use webhooks_engine.Redis.RoundTrip.{IsRepresentable, hash_to_record-record_to_hash}
use webhooks_engine.Redis.Defs.{
  Redis, Client, zrangebyscore, text_leb, move_all, claim_script, enqueue, pipeline, enqueue_many,
  hset, hset_all,
}
use webhooks_engine.Redis.Methods.{
  claim_batch, reclaim_stale, read_rows, set_in_flight, mark_sent, mark_dead, schedule_retry, get,
}
use webhooks_engine.Redis.Sets.{IsValid}
use webhooks_engine.Redis.Leases.{moved, lease_of, claim_IsValid_lem}
use webhooks_engine.Redis.Queue.{redis-exclusive, enqueue_IsValid_lem}
use webhooks_engine.Redis.Marks.{mark-get}
use webhooks_engine.Redis.Faults.{enqueue_many-revives, mark_sent-ghost, ghost}
use webhooks_engine.Examples.Setup.{first, inward, lost, attempt}

-- Bytes are their own text, and a time loses its microseconds.
abbrev codec : Codec
codec = record { decode = λ b. some b; encode = λ t. t; falls_short = λ t. false }

abbrev client : Client
client = record {
  cfg = record {
    retention_sent_s = 604800;
    retention_dead_s = 2592000;
    attempts_history_limit = 20;
    recent_stream_maxlen = 50;
    idempotency_ttl_s = 86400;
  };
  codec = codec;
  trim = λ n entries. take n entries;
}

abbrev empty : Redis
empty = record {
  ready = [];
  inflight = [];
  deliveries = [];
  attempts = [];
  recent = [];
  idem = [];
  deliveries_ttl = [];
  attempts_ttl = [];
  idem_ttl = [];
}

abbrev redis : Redis
redis = (enqueue_many client (first ∷ inward ∷ lost ∷ []) empty).1

empty-IsValid : IsValid empty
unfolding to_ms from_ms lookup
empty-IsValid = record { ready_distinct = tt; inflight_distinct = tt; disjoint = λ k e h. refl }

redis-IsValid : IsValid redis
unfolding to_ms from_ms lookup
redis-IsValid =
    (enqueue_IsValid_lem client (first ∷ inward ∷ lost ∷ []) empty (refl, (refl, (refl, tt)))
      empty-IsValid).0

redis-moved : has (codes "b") (moved client 5000 2 redis) ≡ true
unfolding to_ms from_ms zrangebyscore order_by insert_by text_leb enqueue_many pipeline
    record_to_hash hash_of enqueue hset hset_all lookup insert text_eq
redis-moved = refl

redis-exclusive_example :
    let s' = (claim_batch client 5000 30 2 redis).1 in
    let t = mark_sent client (codes "c") attempt (reclaim_stale client 6000 s').1 in
    has (codes "b") (moved client 8000 2 t) ≡ false
unfolding to_ms from_ms text_eq
redis-exclusive_example =
    redis-exclusive client 5000 8000 30 30 2 2 (codes "b") redis _ redis-IsValid redis-moved
      (next (next stop (reclaims 6000 refl)) (marks (codes "c") (to_sent attempt) refl))

first-IsRepresentable : IsRepresentable codec (codes "{}") (record first { fire_at = 3000 })
unfolding to_ms from_ms
first-IsRepresentable = record {
  decoded = refl;
  encoded = refl;
  emitted = refl;
  fires = refl;
  created = refl;
  profile = refl;
  tenant = λ h. ground arith;
  origin = λ h. ground arith;
  version = λ h. ground arith;
}

hash_to_record-record_to_hash_example :
    let r = record first { fire_at = 3000 } in
    (h : Hash) × (record_to_hash codec r ≡ some h) × (hash_to_record codec h ≡ some r)
hash_to_record-record_to_hash_example =
    hash_to_record-record_to_hash codec (codes "{}") (record first { fire_at = 3000 })
      first-IsRepresentable

-- What `get` reads: the time at which it fires has lost its microseconds.
redis-get : get client (codes "a") redis ≡ ok (some (record first { fire_at = 0 }))
unfolding to_ms from_ms get hash_to_record enqueue_many pipeline record_to_hash hash_of enqueue hset
    hset_all lookup insert text_eq decimal
redis-get = refl

mark-get_example :
    let r = record first { fire_at = 0 } in
    (due : DateTime) × ((due ≤ 7000) × (7000 ≤ due + 1000))
    × (get client (codes "b") (mark_sent client (codes "a") attempt redis) ≡ (
        if text_eq (codes "b") (codes "a")
        then ok (some (record r { status = sent; attempts = 1 }))
        else get client (codes "b") redis))
    × (get client (codes "b") (mark_dead client (codes "a") attempt redis) ≡ (
        if text_eq (codes "b") (codes "a")
        then ok (some (record r { status = dead_lettered; attempts = 1 }))
        else get client (codes "b") redis))
    × (get client (codes "b") (schedule_retry client (codes "a") 7000 attempt redis) ≡ (
        if text_eq (codes "b") (codes "a")
        then ok (some (record r { status = failed_retry; attempts = 1; fire_at = due }))
        else get client (codes "b") redis))
mark-get_example =
    mark-get client (codes "b") (codes "a") 7000 attempt redis (record first { fire_at = 0 })
      redis-get

abbrev claimed : Redis
claimed = (claim_batch client 5000 30 2 redis).1

claimed-lease : lease_of (codes "a") claimed ≡ some 30005
unfolding to_ms from_ms claim_batch claim_script move_all zrangebyscore read_rows set_in_flight
    hash_to_record order_by insert_by text_leb enqueue_many pipeline record_to_hash hash_of enqueue
    hset hset_all lookup insert erase text_eq decimal
claimed-lease = refl

claimed-ready :
    zrangebyscore 5 (enqueue_many client (first ∷ []) claimed).1.ready ≡ codes "a" ∷ codes "c" ∷ []
unfolding to_ms from_ms claim_batch claim_script move_all zrangebyscore read_rows set_in_flight
    hash_to_record order_by insert_by text_leb enqueue_many pipeline record_to_hash hash_of enqueue
    hset hset_all lookup insert erase text_eq decimal
claimed-ready = refl

enqueue_many-revives_example :
    let s' = (enqueue_many client (first ∷ []) claimed).1 in
    (lease_of (codes "a") s' ≡ some 30005) × (has (codes "a") (moved client 5000 3 s') ≡ true)
unfolding to_ms from_ms record_to_hash
enqueue_many-revives_example =
    enqueue_many-revives client first (hash_of codec (codes "{}") first) claimed 30005 3 5000
      (claim_IsValid_lem client 5000 30 2 redis redis-IsValid) claimed-lease refl (omega arith)
      (omega (arith, ap length claimed-ready))

redis-unknown : get client (codes "x") redis ≡ ok none
unfolding to_ms from_ms get hash_to_record enqueue_many pipeline record_to_hash hash_of enqueue hset
    hset_all lookup insert text_eq
redis-unknown = refl

mark_sent-ghost_example :
    get client (codes "x") (mark_sent client (codes "x") attempt redis)
    ≡ ok (some (ghost codec sent 1))
mark_sent-ghost_example = mark_sent-ghost client (codes "x") attempt redis redis-unknown
