-- ===== src/Redis/Defs.antt =====
-- `RedisWebhookDeliveryStore` of stores/redis.py with its two Lua scripts. Redis is read by its
-- documented commands and does not fail; a script and each command is one step, and here the
-- commands of one method run without others between. The keys of the store never collide.
use webhooks_engine.Prelude.{
  ℕ, Bool, true, false, Option, none, some, List, [], ◌∷◌, ◌++◌, map, Text, Dict, lookup, contains,
  insert, erase, codes, filter, take, length, leb, ltb, ◌==◌, if◌then◌else◌, Result, ok, err, Fault,
  other_error,
}
use webhooks_engine.Prelude.Tables.{order_by}
use webhooks_engine.Types.{DeliveryRecord}
use webhooks_engine.Redis.Hash.{to_ms, Codec, Hash, record_to_hash, AttemptJson}

-- `WebhookStorageConfig`, less the prefix of the keys
pub record StorageConfig : Type 0 where
  pub retention_sent_s : ℕ
  pub retention_dead_s : ℕ
  pub attempts_history_limit : ℕ
  pub recent_stream_maxlen : ℕ
  pub idempotency_ttl_s : ℕ

-- The summary that `append_attempt` adds to the stream of a subscription.
pub record Summary : Type 0 where
  pub delivery_id : Text
  pub attempt : ℕ
  pub http_code : Option ℕ
  pub duration_ms : ℕ
  pub error : Text
  pub attempted_at_ms : ℕ

-- The keys: two sorted sets from member to score, the hashes, the lists of attempts, the streams
-- with the newest entry first, the idempotency keys, and the seconds to live that a key was
-- given.
pub record Redis : Type 0 where
  pub ready : Dict ℕ
  pub inflight : Dict ℕ
  pub deliveries : Dict Hash
  pub attempts : Dict (List AttemptJson)
  pub recent : Dict (List Summary)
  pub idem : Dict Text
  pub deliveries_ttl : Dict ℕ
  pub attempts_ttl : Dict ℕ
  pub idem_ttl : Dict ℕ

-- What the store is made with: its configuration, the codec, and how XADD trims a stream "about"
-- to a length.
pub record Client : Type 0 where
  pub cfg : StorageConfig
  pub codec : Codec
  pub trim : ℕ → List Summary → List Summary

-- A member with its score. Members of one score are ordered as byte strings, which is the order of
-- their code points.
abbrev pub Entry : Type 0
Entry = Text × ℕ

unfoldable pub text_leb : Text → Text → Bool
text_leb [] t = true
text_leb (x ∷ s) [] = false
text_leb (x ∷ s) (y ∷ t) = let rest = text_leb s t in if x == y then rest else ltb x y

abbrev pub entry_leb : Entry → Entry → Bool
entry_leb (k, s) (j, t) = if s == t then text_leb k j else ltb s t

abbrev pub member : Entry → Text
member e = e.0

abbrev pub is_up_to : ℕ → Entry → Bool
is_up_to score e = leb e.1 score

-- `ZRANGEBYSCORE key 0 score`; no score is negative.
unfoldable pub zrangebyscore : ℕ → Dict ℕ → List Text
unfolding order_by text_leb
zrangebyscore score z = map member (order_by entry_leb (filter (is_up_to score) z))

-- The loops of the scripts: each id leaves the first set and enters the second with the score.
unfoldable pub move_all : List Text → ℕ → Dict ℕ × Dict ℕ → Dict ℕ × Dict ℕ
unfolding insert erase
move_all [] score sets = sets
move_all (id ∷ ids) score (source, target) =
    move_all ids score (erase id source, insert id score target)

-- `CLAIM_BATCH_LUA`: the ids, and the two sets.
unfoldable pub claim_script : ℕ → ℕ → ℕ → Redis → List Text × Redis
unfolding zrangebyscore move_all
claim_script now_ms lease_expires_ms batch_size s =
    let ids = take batch_size (zrangebyscore now_ms s.ready) in
    let (ready, inflight) = move_all ids lease_expires_ms (s.ready, s.inflight) in
    (ids, record s { ready = ready; inflight = inflight })

-- `RECLAIM_LUA`
unfoldable pub reclaim_script : ℕ → Redis → ℕ × Redis
unfolding zrangebyscore move_all
reclaim_script now_ms s =
    let stale = zrangebyscore now_ms s.inflight in
    let (inflight, ready) = move_all stale now_ms (s.inflight, s.ready) in
    (length stale, record s { ready = ready; inflight = inflight })

-- `HSET key mapping`
unfoldable pub hset_all : Hash → Hash → Hash
unfolding insert
hset_all [] h = h
hset_all ((k, v) ∷ mapping) h = hset_all mapping (insert k v h)

abbrev pub hash_at : Text → Dict Hash → Hash
hash_at did d = elim (lookup did d) [ none ↦ [] | some h ↦ h ]

unfoldable pub hset : Text → Hash → Redis → Redis
unfolding hset_all insert lookup
hset did mapping s = record s {
  deliveries = insert did (hset_all mapping (hash_at did s.deliveries)) s.deliveries;
}

-- `_idem_key`, less the prefix
abbrev pub idem_key : Text → Text → Text
idem_key event_id sub_id = event_id ++ codes ":" ++ sub_id

-- `SET key value NX EX ttl`
abbrev pub set_idem : ℕ → DeliveryRecord → Redis → Redis
set_idem ttl r s =
    let key = idem_key r.event_id r.subscription_id in
    if contains key s.idem
    then s
    else record s { idem = insert key r.delivery_id s.idem; idem_ttl = insert key ttl s.idem_ttl }

-- What the pipeline of `enqueue_many` does for one record.
unfoldable pub enqueue : Client → DeliveryRecord → Hash → Redis → Redis
unfolding hset insert lookup
enqueue client r h s =
    let s' = hset r.delivery_id h (set_idem client.cfg.idempotency_ttl_s r s) in
    record s' { ready = insert r.delivery_id (to_ms client.codec r.fire_at) s'.ready }

-- Building the pipeline: a record whose hash cannot be made raises, and nothing is sent.
unfoldable pub pipeline : Client → List DeliveryRecord → Redis → Option Redis
unfolding record_to_hash enqueue
pipeline client [] s = some s
pipeline client (r ∷ rs) s = elim (record_to_hash client.codec r) [
  | none ↦ none
  | some h ↦ pipeline client rs (enqueue client r h s)
]

unfoldable pub enqueue_many : Client → List DeliveryRecord → Redis → Result Fault (Unit {0}) × Redis
unfolding pipeline
enqueue_many client rs s = elim (pipeline client rs s) [
  | none ↦ (err (other_error (codes "UnicodeDecodeError")), s)
  | some s' ↦ (ok tt, s')
]
