-- ===== src/Redis/Methods.antt =====
-- The methods of `RedisWebhookDeliveryStore` of stores/redis.py beside `enqueue_many`.
use webhooks_engine.Prelude.{
  ℕ, ◌+◌, ◌*◌, not, Option, none, some, List, [], ◌∷◌, map, Text, Dict, lookup, insert, erase,
  codes, filter, take, ◌==◌, is_empty, if◌then◌else◌, Result, ok, err, Fault, value_error,
}
use webhooks_engine.Prelude.Strings.{decimal}
use webhooks_engine.Types.{
  DateTime, DeliveryRecord, AttemptRecord, DeliveryStatus, in_flight, sent, failed_retry,
  dead_lettered,
}
use webhooks_engine.Redis.Hash.{
  to_ms, Hash, status_value, or_empty, field_text, hash_to_record, AttemptJson, attempt_to_json,
}
use webhooks_engine.Redis.Defs.{Summary, Redis, Client, claim_script, reclaim_script, hash_at, hset}

-- The records of the ids: an id without a hash is passed over, and a hash that does not read
-- raises.
unfoldable pub read_rows : Client → List Text → Dict Hash → Option (List DeliveryRecord)
unfolding hash_to_record lookup
read_rows client [] rows = some []
read_rows client (did ∷ ids) rows = elim (lookup did rows) [
  | none ↦ read_rows client ids rows
  | some h ↦ elim (hash_to_record client.codec h) [
    | none ↦ none
    | some r ↦ elim (read_rows client ids rows) [ none ↦ none | some rs ↦ some (r ∷ rs) ]
  ]
]

unfoldable pub set_in_flight : List DeliveryRecord → Redis → Redis
unfolding hset
set_in_flight [] s = s
set_in_flight (r ∷ rs) s =
    set_in_flight rs (hset r.delivery_id ((codes "status", status_value in_flight) ∷ []) s)

-- `claim_batch`: when a hash does not read, the script has run already.
unfoldable pub claim_batch :
    Client → DateTime → ℕ → ℕ → Redis → Result Fault (List DeliveryRecord) × Redis
unfolding claim_script read_rows set_in_flight
claim_batch client now lease_ttl_s batch_size s =
    let now_ms = to_ms client.codec now in
    let (ids, s') = claim_script now_ms (now_ms + lease_ttl_s * 1000) batch_size s in
    elim (read_rows client ids s'.deliveries) [
      | none ↦ (err value_error, s')
      | some rs ↦
          let records = map (λ (r : DeliveryRecord). record r { status = in_flight }) rs in
          (ok records, set_in_flight records s')
    ]

unfoldable pub reclaim_stale : Client → DateTime → Redis → ℕ × Redis
unfolding reclaim_script
reclaim_stale client now s = reclaim_script (to_ms client.codec now) s

-- `LTRIM key 0 (limit - 1)`, which keeps all for the end -1
abbrev pub ltrim : ℕ → List AttemptJson → List AttemptJson
ltrim limit entries = if limit == 0 then entries else take limit entries

abbrev pub or_nil {ℓ} : {A : Type ℓ} → Option (List A) → List A
or_nil none = []
or_nil (some xs) = xs

abbrev pub summary_of : Client → Text → AttemptRecord → Summary
summary_of client did a = record {
  delivery_id = did;
  attempt = a.attempt;
  http_code = a.http_code;
  duration_ms = a.duration_ms;
  error = or_empty a.error;
  attempted_at_ms = to_ms client.codec a.attempted_at;
}

unfoldable pub append_attempt : Client → Text → AttemptRecord → Redis → Redis
unfolding lookup insert
append_attempt client did a s =
    let entries =
      ltrim client.cfg.attempts_history_limit
        (attempt_to_json client.codec a ∷ or_nil (lookup did s.attempts)) in
    let s' = record s { attempts = insert did entries s.attempts } in
    let sid = field_text (hash_at did s.deliveries) (codes "subscription_id") in
    if is_empty sid then s' else record s' {
      recent =
          insert sid
            (client.trim client.cfg.recent_stream_maxlen
              (summary_of client did a ∷ or_nil (lookup sid s.recent)))
            s.recent;
    }

-- The pipelines of the three transitions.
abbrev pub zrem_both : Text → Redis → Redis
zrem_both did s = record s { inflight = erase did s.inflight; ready = erase did s.ready }

-- EXPIRE is recorded; the key stays, also at 0 seconds, at which Redis deletes it.
abbrev pub expire : Text → ℕ → Redis → Redis
expire did seconds s = record s {
  deliveries_ttl = insert did seconds s.deliveries_ttl;
  attempts_ttl = insert did seconds s.attempts_ttl;
}

abbrev pub status_fields : DeliveryStatus → AttemptRecord → Hash
status_fields status a =
    (codes "status", status_value status) ∷ (codes "attempts", decimal a.attempt) ∷ []

abbrev pub retry_fields : ℕ → AttemptRecord → Hash
retry_fields fire_at_ms a =
    (codes "status", status_value failed_retry)
    ∷ (codes "attempts", decimal a.attempt)
    ∷ (codes "fire_at_ms", decimal fire_at_ms)
    ∷ []

unfoldable pub mark_sent : Client → Text → AttemptRecord → Redis → Redis
unfolding append_attempt hset insert erase
mark_sent client did a s =
    expire did client.cfg.retention_sent_s
      (hset did (status_fields sent a) (zrem_both did (append_attempt client did a s)))

unfoldable pub schedule_retry : Client → Text → DateTime → AttemptRecord → Redis → Redis
unfolding append_attempt hset insert erase
schedule_retry client did fire_at a s =
    let s' = append_attempt client did a s in
    let fire_at_ms = to_ms client.codec fire_at in
    hset did (retry_fields fire_at_ms a)
      (record s' { inflight = erase did s'.inflight; ready = insert did fire_at_ms s'.ready })

unfoldable pub mark_dead : Client → Text → AttemptRecord → Redis → Redis
unfolding append_attempt hset insert erase
mark_dead client did a s =
    expire did client.cfg.retention_dead_s
      (hset did (status_fields dead_lettered a) (zrem_both did (append_attempt client did a s)))

-- `get`, which raises when the hash does not read
unfoldable pub get : Client → Text → Redis → Result Fault (Option DeliveryRecord)
unfolding lookup hash_to_record
get client did s = elim (lookup did s.deliveries) [
  | none ↦ ok none
  | some h ↦ elim (hash_to_record client.codec h) [ none ↦ err value_error | some r ↦ ok (some r) ]
]

-- `recent_for_subscription`: the deliveries of the newest entries, one for each entry.
unfoldable pub recent_for_subscription :
    Client → Text → ℕ → Redis → Result Fault (List DeliveryRecord)
unfolding lookup read_rows
recent_for_subscription client sub_id limit s =
    let entries = take limit (or_nil (lookup sub_id s.recent)) in
    let ids = filter (λ did. not (is_empty did)) (map (λ (e : Summary). e.delivery_id) entries) in
    elim (read_rows client ids s.deliveries) [ none ↦ err value_error | some rs ↦ ok rs ]
