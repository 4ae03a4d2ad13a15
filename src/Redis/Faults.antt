-- ===== src/Redis/Faults.antt =====
-- Calls of the Redis store that the callers of the in-memory store could not make: a record that is
-- enqueued again, and a transition of an id that the store does not know.
use webhooks_engine.Prelude.{
  ℕ, ◌≡◌, ◌≤◌, zero, suc, subst, IsDistinct, insert-IsDistinct, refl, sym, ◌∙◌, ap, true, none,
  some, List, [], ◌∷◌, Text, text_eq, text_eq_refl, Dict, lookup, insert, lookup-insert, codes,
  take, length, arith, Option-cases, inl, inr, ok,
}
use webhooks_engine.Types.{
  DateTime, DeliveryRecord, AttemptRecord, DeliveryStatus, sent, default_profile,
}
use webhooks_engine.Contract.Queue.{has}
use webhooks_engine.Redis.Hash.{
  to_ms, from_ms, Codec, Hash, record_to_hash, hash_to_record, field_int, status_of,
}
use webhooks_engine.Redis.RoundTrip.{field_int-decimal}
use webhooks_engine.Redis.Defs.{
  Redis, Client, zrangebyscore, enqueue, pipeline, enqueue_many, hash_at, hset_all, hset,
}
use webhooks_engine.Redis.Methods.{status_fields, mark_sent, get}
use webhooks_engine.Redis.Marks.{read, get-read, append_attempt-deliveries}
use webhooks_engine.Redis.Scripts.{due, has-zrangebyscore}
use webhooks_engine.Redis.Sets.{IsValid, enqueue-sets}
use webhooks_engine.Redis.Leases.{lease_of, moved}

take-length : (n : ℕ) (ids : List Text) → length ids ≤ n → take n ids ≡ ids
take-length zero [] h = refl
take-length (suc n) [] h = refl
take-length zero (j ∷ ids) h = absurd (omega arith)
take-length (suc n) (j ∷ ids) h = ap (λ (t : List Text). j ∷ t) (take-length n ids (omega arith))

enqueue_one :
    (client : Client) (r : DeliveryRecord) (h : Hash) (s : Redis)
    → record_to_hash client.codec r ≡ some h
    → (enqueue_many client (r ∷ []) s).1 ≡ enqueue client r h s
unfolding enqueue_many pipeline
enqueue_one client r h s e = rw (e, pipeline, enqueue_many) refl

-- A record that is enqueued again while it is leased keeps its lease and is handed out all the
-- same, by every claim from its due time on that is large enough for all that is due.
pub enqueue_many-revives :
    (client : Client) (r : DeliveryRecord) (h : Hash) (s : Redis) (e n : ℕ) (now : DateTime)
    → IsValid s
    → lease_of r.delivery_id s ≡ some e
    → record_to_hash client.codec r ≡ some h
    → to_ms client.codec r.fire_at ≤ to_ms client.codec now
    → length (zrangebyscore (to_ms client.codec now) (enqueue_many client (r ∷ []) s).1.ready) ≤ n
    → let s' = (enqueue_many client (r ∷ []) s).1 in
      (lease_of r.delivery_id s' ≡ some e) × (has r.delivery_id (moved client now n s') ≡ true)
enqueue_many-revives client r h s e n now v leased written past large =
    let s' = (enqueue_many client (r ∷ []) s).1 in
    let now_ms = to_ms client.codec now in
    let fire_at_ms = to_ms client.codec r.fire_at in
    let one = enqueue_one client r h s written in
    let (flying, ready) = enqueue-sets client r h s in
    let ready' : s'.ready ≡ insert r.delivery_id fire_at_ms s.ready =
      ap (λ (t : Redis). t.ready) one ∙ ready in
    let distinct =
      subst IsDistinct (sym ready')
        (insert-IsDistinct r.delivery_id fire_at_ms s.ready v.ready_distinct) in
    (
      ap (λ (t : Redis). lookup r.delivery_id t.inflight) one
          ∙ ap (lookup r.delivery_id) flying
          ∙ leased,
      ap (has r.delivery_id) (take-length n (zrangebyscore now_ms s'.ready) large)
          ∙ has-zrangebyscore r.delivery_id now_ms s'.ready distinct
          ∙ ap (λ (z : Dict ℕ). due now_ms (lookup r.delivery_id z)) ready'
          ∙ ground (
            arith,
            lookup-insert r.delivery_id r.delivery_id fire_at_ms s.ready,
            text_eq_refl r.delivery_id,
          ),
    )

-- The record that is read from a hash which has a status and a count of attempts alone.
abbrev pub ghost : Codec → DeliveryStatus → ℕ → DeliveryRecord
ghost codec st n = record {
  delivery_id = [];
  subscription_id = [];
  owner_id = [];
  event_name = [];
  event_id = [];
  schema_version = [];
  tenant_id = none;
  data_json = codec.encode [];
  emitted_at = from_ms 0;
  target_url = [];
  resolved_ip = [];
  redelivery_of = none;
  attempts = n;
  fire_at = from_ms 0;
  created_at = from_ms 0;
  status = st;
  profile = default_profile;
  secret_version = none;
}

ghost_read :
    (codec : Codec) (a : AttemptRecord)
    → hash_to_record codec (hset_all (status_fields sent a) []) ≡ some (ghost codec sent a.attempt)
unfolding hash_to_record hset_all insert lookup text_eq status_of
ghost_read codec a =
    rw (field_int-decimal (hset_all (status_fields sent a) []) (codes "attempts") a.attempt refl)
      (unfold field_int in refl)

-- A transition to sent of an id that the store does not have is no error: it makes a delivery,
-- which reads as a record without an id.
pub mark_sent-ghost :
    (client : Client) (k : Text) (a : AttemptRecord) (s : Redis)
    → get client k s ≡ ok none
    → get client k (mark_sent client k a s) ≡ ok (some (ghost client.codec sent a.attempt))
unfolding mark_sent hset
mark_sent-ghost client k a s e = elim (Option-cases (lookup k s.deliveries)) [
  | inr (h, here) ↦
      absurd (ground (arith, get-read client k s, Option-cases (hash_to_record client.codec h)))
  | inl gone ↦
      let log = append_attempt-deliveries client k a s in
      let made : lookup k (mark_sent client k a s).deliveries
          ≡ some (hset_all (status_fields sent a) []) =
        rw log (
          rw (gone, hash_at)
            (lookup-insert k k (hset_all (status_fields sent a) []) s.deliveries
              ∙ (rw (text_eq_refl k) refl))) in
      get-read client k (mark_sent client k a s)
      ∙ ap (read client.codec) made
      ∙ (rw (ghost_read client.codec a, read) refl)
]
