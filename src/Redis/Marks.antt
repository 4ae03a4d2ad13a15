-- ===== src/Redis/Marks.antt =====
-- What `get` reads after a transition of a delivery.
use webhooks_engine.Prelude.{
  ◌+◌, ◌≤◌, ◌≡◌, refl, sym, ◌∙◌, ap, Option, none, some, Text, text_eq, lookup, insert,
  lookup-insert, codes, is_empty, arith, if◌then◌else◌, Bool-cases, Option-cases, inl, inr, Result,
  ok, err, Fault, value_error,
}
use webhooks_engine.Types.{
  DateTime, DeliveryRecord, AttemptRecord, sent, failed_retry, dead_lettered,
}
use webhooks_engine.Redis.Hash.{to_ms, from_ms, Codec, Hash, field_text, hash_to_record}
use webhooks_engine.Redis.Defs.{Redis, Client, hash_at, hset_all, hset}
use webhooks_engine.Redis.Methods.{
  append_attempt, status_fields, retry_fields, mark_sent, schedule_retry, mark_dead, get,
}
use webhooks_engine.Redis.Fields.{restated, rescheduled}

pub append_attempt-deliveries :
    (client : Client) (k : Text) (a : AttemptRecord) (s : Redis)
    → (append_attempt client k a s).deliveries ≡ s.deliveries
unfolding append_attempt
append_attempt-deliveries client k a s =
    ground
      (arith, Bool-cases (is_empty (field_text (hash_at k s.deliveries) (codes "subscription_id"))))

-- What `get` reads, by the hash of the id.
abbrev pub read : Codec → Option Hash → Result Fault (Option DeliveryRecord)
read codec none = ok none
read codec (some h) = elim (hash_to_record codec h) [
  | none ↦ err value_error
  | some r ↦ ok (some r)
]

pub get-read :
    (client : Client) (k : Text) (s : Redis)
    → get client k s ≡ read client.codec (lookup k s.deliveries)
unfolding get
get-read client k s = elim (Option-cases (lookup k s.deliveries)) [
  | inl gone ↦ rw (gone, get) refl
  | inr (h, e) ↦ rw (e, get) refl
]

found :
    (client : Client) (k : Text) (s : Redis) (r : DeliveryRecord)
    → get client k s ≡ ok (some r)
    → (h : Hash) × (lookup k s.deliveries ≡ some h) × (hash_to_record client.codec h ≡ some r)
found client k s r e = elim (Option-cases (lookup k s.deliveries)) [
  | inl gone ↦ absurd (ground (arith, get-read client k s))
  | inr (h, here) ↦
      (h, here, ground (arith, get-read client k s, Option-cases (hash_to_record client.codec h)))
]

hset-get :
    (client : Client) (j k : Text) (s s' t : Redis) (h mapping : Hash) (r : DeliveryRecord)
    → lookup k s.deliveries ≡ some h
    → s'.deliveries ≡ s.deliveries
    → t.deliveries ≡ insert k (hset_all mapping (hash_at k s'.deliveries)) s'.deliveries
    → hash_to_record client.codec (hset_all mapping h) ≡ some r
    → get client j t ≡ (if text_eq j k then ok (some r) else get client j s)
hset-get client j k s s' t h mapping r here log set reads =
    let after : lookup j t.deliveries
        ≡ (if text_eq j k then some (hset_all mapping h) else lookup j s.deliveries) =
      rw (set, log) (rw (here, hash_at) (lookup-insert j k (hset_all mapping h) s.deliveries)) in
    get-read client j t ∙ ap (read client.codec) after ∙ elim (Bool-cases (text_eq j k)) [
      | inl same ↦ rw same (rw (reads, read) refl)
      | inr other ↦ rw other (sym (get-read client j s))
    ]

-- A time that goes to milliseconds and back loses at most one.
near_ms :
    (codec : Codec) (at : DateTime)
    → (from_ms (to_ms codec at) ≤ at) × (at ≤ from_ms (to_ms codec at) + 1000)
unfolding to_ms from_ms
near_ms codec at = ground (arith, Bool-cases (codec.falls_short at))

-- A record that `get` reads has, after each transition, the status of the transition, the count
-- of its attempt, after a retry also its due time, brought down by at most a millisecond, and
-- nothing else changed. No other id reads differently.
pub mark-get :
    (client : Client) (j k : Text) (at : DateTime) (a : AttemptRecord) (s : Redis)
    (r : DeliveryRecord)
    → get client k s ≡ ok (some r)
    → (due : DateTime) × ((due ≤ at) × (at ≤ due + 1000))
      × (get client j (mark_sent client k a s) ≡ (
          if text_eq j k
          then ok (some (record r { status = sent; attempts = a.attempt }))
          else get client j s))
      × (get client j (mark_dead client k a s) ≡ (
          if text_eq j k
          then ok (some (record r { status = dead_lettered; attempts = a.attempt }))
          else get client j s))
      × (get client j (schedule_retry client k at a s) ≡ (
          if text_eq j k
          then ok (some (record r { status = failed_retry; attempts = a.attempt; fire_at = due }))
          else get client j s))
unfolding mark_sent mark_dead schedule_retry hset
mark-get client j k at a s r e =
    let (h, here, reads) = found client k s r e in
    let s' = append_attempt client k a s in
    let log = append_attempt-deliveries client k a s in
    let fire = to_ms client.codec at in
    (
      from_ms fire,
      near_ms client.codec at,
      hset-get client j k s s' (mark_sent client k a s) h (status_fields sent a) _ here log refl
          (restated client.codec h r sent a.attempt reads),
      hset-get client j k s s' (mark_dead client k a s) h (status_fields dead_lettered a) _ here log
          refl (restated client.codec h r dead_lettered a.attempt reads),
      hset-get client j k s s' (schedule_retry client k at a s) h (retry_fields fire a) _ here log
          refl
          (rescheduled client.codec _ _ fire
            (restated client.codec h r failed_retry a.attempt reads)),
    )
