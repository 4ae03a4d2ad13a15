-- ===== src/Redis/RoundTrip.antt =====
-- A record written to its hash and read back.
use webhooks_engine.Prelude.{
  ℕ, ◌≡◌, ◌≢◌, refl, false, Option, none, some, [], ◌∷◌, Text, text_eq, lookup, codes, is_empty,
  arith,
}
use webhooks_engine.Prelude.Strings.{decimal}
use webhooks_engine.Prelude.Decimals.{parse_int-decimal}
use webhooks_engine.Types.{
  DeliveryRecord, DeliveryStatus, pending, in_flight, sent, failed_retry, dead_lettered, cancelled,
  default_profile,
}
use webhooks_engine.Redis.Hash.{
  to_ms, from_ms, Codec, Hash, status_value, status_of, or_empty, or_none, or_else, hash_of,
  record_to_hash, field_int, hash_to_record,
}

-- A record that its hash keeps: the body is UTF-8, the times are whole milliseconds that the floats
-- keep, and neither the profile nor an optional field that is there is empty.
pub record IsRepresentable (codec : Codec) (body : Text) (r : DeliveryRecord) : Type 0 where
  pub decoded : codec.decode r.data_json ≡ some body
  pub encoded : codec.encode body ≡ r.data_json
  pub emitted : from_ms (to_ms codec r.emitted_at) ≡ r.emitted_at
  pub fires : from_ms (to_ms codec r.fire_at) ≡ r.fire_at
  pub created : from_ms (to_ms codec r.created_at) ≡ r.created_at
  pub profile : is_empty r.profile ≡ false
  pub tenant : r.tenant_id ≢ some []
  pub origin : r.redelivery_of ≢ some []
  pub version : r.secret_version ≢ some []

pub status_of-status_value :
    (st : DeliveryStatus) → status_of (or_else (status_value st) (status_value pending)) ≡ some st
unfolding status_of text_eq
status_of-status_value pending = refl
status_of-status_value in_flight = refl
status_of-status_value sent = refl
status_of-status_value failed_retry = refl
status_of-status_value dead_lettered = refl
status_of-status_value cancelled = refl

or_none-or_empty : (o : Option Text) → o ≢ some [] → or_none (or_empty o) ≡ o
or_none-or_empty none h = refl
or_none-or_empty (some []) h = absurd (h refl)
or_none-or_empty (some (c ∷ s)) h = refl

or_else-filled : (s t : Text) → is_empty s ≡ false → or_else s t ≡ s
or_else-filled [] t h = absurd (ground arith)
or_else-filled (c ∷ s) t h = refl

-- `int(str(n) or "0")`
pub field_int-decimal :
    (h : Hash) (k : Text) (n : ℕ) → lookup k h ≡ some (decimal n) → field_int h k ≡ some n
unfolding field_int
field_int-decimal h k n e =
    rw (e, field_int)
      (rw (or_else-filled (decimal n) (codes "0") ((parse_int-decimal n).1))
        (rw ((parse_int-decimal n).0) refl))

-- A representable record comes back from its hash as it was.
pub hash_to_record-record_to_hash :
    (codec : Codec) (body : Text) (r : DeliveryRecord)
    → IsRepresentable codec body r
    → (h : Hash) × (record_to_hash codec r ≡ some h) × (hash_to_record codec h ≡ some r)
unfolding record_to_hash hash_to_record hash_of lookup text_eq
hash_to_record-record_to_hash codec body r v =
    let h = hash_of codec body r in
    (
      h,
      rw (v.decoded, record_to_hash) refl,
      rw (field_int-decimal h (codes "emitted_at_ms") (to_ms codec r.emitted_at) refl) (
          rw (field_int-decimal h (codes "attempts") r.attempts refl) (
            rw (field_int-decimal h (codes "fire_at_ms") (to_ms codec r.fire_at) refl) (
              rw (field_int-decimal h (codes "created_at_ms") (to_ms codec r.created_at) refl) (
                rw (status_of-status_value r.status) (
                  rw
                    (
                      or_none-or_empty r.tenant_id v.tenant,
                      or_none-or_empty r.redelivery_of v.origin,
                      or_none-or_empty r.secret_version v.version,
                      or_else-filled r.profile default_profile v.profile,
                      v.encoded,
                      v.emitted,
                      v.fires,
                      v.created,
                    )
                    refl))))),
    )
