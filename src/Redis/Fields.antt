-- ===== src/Redis/Fields.antt =====
-- What a hash reads as after an HSET of some of its fields.
use webhooks_engine.Prelude.{
  ℕ, ◌≡◌, refl, sym, ◌∙◌, Option, none, some, [], ◌∷◌, Text, text_eq, lookup, insert, lookup-insert,
  codes, arith, if◌then◌else◌,
}
use webhooks_engine.Prelude.Strings.{decimal}
use webhooks_engine.Types.{DeliveryRecord, DeliveryStatus}
use webhooks_engine.Redis.Hash.{
  from_ms, Codec, Hash, status_value, field_int, with_all, hash_to_record,
}
use webhooks_engine.Redis.RoundTrip.{field_int-decimal, status_of-status_value}
use webhooks_engine.Redis.Defs.{hset_all}

with_all-inverse :
    (e a f c : Option ℕ) (st : Option DeliveryStatus)
    (make : ℕ → ℕ → ℕ → ℕ → DeliveryStatus → DeliveryRecord) (r : DeliveryRecord)
    → with_all e a f c st make ≡ some r
    → (e' a' f' c' : ℕ) × (st' : DeliveryStatus) × (e ≡ some e')
      × (a ≡ some a')
      × (f ≡ some f')
      × (c ≡ some c')
      × (st ≡ some st')
      × (make e' a' f' c' st' ≡ r)
with_all-inverse (some e) (some a) (some f) (some c) (some st) make r h =
    (e, a, f, c, st, refl, refl, refl, refl, refl, ground arith)
with_all-inverse none a f c st make r h = absurd (ground arith)
with_all-inverse (some e) none f c st make r h = absurd (ground arith)
with_all-inverse (some e) (some a) none c st make r h = absurd (ground arith)
with_all-inverse (some e) (some a) (some f) none st make r h = absurd (ground arith)
with_all-inverse (some e) (some a) (some f) (some c) none make r h = absurd (ground arith)

-- What an HSET of two fields leaves of each field.
lookup-two :
    (k j i v w : Text) (h : Hash)
    → lookup k (hset_all ((j, v) ∷ (i, w) ∷ []) h)
      ≡ (if text_eq k i then some w else if text_eq k j then some v else lookup k h)
unfolding hset_all
lookup-two k j i v w h = lookup-insert k i w (insert j v h) ∙ (rw (lookup-insert k j v h) refl)

field_int-cong :
    (k : Text) (h h' : Hash) → lookup k h' ≡ lookup k h → field_int h' k ≡ field_int h k
unfolding field_int
field_int-cong k h h' e = rw (e, field_int) refl

-- A hash that reads as a record reads, with another status and count of attempts, as the record
-- with these.
pub restated :
    (codec : Codec) (h : Hash) (r : DeliveryRecord) (st : DeliveryStatus) (n : ℕ)
    → hash_to_record codec h ≡ some r
    → hash_to_record codec
        (hset_all ((codes "status", status_value st) ∷ (codes "attempts", decimal n) ∷ []) h)
      ≡ some (record r { status = st; attempts = n })
unfolding hash_to_record text_eq
restated codec h r st n e =
    let h' = hset_all ((codes "status", status_value st) ∷ (codes "attempts", decimal n) ∷ []) h in
    let l = λ (k : Text).
      lookup-two k (codes "status") (codes "attempts") (status_value st) (decimal n) h in
    let (e', a', f', c', st', pe, pa, pf, pc, pst, made) = with_all-inverse _ _ _ _ _ _ r e in
    rw
      (
        field_int-cong (codes "emitted_at_ms") h h' (l (codes "emitted_at_ms")) ∙ pe,
        field_int-decimal h' (codes "attempts") n (l (codes "attempts")),
        field_int-cong (codes "fire_at_ms") h h' (l (codes "fire_at_ms")) ∙ pf,
        field_int-cong (codes "created_at_ms") h h' (l (codes "created_at_ms")) ∙ pc,
        l (codes "status"),
        status_of-status_value st,
      )
      (rw
        (
          l (codes "delivery_id"),
          l (codes "subscription_id"),
          l (codes "owner_id"),
          l (codes "event_name"),
          l (codes "event_id"),
          l (codes "schema_version"),
          l (codes "tenant_id"),
          l (codes "data_json"),
          l (codes "target_url"),
          l (codes "resolved_ip"),
          l (codes "redelivery_of"),
          l (codes "profile"),
          l (codes "secret_version"),
        )
        (rw (sym made) refl))

pub rescheduled :
    (codec : Codec) (h : Hash) (r : DeliveryRecord) (fire_at_ms : ℕ)
    → hash_to_record codec h ≡ some r
    → hash_to_record codec (insert (codes "fire_at_ms") (decimal fire_at_ms) h)
      ≡ some (record r { fire_at = from_ms fire_at_ms })
unfolding hash_to_record text_eq
rescheduled codec h r ms e =
    let h' = insert (codes "fire_at_ms") (decimal ms) h in
    let l = λ (k : Text). lookup-insert k (codes "fire_at_ms") (decimal ms) h in
    let (e', a', f', c', st', pe, pa, pf, pc, pst, made) = with_all-inverse _ _ _ _ _ _ r e in
    rw
      (
        field_int-cong (codes "emitted_at_ms") h h' (l (codes "emitted_at_ms")) ∙ pe,
        field_int-cong (codes "attempts") h h' (l (codes "attempts")) ∙ pa,
        field_int-decimal h' (codes "fire_at_ms") ms (l (codes "fire_at_ms")),
        field_int-cong (codes "created_at_ms") h h' (l (codes "created_at_ms")) ∙ pc,
        l (codes "status"),
        pst,
      )
      (rw
        (
          l (codes "delivery_id"),
          l (codes "subscription_id"),
          l (codes "owner_id"),
          l (codes "event_name"),
          l (codes "event_id"),
          l (codes "schema_version"),
          l (codes "tenant_id"),
          l (codes "data_json"),
          l (codes "target_url"),
          l (codes "resolved_ip"),
          l (codes "redelivery_of"),
          l (codes "profile"),
          l (codes "secret_version"),
        )
        (rw (sym made) refl))
