-- ===== src/Redis/Hash.antt =====
-- `_record_to_hash`, `_hash_to_record` and `_attempt_to_json` of stores/redis.py. A hash of Redis
-- is a dict of texts. UTF-8 is an argument, and so is what the float in `_to_ms` rounds.
use webhooks_engine.Prelude.{
  ℕ, ◌-◌, ◌*◌, ◌/◌, ◌%◌, ◌==◌, ◌&&◌, Bool, Option, none, some, [], ◌∷◌, Text, text_eq, Dict, lookup,
  codes, if◌then◌else◌,
}
use webhooks_engine.Prelude.Strings.{pos, negsuc, decimal, parse_int}
use webhooks_engine.Types.{
  Bytes, DateTime, DeliveryRecord, AttemptRecord, DeliveryStatus, pending, in_flight, sent,
  failed_retry, dead_lettered, cancelled, default_profile,
}

-- `bytes.decode("utf-8")`, where `none` is UnicodeDecodeError, `str.encode("utf-8")`, and whether
-- `dt.timestamp() * 1000`, for a time of whole milliseconds, comes out below it as a float. Its
-- error is less than a microsecond, so no other time is read as another millisecond.
pub record Codec : Type 0 where
  pub decode : Bytes → Option Text
  pub encode : Text → Bytes
  pub falls_short : DateTime → Bool

-- `_to_ms`
unfoldable pub to_ms : Codec → DateTime → ℕ
to_ms codec t = if t % 1000 == 0 && codec.falls_short t then t / 1000 - 1 else t / 1000

-- `_from_ms`, whose float rounds to the microsecond
unfoldable pub from_ms : ℕ → DateTime
from_ms ms = ms * 1000

abbrev pub Hash : Type 0
Hash = Dict Text

-- The values of `DeliveryStatus`.
abbrev pub status_value : DeliveryStatus → Text
status_value pending = codes "pending"
status_value in_flight = codes "in_flight"
status_value sent = codes "sent"
status_value failed_retry = codes "failed_retry"
status_value dead_lettered = codes "dead_lettered"
status_value cancelled = codes "cancelled"

-- `DeliveryStatus(s)`, where `none` is ValueError
unfoldable pub status_of : Text → Option DeliveryStatus
unfolding text_eq
status_of s =
    if text_eq s (status_value pending)
    then some pending
    else if text_eq s (status_value in_flight)
    then some in_flight
    else if text_eq s (status_value sent)
    then some sent
    else if text_eq s (status_value failed_retry)
    then some failed_retry
    else if text_eq s (status_value dead_lettered)
    then some dead_lettered
    else if text_eq s (status_value cancelled)
    then some cancelled
    else none

-- `s or ""`, and back `s or None`
abbrev pub or_empty : Option Text → Text
or_empty none = []
or_empty (some s) = s

abbrev pub or_none : Text → Option Text
or_none [] = none
or_none (c ∷ s) = some (c ∷ s)

-- `s or t`
abbrev pub or_else : Text → Text → Text
or_else [] t = t
or_else (c ∷ s) t = c ∷ s

-- The hash of a record whose `data_json` decodes to `body`.
unfoldable pub hash_of : Codec → Text → DeliveryRecord → Hash
hash_of codec body r =
    (codes "delivery_id", r.delivery_id)
    ∷ (codes "subscription_id", r.subscription_id)
    ∷ (codes "owner_id", r.owner_id)
    ∷ (codes "event_name", r.event_name)
    ∷ (codes "event_id", r.event_id)
    ∷ (codes "schema_version", r.schema_version)
    ∷ (codes "tenant_id", or_empty r.tenant_id)
    ∷ (codes "data_json", body)
    ∷ (codes "emitted_at_ms", decimal (to_ms codec r.emitted_at))
    ∷ (codes "target_url", r.target_url)
    ∷ (codes "resolved_ip", r.resolved_ip)
    ∷ (codes "redelivery_of", or_empty r.redelivery_of)
    ∷ (codes "attempts", decimal r.attempts)
    ∷ (codes "fire_at_ms", decimal (to_ms codec r.fire_at))
    ∷ (codes "created_at_ms", decimal (to_ms codec r.created_at))
    ∷ (codes "status", status_value r.status)
    ∷ (codes "profile", r.profile)
    ∷ (codes "secret_version", or_empty r.secret_version)
    ∷ []

unfoldable pub record_to_hash : Codec → DeliveryRecord → Option Hash
unfolding hash_of
record_to_hash codec r = elim (codec.decode r.data_json) [
  | none ↦ none
  | some body ↦ some (hash_of codec body r)
]

-- `_s`: a missing field is empty.
abbrev pub field_text : Hash → Text → Text
field_text h k = or_empty (lookup k h)

-- `int(_s(k) or "0")`. The store writes no negative number; one is read as a fault.
unfoldable pub field_int : Hash → Text → Option ℕ
unfolding parse_int lookup
field_int h k = elim (parse_int (or_else (field_text h k) (codes "0"))) [
  | none ↦ none
  | some (pos n) ↦ some n
  | some (negsuc n) ↦ none
]

-- The arguments of the constructor that can raise, and the call when none does.
abbrev pub with_all :
    Option ℕ
    → Option ℕ
    → Option ℕ
    → Option ℕ
    → Option DeliveryStatus
    → (ℕ → ℕ → ℕ → ℕ → DeliveryStatus → DeliveryRecord)
    → Option DeliveryRecord
with_all (some e) (some a) (some f) (some c) (some st) make = some (make e a f c st)
with_all _ _ _ _ _ make = none

-- `none` is the ValueError of an integer or a status.
unfoldable pub hash_to_record : Codec → Hash → Option DeliveryRecord
unfolding field_int status_of lookup
hash_to_record codec h =
    with_all (field_int h (codes "emitted_at_ms")) (field_int h (codes "attempts"))
      (field_int h (codes "fire_at_ms")) (field_int h (codes "created_at_ms"))
      (status_of (or_else (field_text h (codes "status")) (status_value pending)))
      (λ emitted_at_ms attempts fire_at_ms created_at_ms status. record {
        delivery_id = field_text h (codes "delivery_id");
        subscription_id = field_text h (codes "subscription_id");
        owner_id = field_text h (codes "owner_id");
        event_name = field_text h (codes "event_name");
        event_id = field_text h (codes "event_id");
        schema_version = field_text h (codes "schema_version");
        tenant_id = or_none (field_text h (codes "tenant_id"));
        data_json = codec.encode (field_text h (codes "data_json"));
        emitted_at = from_ms emitted_at_ms;
        target_url = field_text h (codes "target_url");
        resolved_ip = field_text h (codes "resolved_ip");
        redelivery_of = or_none (field_text h (codes "redelivery_of"));
        attempts = attempts;
        fire_at = from_ms fire_at_ms;
        created_at = from_ms created_at_ms;
        status = status;
        profile = or_else (field_text h (codes "profile")) default_profile;
        secret_version = or_none (field_text h (codes "secret_version"));
      })

-- The object that `_attempt_to_json` dumps.
pub record AttemptJson : Type 0 where
  pub attempt : ℕ
  pub attempted_at_ms : ℕ
  pub http_code : Option ℕ
  pub duration_ms : ℕ
  pub error : Option Text
  pub response_snippet : Text

abbrev pub attempt_to_json : Codec → AttemptRecord → AttemptJson
attempt_to_json codec a = record {
  attempt = a.attempt;
  attempted_at_ms = to_ms codec a.attempted_at;
  http_code = a.http_code;
  duration_ms = a.duration_ms;
  error = a.error;
  response_snippet = a.response_snippet;
}
