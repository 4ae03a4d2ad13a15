-- ===== src/Types.antt =====
-- The records and enums of webhook_engine/types.py and webhook_engine/enums.py.
-- A `str` is a `Text`, `bytes` a list of numbers, and a `datetime` the number of microseconds
-- since the epoch, the resolution of Python's `datetime` and `timedelta`; times before the epoch
-- do not occur.
use webhooks_engine.Prelude.{ℕ, ◌*◌, Text, Option, Bool, true, false, Dict, List, codes}

abbrev pub Bytes : Type 0
Bytes = List ℕ

abbrev pub DateTime : Type 0
DateTime = ℕ

-- `timedelta(seconds=n)`
abbrev pub seconds : ℕ → ℕ
seconds n = n * 1_000_000

pub data DeliveryStatus : Type 0 where
  pending in_flight sent failed_retry dead_lettered cancelled : DeliveryStatus

pub data RetryReason : Type 0 where
  http_5xx http_408 http_429 network_error timeout : RetryReason
  non_retryable_4xx payload_too_large blocked_ip_at_send : RetryReason

pub data InvalidTargetReason : Type 0 where
  bad_scheme not_https unresolvable private_ip loopback link_local cgnat ula : InvalidTargetReason
  multicast reserved nat64 six_to_four blocked_host has_credentials : InvalidTargetReason
  preflight_failed : InvalidTargetReason

-- The values of `InvalidTargetReason`, which error texts carry.
abbrev pub reason_value : InvalidTargetReason → Text
reason_value bad_scheme = codes "bad_scheme"
reason_value not_https = codes "not_https"
reason_value unresolvable = codes "unresolvable"
reason_value private_ip = codes "private_ip"
reason_value loopback = codes "loopback"
reason_value link_local = codes "link_local"
reason_value cgnat = codes "cgnat"
reason_value ula = codes "ula"
reason_value multicast = codes "multicast"
reason_value reserved = codes "reserved"
reason_value nat64 = codes "nat64"
reason_value six_to_four = codes "six_to_four"
reason_value blocked_host = codes "blocked_host"
reason_value has_credentials = codes "has_credentials"
reason_value preflight_failed = codes "preflight_failed"

abbrev pub default_profile : Text
default_profile = codes "default"

pub record AttemptRecord : Type 0 where
  pub attempt : ℕ
  pub attempted_at : DateTime
  pub http_code : Option ℕ
  pub duration_ms : ℕ
  pub error : Option Text
  pub response_snippet : Text
  pub response_body : Bytes
  pub response_truncated : Bool

pub record DeliveryRecord : Type 0 where
  pub delivery_id : Text
  pub subscription_id : Text
  pub owner_id : Text
  pub event_name : Text
  pub event_id : Text
  pub schema_version : Text
  pub tenant_id : Option Text
  pub data_json : Bytes
  pub emitted_at : DateTime
  pub target_url : Text
  pub resolved_ip : Text
  pub redelivery_of : Option Text
  pub attempts : ℕ
  pub fire_at : DateTime
  pub created_at : DateTime
  pub status : DeliveryStatus
  pub profile : Text
  pub secret_version : Option Text

pub record HttpSendResult : Type 0 where
  pub status : ℕ
  pub headers : Dict Text
  pub body_snippet : Text
  pub duration_ms : ℕ
  pub body : Bytes
  pub body_truncated : Bool

pub record DispatchOutcome : Type 0 where
  pub status : DeliveryStatus
  pub next_fire_at : Option DateTime
  pub attempt : AttemptRecord

-- `retry_overrides` is written as `None` and read by nothing, so it is left out.
pub record SubscriptionSnapshot : Type 0 where
  pub id : Text
  pub owner_id : Text
  pub url : Text
  pub resolved_ip : Text

abbrev pub is_in_flight : DeliveryStatus → Bool
is_in_flight in_flight = true
is_in_flight _ = false

abbrev pub is_sent : DeliveryStatus → Bool
is_sent sent = true
is_sent _ = false

abbrev pub is_failed_retry : DeliveryStatus → Bool
is_failed_retry failed_retry = true
is_failed_retry _ = false

-- `status in (PENDING, FAILED_RETRY)`
abbrev pub is_ready : DeliveryStatus → Bool
is_ready pending = true
is_ready failed_retry = true
is_ready _ = false
