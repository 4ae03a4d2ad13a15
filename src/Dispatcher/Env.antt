-- ===== src/Dispatcher/Env.antt =====
-- What the dispatcher is wired with: `WebhookDispatcher.__init__`, the protocols of
-- webhook_engine/protocols.py, the profiles of profiles.py and the limits of config.py.
-- Each protocol is a function: the signer, the secret reader, the resolver, the HTTP sender (which
-- may answer by all that was posted before) and the event bus are supplied by the host.
use webhooks_engine.Prelude.{
  ℕ, ◌+◌, ◌∷◌, Bool, Option, none, some, List, Text, Dict, Result, ok, err, Fault, leb,
  if◌then◌else◌, value_error, codes, [],
}
use webhooks_engine.Prelude.Strings.{ℤ, pos, negsuc}
use webhooks_engine.Types.{Bytes, DateTime, DeliveryRecord, HttpSendResult, seconds}
use webhooks_engine.Ssrf.Guard.{NetLib, SecurityConfig}
use webhooks_engine.Policy.Defs.{RetryConfig, DateLib, RequestError}

-- `SecretMaterial`
pub record SecretMaterial : Type 0 where
  pub current : Text
  pub previous : Option Text
  pub previous_expires_at : Option DateTime

-- `SecretMaterial.previous_at`
unfoldable pub previous_at : SecretMaterial → DateTime → Option Text
previous_at m now = elim m.previous_expires_at [
  | none ↦ none
  | some until ↦ if leb until now then none else m.previous
]

-- `grace_until`, of an `int`
unfoldable pub grace_until : DateTime → ℤ → Result Fault DateTime
grace_until now (pos grace_s) = ok (now + seconds grace_s)
grace_until now (negsuc n) = err value_error

-- `SignatureHeaders`
pub record SignatureHeaders : Type 0 where
  pub webhook_id : Text
  pub webhook_event : Text
  pub webhook_event_id : Text
  pub webhook_timestamp : Text
  pub webhook_signature : Text

-- `SignatureHeaders.as_dict`
unfoldable pub as_dict : SignatureHeaders → Dict Text
as_dict h =
    (codes "Webhook-Id", h.webhook_id)
    ∷ (codes "Webhook-Event", h.webhook_event)
    ∷ (codes "Webhook-Event-Id", h.webhook_event_id)
    ∷ (codes "Webhook-Timestamp", h.webhook_timestamp)
    ∷ (codes "Webhook-Signature", h.webhook_signature)
    ∷ (codes "Content-Type", codes "application/json")
    ∷ []

-- `SignedHeaders`: the shipped header set, or a custom signer's own.
pub data SignedHeaders : Type 0 where
  shipped : SignatureHeaders → SignedHeaders
  custom : Dict Text → SignedHeaders

unfoldable pub header_dict : SignedHeaders → Dict Text
unfolding as_dict
header_dict (shipped h) = as_dict h
header_dict (custom d) = d

-- The arguments of `SignerProtocol.sign`.
pub record SignRequest : Type 0 where
  pub delivery_id : Text
  pub event_name : Text
  pub event_id : Text
  pub body : Bytes
  pub secret : Text
  pub now : DateTime

abbrev pub Signer : Type 0
Signer = SignRequest → Result Fault SignedHeaders

-- `DeliveryProfile`
pub record Profile : Type 0 where
  pub retry : Option RetryConfig
  pub encode : DeliveryRecord → ℕ → Bytes
  pub signer : Option Signer
  pub max_response_bytes : Option ℕ
  pub honour_retry_after : Bool

-- `WebhookLimitsConfig`, the fields that the dispatcher reads; times in microseconds.
pub record Limits : Type 0 where
  pub http_connect_timeout : ℕ
  pub http_read_timeout : ℕ
  pub http_total_timeout : ℕ
  pub max_body_bytes : ℕ

-- The arguments of `HttpSenderProtocol.post`.
pub record Request : Type 0 where
  pub url : Text
  pub body : Bytes
  pub headers : Dict Text
  pub resolved_ip : Text
  pub connect_timeout : ℕ
  pub read_timeout : ℕ
  pub total_timeout : ℕ
  pub max_response_bytes : ℕ

-- How a post ends: an answer, an `httpx.RequestError` with its text, or any other exception.
pub data Answer : Type 0 where
  answered : HttpSendResult → Answer
  failed : RequestError → Text → Answer
  crashed : Fault → Answer

-- `WebhookDeliveryExhausted`, without the event's own metadata.
pub record Exhausted : Type 0 where
  pub delivery_id : Text
  pub subscription_id : Text
  pub owner_id : Text
  pub source_event : Text
  pub attempts : ℕ
  pub last_error : Text

pub record Env : Type 0 where
  pub net : NetLib
  pub dates : DateLib
  pub security : SecurityConfig
  pub limits : Limits
  pub retry : RetryConfig
  pub uniform : ℕ → ℕ
  pub profiles : Dict Profile
  pub signer : Signer
  pub read_secret : Text → Option Text → Result Fault SecretMaterial
  pub resolver : Option (Text → Result Fault (Option Text))
  pub post : List Request → Request → Answer
  pub has_bus : Bool
