-- ===== src/Fanout/Defs.antt =====
-- `WebhookFanoutHandler` of fanout.py over the in-memory store. The reader of subscriptions and
-- `json.dumps` are arguments, which may raise; `uuid4` is a stream of ids. The values of an event's
-- fields are of any type.
use webhooks_engine.Prelude.{
  ℕ, suc, Bool, Option, none, some, List, [], ◌∷◌, Text, Dict, is_empty, if◌then◌else◌, Result, ok,
  err, Fault,
}
use webhooks_engine.Types.{
  Bytes, DateTime, DeliveryRecord, SubscriptionSnapshot, pending, default_profile,
}
use webhooks_engine.Store.Defs.{Store, enqueue_many}
use webhooks_engine.Payload.Defs.{Meta, redact_payload}

-- An event of the bus: its own metadata, `asdict(event)`, and `str` of an attribute that is there
-- and not `None`.
pub record BusEvent (V : Type 0) : Type 0 where
  pub event_id : Text
  pub schema_version : Text
  pub emitted_at : DateTime
  pub as_fields : Dict V
  pub attribute : Text → Option Text

-- What the handler of an event class is made of.
pub record Handler (V : Type 0) : Type 0 where
  pub name : Text
  pub tenant_field : Option Text
  pub redaction : Meta
  pub placeholder : V
  pub dispatch_enabled : Bool
  pub for_event : Text → Option Text → Result Fault (List SubscriptionSnapshot)
  pub dumps : Dict V → Result Fault Bytes
  pub uuid4 : ℕ → Text

-- `str` of a value that is there and not empty
abbrev pub non_empty : Option Text → Option Text
non_empty none = none
non_empty (some t) = if is_empty t then none else some t

module _ {V : Type 0} (h : Handler V) (event : BusEvent V) (now : DateTime) where
  -- `tenant_id` in `handle`
  unfoldable pub tenant_id : Option Text
  tenant_id = elim (non_empty h.tenant_field) [
    | none ↦ none
    | some field ↦ non_empty (event.attribute field)
  ]

  -- `_build_record`
  unfoldable pub build_record : Bytes → Text → SubscriptionSnapshot → DeliveryRecord
  unfolding tenant_id
  build_record data_json delivery_id sub = record {
    delivery_id = delivery_id;
    subscription_id = sub.id;
    owner_id = sub.owner_id;
    event_name = h.name;
    event_id = event.event_id;
    schema_version = event.schema_version;
    tenant_id = tenant_id;
    data_json = data_json;
    emitted_at = event.emitted_at;
    target_url = sub.url;
    resolved_ip = sub.resolved_ip;
    redelivery_of = none;
    attempts = 0;
    fire_at = now;
    created_at = now;
    status = pending;
    profile = default_profile;
    secret_version = none;
  }

  -- The list comprehension of `handle`.
  unfoldable pub build_all : Bytes → ℕ → List SubscriptionSnapshot → List DeliveryRecord
  unfolding build_record
  build_all data_json draw [] = []
  build_all data_json draw (sub ∷ subs) =
      build_record data_json (h.uuid4 draw) sub ∷ build_all data_json (suc draw) subs

  -- With what `json.dumps` gave.
  unfoldable pub handle_dumped :
      ℕ → List SubscriptionSnapshot → Result Fault Bytes → Store → Result Fault (Unit {0}) × Store
  unfolding build_all
  handle_dumped draw subs (err e) s = (err e, s)
  handle_dumped draw subs (ok data_json) s = (ok tt, enqueue_many (build_all data_json draw subs) s)

  -- With what the reader gave.
  unfoldable pub handle_for :
      ℕ → Result Fault (List SubscriptionSnapshot) → Store → Result Fault (Unit {0}) × Store
  unfolding handle_dumped redact_payload
  handle_for draw (err e) s = (err e, s)
  handle_for draw (ok []) s = (ok tt, s)
  handle_for draw (ok (sub ∷ subs)) s =
      handle_dumped draw (sub ∷ subs)
        (h.dumps (redact_payload h.placeholder h.redaction event.as_fields)) s

  -- `handle`
  unfoldable pub handle : ℕ → Store → Result Fault (Unit {0}) × Store
  unfolding handle_for tenant_id
  handle draw s =
      if h.dispatch_enabled then handle_for draw (h.for_event h.name tenant_id) s else (ok tt, s)
