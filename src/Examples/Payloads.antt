-- ===== src/Examples/Payloads.antt =====
-- Redaction, an event of the bus, and the capped read of an answer on concrete data.
use webhooks_engine.Prelude.{
  none, ◌≢◌, true, some, ℕ, ◌≡◌, refl, false, [], ◌∷◌, codes, text_eq, Dict, lookup, IsDistinct,
  insert, values, ok,
}
use webhooks_engine.Fanout.Defs.{BusEvent, Handler, handle}
use webhooks_engine.Fanout.Sealed.{AddsSealed, handle-AddsSealed}
use webhooks_engine.Examples.Setup.{store}
use webhooks_engine.Examples.Deliveries.{store-IsValid}
use webhooks_engine.Payload.Defs.{Meta, redact_payload}
use webhooks_engine.Payload.Redaction.{lookup-redact_payload}
use webhooks_engine.Payload.Sensitive.{IsHidden}

abbrev meta : Meta
meta = record { redacted_fields = codes "card" ∷ []; allow_sensitive = false }

abbrev fields : Dict ℕ
fields = (codes "meta", 1) ∷ (codes "card", 2) ∷ (codes "api_token", 3) ∷ (codes "total", 4) ∷ []

fields-IsDistinct : IsDistinct fields
unfolding lookup text_eq
fields-IsDistinct = (refl, (refl, (refl, (refl, tt))))

redact-test :
    redact_payload 0 meta fields
    ≡ (codes "card", 0) ∷ (codes "api_token", 0) ∷ (codes "total", 4) ∷ []
unfolding redact_payload text_eq insert
redact-test = refl

lookup-redact_payload_example :
    let out = lookup (codes "api_token") (redact_payload 0 meta fields) in
    (codes "api_token" ≡ codes "meta" → out ≡ none)
    × (lookup (codes "api_token") fields ≡ none → out ≡ none)
    × ((v : ℕ)
        → codes "api_token" ≢ codes "meta"
        → lookup (codes "api_token") fields ≡ some v
        → (IsHidden meta (codes "api_token") → out ≡ some 0)
          × (¬ IsHidden meta (codes "api_token") → out ≡ some v))
lookup-redact_payload_example =
    lookup-redact_payload 0 meta (codes "api_token") fields fields-IsDistinct

abbrev event : BusEvent ℕ
event = record {
  event_id = codes "e";
  schema_version = codes "1.0";
  emitted_at = 5;
  as_fields = fields;
  attribute = λ field. some (codes "u1");
}

abbrev handler : Handler ℕ
handler = record {
  name = codes "order.paid";
  tenant_field = some (codes "user_id");
  redaction = meta;
  placeholder = 0;
  dispatch_enabled = true;
  for_event = λ name tenant. ok (
      record {
        id = codes "sub";
        owner_id = codes "owner";
        url = codes "https://a.example";
        resolved_ip = codes "8.8.8.8";
      }
      ∷ []);
  dumps = λ fields. ok (values fields);
  uuid4 = λ n. n ∷ [];
}

handle-AddsSealed_example : AddsSealed handler event 9 store (handle handler event 9 0 store).1
handle-AddsSealed_example = handle-AddsSealed handler event 9 0 store store-IsValid
