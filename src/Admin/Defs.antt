-- ===== src/Admin/Defs.antt =====
-- `DeliveryAdminService` of service/delivery_admin.py over the in-memory store, and the window of
-- `list_deliveries` of service/routes/deliveries.py. `uuid4` and `json.dumps` of the ping are
-- arguments; `limit` and `offset` are not negative.
use webhooks_engine.Prelude.{
  ℕ, ◌+◌, Option, none, some, List, [], ◌∷◌, Text, codes, take, drop, length, Result, ok, err,
}
use webhooks_engine.Types.{
  Bytes, DateTime, DeliveryRecord, SubscriptionSnapshot, pending, default_profile,
}
use webhooks_engine.Store.Defs.{Store, get, enqueue_many, recent_for_subscription}
use webhooks_engine.Ssrf.Guard.{NetLib, SecurityConfig}
use webhooks_engine.Ssrf.Target.{TargetFault, check_target}

-- `DeliveryNotFound`, `SubscriptionNotFound`, or what `_check_target` raises.
pub data AdminFault : Type 0 where
  delivery_not_found subscription_not_found : AdminFault
  bad_target : TargetFault → AdminFault

abbrev pub ping_event : Text
ping_event = codes "webhook.ping"

-- The `clone` of `redeliver`: what it does not name takes the default of `DeliveryRecord`.
abbrev pub clone_of : Text → DateTime → DeliveryRecord → DeliveryRecord
clone_of delivery_id now original = record {
  delivery_id = delivery_id;
  subscription_id = original.subscription_id;
  owner_id = original.owner_id;
  event_name = original.event_name;
  event_id = original.event_id;
  schema_version = original.schema_version;
  tenant_id = original.tenant_id;
  data_json = original.data_json;
  emitted_at = original.emitted_at;
  target_url = original.target_url;
  resolved_ip = original.resolved_ip;
  redelivery_of = some original.delivery_id;
  attempts = 0;
  fire_at = now;
  created_at = now;
  status = pending;
  profile = default_profile;
  secret_version = none;
}

-- The record of `ping`.
abbrev pub ping_of : Text → Text → Bytes → DateTime → SubscriptionSnapshot → DeliveryRecord
ping_of delivery_id event_id data_json now sub = record {
  delivery_id = delivery_id;
  subscription_id = sub.id;
  owner_id = sub.owner_id;
  event_name = ping_event;
  event_id = event_id;
  schema_version = codes "1.0";
  tenant_id = none;
  data_json = data_json;
  emitted_at = now;
  target_url = sub.url;
  resolved_ip = sub.resolved_ip;
  redelivery_of = none;
  attempts = 0;
  fire_at = now;
  created_at = now;
  status = pending;
  profile = default_profile;
  secret_version = none;
}

-- Once the target is checked, the record is enqueued and returned.
unfoldable pub enqueue_checked :
    Result TargetFault (Unit {0})
    → DeliveryRecord
    → Store
    → Result AdminFault DeliveryRecord × Store
enqueue_checked (err e) r s = (err (bad_target e), s)
enqueue_checked (ok _) r s = (ok r, enqueue_many (r ∷ []) s)

module _ (lib : NetLib) (security : SecurityConfig) where
  unfoldable pub redeliver_found :
      Text → DateTime → Option DeliveryRecord → Store → Result AdminFault DeliveryRecord × Store
  unfolding enqueue_checked
  redeliver_found fresh now none s = (err delivery_not_found, s)
  redeliver_found fresh now (some original) s =
      enqueue_checked (check_target lib security original.resolved_ip original.target_url)
        (clone_of fresh now original) s

  -- `redeliver`; `fresh` is what `uuid4` gives.
  unfoldable pub redeliver :
      Text → DateTime → Text → Store → Result AdminFault DeliveryRecord × Store
  unfolding redeliver_found get
  redeliver fresh now delivery_id s = redeliver_found fresh now (get delivery_id s) s

  -- `ping` of the subscription that `self._subs.get` finds; `dumps` encodes the payload of the
  -- subscription's id and the time.
  unfoldable pub ping :
      Text
      → Text
      → (Text → DateTime → Bytes)
      → DateTime
      → Option SubscriptionSnapshot
      → Store
      → Result AdminFault DeliveryRecord × Store
  unfolding enqueue_checked
  ping fresh event_id dumps now none s = (err subscription_not_found, s)
  ping fresh event_id dumps now (some sub) s =
      enqueue_checked (check_target lib security sub.resolved_ip sub.url)
        (ping_of fresh event_id (dumps sub.id now) now sub) s

pub record Page : Type 0 where
  pub items : List DeliveryRecord
  pub total : ℕ

-- `list_deliveries`, once the key is checked; the items are the records that are shown.
unfoldable pub list_deliveries : Text → ℕ → ℕ → Store → Page
unfolding recent_for_subscription
list_deliveries subscription_id limit offset s =
    let records = recent_for_subscription subscription_id (offset + limit) s in
    record { items = take limit (drop offset records); total = length records }
