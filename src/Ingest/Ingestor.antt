-- ===== src/Ingest/Ingestor.antt =====
-- `EventIngestor` of ingest/ingestor.py over the two in-memory stores.
-- The reader of subscriptions and `json.dumps(…).encode()` are arguments; each may raise.
-- `uuid4` is a stream of ids: `draw` counts what has been drawn, one for each subscription.
use webhooks_engine.Prelude.{
  ℕ, suc, ◌+◌, Option, none, some, List, [], ◌∷◌, ◌++◌, Text, is_empty, length, if◌then◌else◌,
  Result, ok, err, Fault, value_error,
}
use webhooks_engine.Types.{
  Bytes, DateTime, DeliveryRecord, SubscriptionSnapshot, pending, default_profile,
}
use webhooks_engine.Store.Defs.{Store, enqueue_many}
use webhooks_engine.Ssrf.Guard.{NetLib, SecurityConfig}
use webhooks_engine.Ssrf.Target.{TargetFault, blocked, not_a_url, check_target}
use webhooks_engine.Ingest.Queue.{
  IncomingEvent, EventStore, claim_events, ack, mark_failed, reclaim_stale,
}

pub record IngestTickStats : Type 0 where
  pub claimed : ℕ
  pub fanned_out : ℕ
  pub failed : ℕ

-- What the ingestor is wired with.
pub record Wiring (D : Type 0) : Type 0 where
  pub net : NetLib
  pub security : SecurityConfig
  pub for_event : Text → Option Text → Result Fault (List SubscriptionSnapshot)
  pub dumps : D → Result Fault Bytes
  pub uuid4 : ℕ → Text
  pub lease_ttl_s : ℕ
  pub batch_size : ℕ

pub record Ingest (D : Type 0) : Type 0 where
  pub events : EventStore D
  pub deliveries : Store
  pub draw : ℕ

-- What the loop of `tick` has gathered so far.
pub record Progress : Type 0 where
  pub acked : List Text
  pub fanned_out : ℕ
  pub failed : ℕ

abbrev pub no_progress : Progress
no_progress = record { acked = []; fanned_out = 0; failed = 0 }

module _ {D : Type 0} (w : Wiring D) where
  -- The delivery of an event to a subscription.
  abbrev pub record_of :
      IncomingEvent D → Bytes → DateTime → Text → SubscriptionSnapshot → DeliveryRecord
  record_of event data_json now delivery_id sub = record {
    delivery_id = delivery_id;
    subscription_id = sub.id;
    owner_id = sub.owner_id;
    event_name = event.event;
    event_id = event.event_id;
    schema_version = event.schema_version;
    tenant_id = event.tenant_id;
    data_json = data_json;
    emitted_at = elim event.created_at [ none ↦ now | some at ↦ at ];
    target_url = sub.url;
    resolved_ip = sub.resolved_ip;
    redelivery_of = none;
    attempts = 0;
    fire_at = now;
    created_at = now;
    status = pending;
    profile = default_profile;
    secret_version = none;
  }

  -- One turn of the loop over the subscriptions: `InvalidWebhookTarget` passes over the
  -- subscription, any other exception ends the loop.
  abbrev pub add_record :
      Result TargetFault (Unit {0})
      → DeliveryRecord
      → Result Fault (List DeliveryRecord)
      → Result Fault (List DeliveryRecord)
  add_record (err (blocked _)) r rest = rest
  add_record (err not_a_url) r rest = err value_error
  add_record (ok _) r (err e) = err e
  add_record (ok _) r (ok rs) = ok (r ∷ rs)

  unfoldable pub build_records :
      IncomingEvent D
      → Bytes
      → DateTime
      → ℕ
      → List SubscriptionSnapshot
      → Result Fault (List DeliveryRecord)
  unfolding check_target
  build_records event data_json now draw [] = ok []
  build_records event data_json now draw (sub ∷ subs) =
      add_record (check_target w.net w.security sub.resolved_ip sub.url)
        (record_of event data_json now (w.uuid4 draw) sub)
        (build_records event data_json now (suc draw) subs)

  -- The end of `_fan_out`: what was built is enqueued.
  unfoldable pub enqueue_built : Result Fault (List DeliveryRecord) → Store → Result Fault ℕ × Store
  enqueue_built (err e) s = (err e, s)
  enqueue_built (ok rs) s = (ok (length rs), enqueue_many rs s)

  unfoldable pub fan_out_to :
      IncomingEvent D
      → DateTime
      → ℕ
      → Result Fault (List SubscriptionSnapshot)
      → Store
      → Result Fault ℕ × Store
  unfolding build_records enqueue_built
  fan_out_to event now draw (err e) s = (err e, s)
  fan_out_to event now draw (ok []) s = (ok 0, s)
  fan_out_to event now draw (ok (sub ∷ subs)) s = elim (w.dumps event.data') [
    | err e ↦ (err e, s)
    | ok data_json ↦ enqueue_built (build_records event data_json now draw (sub ∷ subs)) s
  ]

  -- `_fan_out`
  unfoldable pub fan_out : IncomingEvent D → DateTime → ℕ → Store → Result Fault ℕ × Store
  unfolding fan_out_to
  fan_out event now draw s = fan_out_to event now draw (w.for_event event.event event.tenant_id) s

  -- How many subscriptions an event draws ids for.
  abbrev pub drawn : IncomingEvent D → ℕ
  drawn event = elim (w.for_event event.event event.tenant_id) [ err _ ↦ 0 | ok subs ↦ length subs ]

  -- The end of one turn of the loop of `tick`.
  unfoldable pub settle_event :
      IncomingEvent D → Result Fault ℕ × Store → Ingest D → Progress → Progress × Ingest D
  unfolding mark_failed
  settle_event event (ok n, s) i p = (
    record p { acked = p.acked ++ event.event_id ∷ []; fanned_out = p.fanned_out + n },
    record i { deliveries = s; draw = i.draw + drawn event },
  )
  settle_event event (err e, s) i p = (
    record p { failed = p.failed + 1 },
    record i {
      events = mark_failed event.event_id i.events;
      deliveries = s;
      draw = i.draw + drawn event;
    },
  )

  unfoldable pub ingest_all :
      DateTime → List (IncomingEvent D) → Ingest D → Progress → Progress × Ingest D
  unfolding settle_event fan_out
  ingest_all now [] i p = (p, i)
  ingest_all now (event ∷ events) i p =
      let (p', i') = settle_event event (fan_out event now i.draw i.deliveries) i p in
      ingest_all now events i' p'

  -- `tick`: the in-memory reclaim does not raise.
  unfoldable pub tick : DateTime → Ingest D → IngestTickStats × Ingest D
  unfolding ingest_all claim_events reclaim_stale ack
  tick now i =
      let (reclaimed, rows) = reclaim_stale now i.events in
      let (events, rows') = claim_events now w.lease_ttl_s w.batch_size rows in
      let (p, i') = ingest_all now events (record i { events = rows' }) no_progress in
      if is_empty events
      then (record { claimed = 0; fanned_out = 0; failed = 0 }, record i { events = rows' })
      else (
        record { claimed = length events; fanned_out = p.fanned_out; failed = p.failed },
        record i' { events = ack p.acked i'.events },
      )
