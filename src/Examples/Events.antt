-- ===== src/Examples/Events.antt =====
-- The event store and the ingestor on three events.
use webhooks_engine.Prelude.{
  ◌≡◌, refl, ◌⊎◌, true, false, none, List, [], ◌∷◌, Text, codes, text_eq, lookup, insert, ok,
}
use webhooks_engine.Types.{Bytes, SubscriptionSnapshot}
use webhooks_engine.Ssrf.Address.{blocks, from_strings, default_blocked_cidrs}
use webhooks_engine.Ssrf.Host.{is_trusted_private}
use webhooks_engine.Store.Defs.{new}
use webhooks_engine.Ingest.Queue.{
  done, failed, IncomingEvent, EventStore, append, append_many, claim_events, reclaim_stale,
}
use webhooks_engine.Ingest.Claims.{IsKeyed, has_id, closed_option}
use webhooks_engine.Ingest.Ingestor.{Wiring, Ingest, fan_out, tick}
use webhooks_engine.Ingest.Fanout.{FansOut, fan_out-FansOut}
use webhooks_engine.Ingest.Tick.{tick-settles}
use webhooks_engine.Examples.Setup.{net, security}

abbrev pub event : Text → IncomingEvent Bytes
event id = record {
  event_id = id;
  event = codes "order.paid";
  data' = codes "{}";
  tenant_id = none;
  schema_version = codes "1.0";
  created_at = none;
}

-- The first event is written twice.
abbrev events : List (IncomingEvent Bytes)
events = event (codes "x") ∷ event (codes "y") ∷ event (codes "x") ∷ []

abbrev queue : EventStore Bytes
queue = append_many events []

queue-IsKeyed : IsKeyed queue
unfolding append_many append lookup insert text_eq
queue-IsKeyed = (refl, refl, (refl, refl, tt))

abbrev subscription : Text → Text → SubscriptionSnapshot
subscription id ip = record {
  id = id;
  owner_id = codes "owner";
  url = codes "https://a.example";
  resolved_ip = ip;
}

-- Two subscriptions, the second of which points at a private address.
abbrev wiring : Wiring Bytes
wiring = record {
  net = net;
  security = security;
  for_event = λ name tenant. ok (
      subscription (codes "s") (codes "8.8.8.8")
      ∷ subscription (codes "t") (codes "10.0.0.1")
      ∷ []);
  dumps = λ data'. ok data';
  uuid4 = λ n. n ∷ [];
  lease_ttl_s = 30;
  batch_size = 10;
}

abbrev ingest : Ingest Bytes
ingest = record { events = queue; deliveries = new; draw = 0 }

fan_out-FansOut_example :
    FansOut wiring
      (event (codes "x"))
      9
      (wiring.for_event (codes "order.paid") none)
      new
      (fan_out wiring (event (codes "x")) 9 0 new)
fan_out-FansOut_example = fan_out-FansOut wiring (event (codes "x")) 9 0 new

tick-settles_example :
    let before = (reclaim_stale 9 queue).1 in
    let batch = (claim_events 9 30 10 before).0 in
    let after = (tick wiring 9 ingest).1.events in
    (has_id (codes "y") batch ≡ true
      → (lookup (codes "y") after ≡ closed_option done (lookup (codes "y") before))
        ⊎ (lookup (codes "y") after ≡ closed_option failed (lookup (codes "y") before)))
    × (has_id (codes "y") batch ≡ false → lookup (codes "y") after ≡ lookup (codes "y") before)
tick-settles_example = tick-settles wiring 9 ingest (codes "y") queue-IsKeyed

ingest-test : (tick wiring 9 ingest).0 ≡ record { claimed = 2; fanned_out = 2; failed = 0 }
unfolding tick append_many append lookup insert text_eq blocks from_strings default_blocked_cidrs
    is_trusted_private
ingest-test = refl
