-- ===== src/Ingest/Tick.antt =====
-- The tick of `EventIngestor`: the rows and the counters that it leaves.
use webhooks_engine.Prelude.{
  ℕ, ◌+◌, ◌≤◌, ◌≡◌, refl, ◌⊎◌, Bool, true, false, Option, none, some, List, [], ◌∷◌, ◌++◌, Text,
  text_eq, length, length-append, any, lookup, arith, if◌then◌else◌, Result, ok, err, Fault,
  Bool-cases, Option-cases, is_empty,
}
use webhooks_engine.Types.{DateTime}
use webhooks_engine.Store.Defs.{Store}
use webhooks_engine.Store.Invariant.{IsValid}
use webhooks_engine.Ingest.Queue.{
  EventIngestStatus, done, failed, IncomingEvent, Row, claim_events, reclaim_stale,
}
use webhooks_engine.Ingest.Claims.{
  IsKeyed, has_id, closed_option, claim_events-pending, reclaim_stale-IsKeyed, lookup-mark_failed,
  lookup-ack,
}
use webhooks_engine.Ingest.Ingestor.{
  Wiring, Ingest, Progress, fan_out, settle_event, ingest_all, no_progress, tick,
}
use webhooks_engine.Ingest.Fanout.{fan_out-IsValid}

any-append :
    (k : Text) (xs ys : List Text)
    → any (text_eq k) (xs ++ ys) ≡ (if any (text_eq k) xs then true else any (text_eq k) ys)
any-append k [] ys = refl
any-append k (x ∷ xs) ys = ground (arith, any-append k xs ys)

module _ {D : Type 0} where
  -- What a stretch of the loop does for one id: `hit` says that it is among the events, `was` and
  -- `is` whether it is acked before and after, `old` and `new` are its row before and after.
  abbrev Handled : Bool → Bool → Bool → Option (Row D) → Option (Row D) → Type 0
  Handled hit was is old new =
      (hit ≡ false → (is ≡ was) × (new ≡ old))
      × (hit ≡ true → (is ≡ true) ⊎ (new ≡ closed_option failed old))
      × (was ≡ true → is ≡ true)
      × ((new ≡ old) ⊎ (new ≡ closed_option failed old))

  closed_option-twice :
      (a b : EventIngestStatus) (o : Option (Row D))
      → closed_option a (closed_option b o) ≡ closed_option a o
  closed_option-twice a b none = refl
  closed_option-twice a b (some row) = refl

  Handled-trans :
      (a b was mid is : Bool) (old between new : Option (Row D))
      → Handled a was mid old between
      → Handled b mid is between new
      → Handled (if a then true else b) was is old new
  Handled-trans a b was mid is old between new h h' =
      ground (arith, closed_option-twice failed failed old, Bool-cases a, Bool-cases b)

module _ {D : Type 0} (w : Wiring D) where
  abbrev Handles : Text → Bool → Ingest D → Progress → Ingest D → Progress → Type 0
  Handles k hit i p i' p' =
      Handled hit (any (text_eq k) p.acked) (any (text_eq k) p'.acked) (lookup k i.events)
        (lookup k i'.events)

  settle_event-Handles :
      (k : Text) (event : IncomingEvent D) (ended : Result Fault ℕ × Store) (i : Ingest D)
      (p : Progress)
      → let (p', i') = settle_event w event ended i p in
        Handles k (text_eq k event.event_id) i p i' p'
        × (length p'.acked + p'.failed ≡ length p.acked + p.failed + 1)
  unfolding settle_event
  settle_event-Handles k event (ok n, s) i p = ground (
    arith,
    any-append k p.acked (event.event_id ∷ []),
    length-append p.acked (event.event_id ∷ []),
  )
  settle_event-Handles k event (err e, s) i p =
      ground (arith, lookup-mark_failed k event.event_id i.events, Option-cases (lookup k i.events))

  ingest_all-Handles :
      (k : Text) (now : DateTime) (es : List (IncomingEvent D)) (i : Ingest D) (p : Progress)
      → let (p', i') = ingest_all w now es i p in
        Handles k (has_id k es) i p i' p'
        × (length p'.acked + p'.failed ≡ length p.acked + p.failed + length es)
  unfolding ingest_all
  ingest_all-Handles k now [] i p = ground (arith, Option-cases (lookup k i.events))
  ingest_all-Handles k now (event ∷ es) i p =
      let (p', i') = settle_event w event (fan_out w event now i.draw i.deliveries) i p in
      let (first, counted) =
        settle_event-Handles k event (fan_out w event now i.draw i.deliveries) i p in
      let (rest, counted') = ingest_all-Handles k now es i' p' in
      (Handled-trans (text_eq k event.event_id) (has_id k es) _ _ _ _ _ _ first rest, omega arith)

  settle_event-IsValid :
      (event : IncomingEvent D) (ended : Result Fault ℕ × Store) (i : Ingest D) (p : Progress)
      → IsValid ended.1
      → IsValid (settle_event w event ended i p).1.deliveries
  unfolding settle_event
  settle_event-IsValid event (ok n, s) i p v = v
  settle_event-IsValid event (err e, s) i p v = v

  ingest_all-IsValid :
      (now : DateTime) (es : List (IncomingEvent D)) (i : Ingest D) (p : Progress)
      → IsValid i.deliveries
      → IsValid (ingest_all w now es i p).1.deliveries
  unfolding ingest_all
  ingest_all-IsValid now [] i p v = v
  ingest_all-IsValid now (event ∷ es) i p v = ingest_all-IsValid now es _ _ (
      settle_event-IsValid event (fan_out w event now i.draw i.deliveries) i p
        (fan_out-IsValid w event now i.draw i.deliveries v))

  is_empty-has_id :
      (k : Text) (es : List (IncomingEvent D))
      → is_empty es ≡ true
      → (has_id k es ≡ false) × (length es ≡ 0)
  is_empty-has_id k [] e = (refl, refl)
  is_empty-has_id k (x ∷ es) e = absurd (ground arith)

  -- After a tick over a keyed event store every event that it claimed is DONE or FAILED, without a
  -- lease; every other row is as the reclaim left it.
  pub tick-settles :
      (now : DateTime) (i : Ingest D) (k : Text)
      → IsKeyed i.events
      → let before = (reclaim_stale now i.events).1 in
        let batch = (claim_events now w.lease_ttl_s w.batch_size before).0 in
        let after = (tick w now i).1.events in
        (has_id k batch ≡ true
          → (lookup k after ≡ closed_option done (lookup k before))
            ⊎ (lookup k after ≡ closed_option failed (lookup k before)))
        × (has_id k batch ≡ false → lookup k after ≡ lookup k before)
  unfolding tick
  tick-settles now i k v =
      let before = (reclaim_stale now i.events).1 in
      let (batch, rows) = claim_events now w.lease_ttl_s w.batch_size before in
      let start = record i { events = rows } in
      let (p, i') = ingest_all w now batch start no_progress in
      ground (
        arith,
        is_empty-has_id k batch,
        ingest_all-Handles k now batch start no_progress,
        claim_events-pending now w.lease_ttl_s w.batch_size before k
            (reclaim_stale-IsKeyed now i.events v),
        lookup-ack k p.acked i'.events,
        Bool-cases (has_id k batch),
        Option-cases (lookup k before),
      )

  -- The counters of a tick over a keyed event store add up: at most `batch_size` events are
  -- claimed, and no more fail than are claimed. A valid delivery store stays valid.
  pub tick-counts :
      (now : DateTime) (i : Ingest D)
      → IsKeyed i.events
      → IsValid i.deliveries
      → let (stats, i') = tick w now i in
        (stats.claimed ≤ w.batch_size) × (stats.failed ≤ stats.claimed) × IsValid i'.deliveries
  unfolding tick
  tick-counts now i v v' =
      let before = (reclaim_stale now i.events).1 in
      let (batch, rows) = claim_events now w.lease_ttl_s w.batch_size before in
      let start = record i { events = rows } in
      ground (
        arith,
        ingest_all-Handles [] now batch start no_progress,
        ingest_all-IsValid now batch start no_progress v',
        claim_events-pending now w.lease_ttl_s w.batch_size before []
            (reclaim_stale-IsKeyed now i.events v),
      )
