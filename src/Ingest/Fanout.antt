-- ===== src/Ingest/Fanout.antt =====
-- What `_fan_out` enqueues.
use webhooks_engine.Prelude.{
  ℕ, suc, ◌≡◌, refl, ap, inl, inr, Bool, true, false, List, [], ◌∷◌, map, Text, length, filter, All,
  All-map, In, Result, ok, err, Fault,
}
use webhooks_engine.Types.{Bytes, DateTime, DeliveryRecord, SubscriptionSnapshot, is_in_flight}
use webhooks_engine.Store.Defs.{Store, enqueue_many}
use webhooks_engine.Store.Invariant.{IsValid}
use webhooks_engine.Store.Marks.{enqueue_many-IsValid}
use webhooks_engine.Ssrf.Target.{TargetFault, blocked, not_a_url, check_target}
use webhooks_engine.Ingest.Queue.{IncomingEvent}
use webhooks_engine.Ingest.Ingestor.{
  Wiring, record_of, add_record, build_records, enqueue_built, fan_out_to, fan_out,
}

abbrev pub is_ok : Result TargetFault (Unit {0}) → Bool
is_ok (ok _) = true
is_ok (err _) = false

module _ {D : Type 0} (w : Wiring D) (event : IncomingEvent D) (now : DateTime) where
  -- The guard lets the subscription's address through.
  abbrev pub passes : SubscriptionSnapshot → Bool
  passes sub = is_ok (check_target w.net w.security sub.resolved_ip sub.url)

  -- The record is that of the event for one of the subscriptions, whose address passes.
  abbrev pub IsPlanned : Bytes → List SubscriptionSnapshot → DeliveryRecord → Type 0
  IsPlanned data_json subs r =
      (sub : SubscriptionSnapshot) × In sub subs
      × (check_target w.net w.security sub.resolved_ip sub.url ≡ ok tt)
      × (r ≡ record_of w event data_json now r.delivery_id sub)

  -- The records are those of the subscriptions that pass, in their order.
  abbrev pub ArePlanned : Bytes → List SubscriptionSnapshot → List DeliveryRecord → Type 0
  ArePlanned data_json subs rs =
      (map (λ r. r.subscription_id) rs ≡ map (λ sub. sub.id) (filter passes subs))
      × All (IsPlanned data_json subs) rs

  abbrev Built : Bytes → List SubscriptionSnapshot → Result Fault (List DeliveryRecord) → Type 0
  Built data_json subs (err e) = Unit
  Built data_json subs (ok rs) = ArePlanned data_json subs rs

  later :
      (data_json : Bytes) (sub : SubscriptionSnapshot) (subs : List SubscriptionSnapshot)
      (rs : List DeliveryRecord)
      → All (IsPlanned data_json subs) rs
      → All (IsPlanned data_json (sub ∷ subs)) rs
  later data_json sub subs rs h =
      All-map _ _ rs (λ r (s, here, pass, same). (s, inr here, pass, same)) h

  add_record-Built :
      (data_json : Bytes) (did : Text) (sub : SubscriptionSnapshot)
      (subs : List SubscriptionSnapshot) (checked : Result TargetFault (Unit {0}))
      (rest : Result Fault (List DeliveryRecord))
      → check_target w.net w.security sub.resolved_ip sub.url ≡ checked
      → Built data_json subs rest
      → Built data_json
          (sub ∷ subs)
          (add_record w checked (record_of w event data_json now did sub) rest)
  add_record-Built data_json did sub subs (err not_a_url) rest e h = tt
  add_record-Built data_json did sub subs (err (blocked x)) (err f) e h = tt
  add_record-Built data_json did sub subs (err (blocked x)) (ok rs) e h =
      (rw e h.0, later data_json sub subs rs h.1)
  add_record-Built data_json did sub subs (ok u) (err f) e h = tt
  add_record-Built data_json did sub subs (ok u) (ok rs) e h =
      (rw (e, h.0), ((sub, inl refl, e, refl), later data_json sub subs rs h.1))

  build_records-Built :
      (data_json : Bytes) (draw : ℕ) (subs : List SubscriptionSnapshot)
      → Built data_json subs (build_records w event data_json now draw subs)
  unfolding build_records
  build_records-Built data_json draw [] = (refl, tt)
  build_records-Built data_json draw (sub ∷ subs) =
      add_record-Built data_json _ sub subs _ _ refl (build_records-Built data_json (suc draw) subs)

  -- How a fan-out ends: an exception has enqueued nothing; otherwise the records that it counts
  -- are those of the subscriptions that pass, and they are enqueued.
  abbrev pub FansOut :
      Result Fault (List SubscriptionSnapshot) → Store → Result Fault ℕ × Store → Type 0
  FansOut found s (err e, s') = s' ≡ s
  FansOut found s (ok n, s') =
      (subs : List SubscriptionSnapshot) × (data_json : Bytes) × (rs : List DeliveryRecord) × (found
        ≡ ok subs)
      × (length rs ≡ n)
      × (s' ≡ enqueue_many rs s)
      × ArePlanned data_json subs rs

  enqueue_built-FansOut :
      (data_json : Bytes) (subs : List SubscriptionSnapshot)
      (built : Result Fault (List DeliveryRecord)) (s : Store)
      → Built data_json subs built
      → FansOut (ok subs) s (enqueue_built w built s)
  unfolding enqueue_built
  enqueue_built-FansOut data_json subs (err e) s h = refl
  enqueue_built-FansOut data_json subs (ok rs) s h = (subs, data_json, rs, refl, refl, refl, h)

  fan_out_to-FansOut :
      (draw : ℕ) (found : Result Fault (List SubscriptionSnapshot)) (s : Store)
      → FansOut found s (fan_out_to w event now draw found s)
  unfolding fan_out_to enqueue_many
  fan_out_to-FansOut draw (err e) s = refl
  fan_out_to-FansOut draw (ok []) s = ([], [], [], refl, refl, refl, (refl, tt))
  fan_out_to-FansOut draw (ok (sub ∷ subs)) s = go (w.dumps event.data')
    where
      go :
          (json : Result Fault Bytes)
          → FansOut (ok (sub ∷ subs)) s (elim json [
            | err e ↦ (err e, s)
            | ok data_json ↦
                enqueue_built w (build_records w event data_json now draw (sub ∷ subs)) s
          ])
      go (err e) = refl
      go (ok data_json) =
          enqueue_built-FansOut data_json (sub ∷ subs) _ s
            (build_records-Built data_json draw (sub ∷ subs))

  -- A fan-out that raises has enqueued nothing. One that returns `n` has enqueued `n` records: one
  -- for each subscription of the event whose address the guard lets through, in their order, and
  -- none for any other.
  pub fan_out-FansOut :
      (draw : ℕ) (s : Store)
      → FansOut (w.for_event event.event event.tenant_id) s (fan_out w event now draw s)
  unfolding fan_out
  fan_out-FansOut draw s = fan_out_to-FansOut draw _ s

  pub fan_out-IsValid : (draw : ℕ) (s : Store) → IsValid s → IsValid (fan_out w event now draw s).1
  fan_out-IsValid draw s v = go (fan_out w event now draw s) (fan_out-FansOut draw s)
    where
      go :
          (ended : Result Fault ℕ × Store)
          → FansOut (w.for_event event.event event.tenant_id) s ended
          → IsValid ended.1
      go (err e, s') h = rw h v
      go (ok n, s') (subs, data_json, rs, _, _, e, planned) = rw e (
          enqueue_many-IsValid rs s
            (All-map _ _ rs (λ r p. ap (λ x. is_in_flight x.status) p.3) planned.1) v)
