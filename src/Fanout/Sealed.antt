-- ===== src/Fanout/Sealed.antt =====
-- What `handle` puts into the delivery store.
use webhooks_engine.Prelude.{
  ℕ, suc, ap, ◌≡◌, ◌≢◌, Option, refl, ◌⊎◌, inl, inr, false, none, some, List, [], ◌∷◌, Text,
  text_eq, lookup, All, In, arith, Result, ok, err, Fault, Bool-cases, Option-cases, subst,
}
use webhooks_engine.Types.{
  Bytes, DateTime, DeliveryRecord, SubscriptionSnapshot, pending, is_in_flight,
}
use webhooks_engine.Store.Defs.{Store}
use webhooks_engine.Store.Invariant.{IsValid}
use webhooks_engine.Store.Marks.{lookup-enqueue_many, enqueue_many-IsValid, first_of}
use webhooks_engine.Payload.Defs.{redact_payload}
use webhooks_engine.Fanout.Defs.{
  BusEvent, Handler, non_empty, tenant_id, build_record, build_all, handle_dumped, handle_for,
  handle,
}

first_of-All :
    (P : DeliveryRecord → Type 0) (k : Text) {r : DeliveryRecord} (rs : List DeliveryRecord)
    → All P rs
    → first_of k rs ≡ some r
    → P r
first_of-All P k [] h e = absurd (ground arith)
first_of-All P k {r} (x ∷ rs) h e = elim (Bool-cases (text_eq k x.delivery_id)) [
  | inl here ↦ subst P (ground arith) h.0
  | inr there ↦ first_of-All P k rs h.1 (ground arith)
]

module _ {V : Type 0} (h : Handler V) (event : BusEvent V) (now : DateTime) where
  -- The tenant of the event: the attribute that the handler's field names, where there are both and
  -- neither is empty.
  abbrev pub IsTenant : Option Text → Type 0
  IsTenant (some t) =
      (field : Text) × (h.tenant_field ≡ some field)
      × (field ≢ [])
      × (event.attribute field ≡ some t)
      × (t ≢ [])
  IsTenant none =
      (field t : Text)
      → h.tenant_field ≡ some field
      → field ≢ []
      → event.attribute field ≡ some t
      → t ≡ []

  -- What a new record takes from the event, and what it starts with.
  abbrev pub FromEvent : Option Text → DeliveryRecord → Type 0
  FromEvent tenant r =
      (r.event_name ≡ h.name)
      × (r.event_id ≡ event.event_id)
      × (r.schema_version ≡ event.schema_version)
      × (r.emitted_at ≡ event.emitted_at)
      × (r.tenant_id ≡ tenant)
      × (r.status ≡ pending)
      × (r.attempts ≡ 0)
      × (r.fire_at ≡ now)
      × (r.redelivery_of ≡ none)

  -- What it takes from the subscription.
  abbrev pub IsFor : SubscriptionSnapshot → DeliveryRecord → Type 0
  IsFor sub r =
      (r.subscription_id ≡ sub.id)
      × (r.owner_id ≡ sub.owner_id)
      × (r.target_url ≡ sub.url)
      × (r.resolved_ip ≡ sub.resolved_ip)

  -- The record is of the event, carries its redacted payload, and is for one of the subscriptions
  -- that the reader gives for the event's name and its tenant.
  abbrev pub IsSealed : DeliveryRecord → Type 0
  IsSealed r =
      (tenant : Option Text) × (subs : List SubscriptionSnapshot) × (sub : SubscriptionSnapshot)
      × IsTenant tenant
      × (h.for_event h.name tenant ≡ ok subs)
      × In sub subs
      × IsFor sub r
      × FromEvent tenant r
      × (h.dumps (redact_payload h.placeholder h.redaction event.as_fields) ≡ ok r.data_json)

  tenant_id-IsTenant : IsTenant (tenant_id h event now)
  unfolding tenant_id
  tenant_id-IsTenant = of_field h.tenant_field refl
    where
      of_attribute :
          (field : Text)
          → h.tenant_field ≡ some field
          → field ≢ []
          → (o : Option Text) → event.attribute field ≡ o
          → IsTenant (non_empty o)
      of_attribute field e ne none e' = λ field' t same ne' there.
          let field_same : field' ≡ field = ground arith in
          absurd (ground (arith, ap event.attribute field_same))
      of_attribute field e ne (some []) e' = λ field' t same ne' there.
          let field_same : field' ≡ field = ground arith in
          ground (arith, ap event.attribute field_same)
      of_attribute field e ne (some (c ∷ t)) e' = (field, e, ne, e', λ h. ground arith)

      of_field :
          (o : Option Text)
          → h.tenant_field ≡ o
          → IsTenant
              (elim (non_empty o) [ none ↦ none | some field ↦ non_empty (event.attribute field) ])
      of_field none e = λ field t same ne there. absurd (ground arith)
      of_field (some []) e = λ field t same ne there. absurd (ne (ground arith))
      of_field (some (c ∷ s)) e =
          of_attribute (c ∷ s) e (λ h. ground arith) (event.attribute (c ∷ s)) refl

  -- What was there stays, what is new is sealed, and the store stays valid.
  abbrev pub AddsSealed : Store → Store → Type 0
  AddsSealed s s' =
      ((k : Text) (r : DeliveryRecord)
        → lookup k s'.records ≡ some r
        → (lookup k s.records ≡ some r) ⊎ ((lookup k s.records ≡ none) × IsSealed r))
      × ((k : Text) (r : DeliveryRecord)
          → lookup k s.records ≡ some r
          → lookup k s'.records ≡ some r)
      × IsValid s'

  same-AddsSealed : (s : Store) → IsValid s → AddsSealed s s
  same-AddsSealed s v = ((λ k r e. inl e), (λ k r e. e), v)

  build_all-IsSealed :
      (data_json : Bytes) (all subs : List SubscriptionSnapshot) (draw : ℕ)
      → h.for_event h.name (tenant_id h event now) ≡ ok all
      → h.dumps (redact_payload h.placeholder h.redaction event.as_fields) ≡ ok data_json
      → ((sub : SubscriptionSnapshot) → In sub subs → In sub all)
      → All IsSealed (build_all h event now data_json draw subs)
        × All (λ r. is_in_flight r.status ≡ false) (build_all h event now data_json draw subs)
  unfolding build_all build_record
  build_all-IsSealed data_json all [] draw found dumped part = (tt, tt)
  build_all-IsSealed data_json all (sub ∷ subs) draw found dumped part =
      let (sealed, fresh) =
        build_all-IsSealed data_json all subs (suc draw) found dumped (λ x i. part x (inr i)) in
      (
        (
          (
            tenant_id h event now,
            all,
            sub,
            tenant_id-IsTenant,
            found,
            part sub (inl refl),
            (refl, refl, refl, refl),
            (refl, refl, refl, refl, refl, refl, refl, refl, refl),
            dumped,
          ),
          sealed,
        ),
        (refl, fresh),
      )

  handle_dumped-AddsSealed :
      (draw : ℕ) (subs : List SubscriptionSnapshot) (dumped : Result Fault Bytes) (s : Store)
      → IsValid s
      → h.for_event h.name (tenant_id h event now) ≡ ok subs
      → h.dumps (redact_payload h.placeholder h.redaction event.as_fields) ≡ dumped
      → AddsSealed s (handle_dumped h event now draw subs dumped s).1
  unfolding handle_dumped
  handle_dumped-AddsSealed draw subs (err e) s v found e' = same-AddsSealed s v
  handle_dumped-AddsSealed draw subs (ok data_json) s v found e' =
      let rs = build_all h event now data_json draw subs in
      let (sealed, fresh) = build_all-IsSealed data_json subs subs draw found e' (λ x i. i) in
      (
        λ k r e. elim (Option-cases (lookup k s.records)) [
          | inl gone ↦ inr (
            gone,
            first_of-All IsSealed k {r = r} rs sealed (ground (arith, lookup-enqueue_many k rs s)),
          )
          | inr (x, there) ↦ inl (ground (arith, lookup-enqueue_many k rs s))
        ],
        λ k r e. ground (arith, lookup-enqueue_many k rs s),
        enqueue_many-IsValid rs s fresh v,
      )

  handle_for-AddsSealed :
      (draw : ℕ) (found : Result Fault (List SubscriptionSnapshot)) (s : Store)
      → IsValid s
      → h.for_event h.name (tenant_id h event now) ≡ found
      → AddsSealed s (handle_for h event now draw found s).1
  unfolding handle_for
  handle_for-AddsSealed draw (err e) s v found = same-AddsSealed s v
  handle_for-AddsSealed draw (ok []) s v found = same-AddsSealed s v
  handle_for-AddsSealed draw (ok (sub ∷ subs)) s v found =
      handle_dumped-AddsSealed draw (sub ∷ subs) _ s v found refl

  -- However `handle` ends, over a valid store: the store stays valid, every record that was there
  -- stays as it was, and every new one is a fresh delivery of the event, with its redacted
  -- payload, the owner, the URL and the address of a subscription that the reader gives for the
  -- event's name and its tenant.
  pub handle-AddsSealed :
      (draw : ℕ) (s : Store) → IsValid s → AddsSealed s (handle h event now draw s).1
  unfolding handle
  handle-AddsSealed draw s v = elim (Bool-cases h.dispatch_enabled) [
    | inl on ↦ rw on (handle_for-AddsSealed draw _ s v refl)
    | inr off ↦ rw off (same-AddsSealed s v)
  ]
