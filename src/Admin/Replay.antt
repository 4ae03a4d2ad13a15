-- ===== src/Admin/Replay.antt =====
-- What a redelivery and a ping enqueue.
use webhooks_engine.Prelude.{
  ℕ, ◌≤◌, ◌⊎◌, inl, All, In, length, text_eq_refl, ◌≡◌, refl, none, some, [], ◌∷◌, Text, text_eq,
  text_eq→eq, lookup, arith, if◌then◌else◌, Result, ok, err,
}
use webhooks_engine.Types.{
  Bytes, DateTime, DeliveryRecord, SubscriptionSnapshot, pending, default_profile,
}
use webhooks_engine.Store.Defs.{Store, get, claim_batch}
use webhooks_engine.Store.Claim.{claim_batch-fair}
use webhooks_engine.Store.Marks.{lookup-enqueue_many}
use webhooks_engine.Ssrf.Guard.{NetLib, SecurityConfig}
use webhooks_engine.Ssrf.Target.{TargetFault, check_target}
use webhooks_engine.Admin.Defs.{
  AdminFault, delivery_not_found, bad_target, clone_of, ping_of, enqueue_checked, redeliver_found,
  redeliver, ping,
}

-- The record is returned, and it alone is new in the store.
abbrev pub Adds : DeliveryRecord → Store → Result AdminFault DeliveryRecord × Store → Type 0
Adds r s (res, s') =
    (res ≡ ok r)
    × ((k : Text)
        → lookup k s'.records ≡ (if text_eq k r.delivery_id then some r else lookup k s.records))

-- How an enqueue behind the guard ends: the guard refuses, and nothing changes; or it passes.
abbrev pub Guarded :
    Result TargetFault (Unit {0})
    → DeliveryRecord
    → Store
    → Result AdminFault DeliveryRecord × Store
    → Type 0
Guarded (err e) r s ended = ended ≡ (err (bad_target e), s)
Guarded (ok _) r s ended = Adds r s ended

enqueue_checked-Guarded :
    (checked : Result TargetFault (Unit {0})) (r : DeliveryRecord) (s : Store)
    → lookup r.delivery_id s.records ≡ none
    → Guarded checked r s (enqueue_checked checked r s)
unfolding enqueue_checked
enqueue_checked-Guarded (err e) r s h = refl
enqueue_checked-Guarded (ok u) r s h =
    (refl, λ k. ground (arith, lookup-enqueue_many k (r ∷ []) s, text_eq→eq k r.delivery_id))

module _ (lib : NetLib) (security : SecurityConfig) (now : DateTime) (s : Store)
    (fresh : Text) where
  -- A redelivery: a new record, due at once, that points back at the original, repeats what was
  -- sent and to whom, and starts over, under the default profile and the current secret.
  abbrev pub Repeats : DeliveryRecord → DeliveryRecord → Type 0
  Repeats r c =
      ((c.delivery_id ≡ fresh) × (c.redelivery_of ≡ some r.delivery_id))
      × ((c.subscription_id ≡ r.subscription_id) × (c.owner_id ≡ r.owner_id))
      × ((c.event_name ≡ r.event_name) × (c.event_id ≡ r.event_id))
      × ((c.schema_version ≡ r.schema_version) × (c.tenant_id ≡ r.tenant_id))
      × ((c.data_json ≡ r.data_json) × (c.emitted_at ≡ r.emitted_at))
      × ((c.target_url ≡ r.target_url) × (c.resolved_ip ≡ r.resolved_ip))
      × ((c.status ≡ pending) × (c.attempts ≡ 0))
      × ((c.fire_at ≡ now) × (c.created_at ≡ now))
      × ((c.profile ≡ default_profile) × (c.secret_version ≡ none))

  -- A claim of `n` records at `t` hands the record out, or is full of records that fire no later.
  abbrev pub Claimable : DateTime → ℕ → ℕ → DeliveryRecord → Store → Type 0
  Claimable t ttl n c s' =
      let batch = (claim_batch t ttl n s').0 in
      In c batch ⊎ ((length batch ≡ n) × All (λ x. x.fire_at ≤ c.fire_at) batch)

  -- A redelivery of an unknown id is refused and changes nothing. Of a known one it checks the
  -- target that the original has; refused, it changes nothing. Passed, with a fresh id, it adds
  -- one record, touches no other, and returns it: a fresh delivery of the same event to the same
  -- target, which names the original, under the default profile; and no claim from then on passes
  -- it over.
  pub redeliver-Guarded :
      (delivery_id : Text) (t : DateTime) (ttl n : ℕ)
      → lookup fresh s.records ≡ none
      → now ≤ t
      → let ended = redeliver lib security fresh now delivery_id s in
        (lookup delivery_id s.records ≡ none → ended ≡ (err delivery_not_found, s))
        × ((r : DeliveryRecord)
            → lookup delivery_id s.records ≡ some r
            → ((e : TargetFault)
                → check_target lib security r.resolved_ip r.target_url ≡ err e
                → ended ≡ (err (bad_target e), s))
              × (check_target lib security r.resolved_ip r.target_url ≡ ok tt
                  → (c : DeliveryRecord) × Repeats r c
                    × Adds c s ended
                    × Claimable t ttl n c ended.1))
  unfolding redeliver redeliver_found get enqueue_checked
  redeliver-Guarded delivery_id t ttl n new later = (
    λ e. rw e refl,
    λ r e. (
      λ fault refused. rw (e, refused) refl,
      λ passed.
          let c = clone_of fresh now r in
          let adds : Adds c s (redeliver lib security fresh now delivery_id s) =
            rw (e, passed) (enqueue_checked-Guarded (ok tt) c s new) in
          let own = adds.1 fresh in
          (
            c,
            (
              (refl, refl),
              (refl, refl),
              (refl, refl),
              (refl, refl),
              (refl, refl),
              (refl, refl),
              (refl, refl),
              (refl, refl),
              (refl, refl),
            ),
            adds,
            claim_batch-fair t ttl n _ fresh c (ground (arith, text_eq_refl fresh)) (inl refl)
                later,
          ),
    ),
  )

  -- A ping checks the subscription's own target; with a fresh id it adds the ping's record and
  -- touches no other, unless the guard refuses.
  pub ping-Guarded :
      (event_id : Text) (dumps : Text → DateTime → Bytes) (sub : SubscriptionSnapshot)
      → lookup fresh s.records ≡ none
      → Guarded
          (check_target lib security sub.resolved_ip sub.url)
          (ping_of fresh event_id (dumps sub.id now) now sub)
          s
          (ping lib security fresh event_id dumps now (some sub) s)
  unfolding ping
  ping-Guarded event_id dumps sub new =
      enqueue_checked-Guarded (check_target lib security sub.resolved_ip sub.url)
        (ping_of fresh event_id (dumps sub.id now) now sub) s new
