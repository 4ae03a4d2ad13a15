-- ===== src/Redis/Sets.antt =====
-- The sorted sets under the methods of the store: which of them a method leaves alone.
use webhooks_engine.Prelude.{
  ℕ, ◌+◌, ◌*◌, ◌≡◌, refl, sym, ◌∙◌, ap, subst, none, some, List, [], ◌∷◌, map, Text, text_eq→eq,
  Dict, lookup, contains, insert, lookup-insert, IsDistinct, insert-IsDistinct, All, arith,
  Bool-cases, Option-cases, inl, inr, is_empty, codes,
}
use webhooks_engine.Types.{DateTime, DeliveryRecord, AttemptRecord, in_flight}
use webhooks_engine.Redis.Hash.{to_ms, Hash, record_to_hash, field_text}
use webhooks_engine.Redis.Defs.{
  Redis, Client, claim_script, hash_at, hset, idem_key, enqueue, pipeline,
}
use webhooks_engine.Redis.Methods.{set_in_flight, read_rows, claim_batch, append_attempt}

-- No member stands twice in a set, and none stands in both.
pub record IsValid (s : Redis) : Type 0 where
  pub ready_distinct : IsDistinct s.ready
  pub inflight_distinct : IsDistinct s.inflight
  pub disjoint : (k : Text) (e : ℕ) → lookup k s.inflight ≡ some e → lookup k s.ready ≡ none

-- The two sets of one state are those of the other.
abbrev pub SameSets : Redis → Redis → Type 0
SameSets s t = (t.ready ≡ s.ready) × (t.inflight ≡ s.inflight)

pub SameSets-IsValid : (s t : Redis) → SameSets s t → IsValid s → IsValid t
SameSets-IsValid s t h v = record {
  ready_distinct = subst IsDistinct (sym h.0) v.ready_distinct;
  inflight_distinct = subst IsDistinct (sym h.1) v.inflight_distinct;
  disjoint = λ k e f. ground (arith, v.disjoint k e, h.0, h.1);
}

pub append_attempt-SameSets :
    (client : Client) (k : Text) (a : AttemptRecord) (s : Redis)
    → SameSets s (append_attempt client k a s)
unfolding append_attempt
append_attempt-SameSets client k a s =
    elim (Bool-cases (is_empty (field_text (hash_at k s.deliveries) (codes "subscription_id")))) [
      | inl anonymous ↦ rw anonymous (refl, refl)
      | inr known ↦ rw known (refl, refl)
    ]

set_in_flight-SameSets : (rs : List DeliveryRecord) (s : Redis) → SameSets s (set_in_flight rs s)
unfolding set_in_flight hset
set_in_flight-SameSets [] s = (refl, refl)
set_in_flight-SameSets (r ∷ rs) s = set_in_flight-SameSets rs _

-- A claim leaves the sets as its script does, also when a hash does not read.
pub claim_batch-SameSets :
    (client : Client) (now : DateTime) (ttl n : ℕ) (s : Redis)
    → let now_ms = to_ms client.codec now in
      SameSets (claim_script now_ms (now_ms + ttl * 1000) n s).1 (claim_batch client now ttl n s).1
unfolding claim_batch
claim_batch-SameSets client now ttl n s =
    let now_ms = to_ms client.codec now in
    let after = claim_script now_ms (now_ms + ttl * 1000) n s in
    elim (Option-cases (read_rows client after.0 after.1.deliveries)) [
      | inl unread ↦ rw (unread, claim_batch) (refl, refl)
      | inr (rs, e) ↦
          rw (e, claim_batch)
            (set_in_flight-SameSets
              (map (λ (r : DeliveryRecord). record r { status = in_flight }) rs) after.1)
    ]

pub enqueue-sets :
    (client : Client) (r : DeliveryRecord) (h : Hash) (s : Redis)
    → let t = enqueue client r h s in
      (t.inflight ≡ s.inflight)
      × (t.ready ≡ insert r.delivery_id (to_ms client.codec r.fire_at) s.ready)
unfolding enqueue hset
enqueue-sets client r h s =
    elim (Bool-cases (contains (idem_key r.event_id r.subscription_id) s.idem)) [
      | inl known ↦ rw (known, enqueue) (refl, refl)
      | inr new ↦ rw (new, enqueue) (refl, refl)
    ]

enqueue-IsValid :
    (client : Client) (r : DeliveryRecord) (h : Hash) (s : Redis)
    → lookup r.delivery_id s.inflight ≡ none
    → IsValid s
    → IsValid (enqueue client r h s)
enqueue-IsValid client r h s free v =
    let (flying, ready) = enqueue-sets client r h s in
    let score = to_ms client.codec r.fire_at in
    record {
      ready_distinct =
          subst IsDistinct (sym ready)
            (insert-IsDistinct r.delivery_id score s.ready v.ready_distinct);
      inflight_distinct = subst IsDistinct (sym flying) v.inflight_distinct;
      disjoint = λ k e f.
          let old : lookup k s.inflight ≡ some e = ap (lookup k) (sym flying) ∙ f in
          rw ready (
            ground (
              arith,
              v.disjoint k e,
              lookup-insert k r.delivery_id score s.ready,
              text_eq→eq k r.delivery_id,
            ));
    }

-- What is enqueued is ready, and no lease changes.
pub pipeline-IsValid :
    (client : Client) (rs : List DeliveryRecord) (s t : Redis)
    → pipeline client rs s ≡ some t
    → All (λ r. lookup r.delivery_id s.inflight ≡ none) rs
    → IsValid s
    → IsValid t × (t.inflight ≡ s.inflight)
unfolding pipeline
pipeline-IsValid client [] s t e free v =
    let same : s ≡ t = cc in
    subst (λ (u : Redis). IsValid u × (u.inflight ≡ s.inflight)) same (v, refl)
pipeline-IsValid client (r ∷ rs) s t e free v =
    elim (Option-cases (record_to_hash client.codec r)) [
      | inl unwritten ↦ absurd (ground arith)
      | inr (h, written) ↦
          let s' = enqueue client r h s in
          let flying = (enqueue-sets client r h s).0 in
          let free' : All (λ (r : DeliveryRecord). lookup r.delivery_id s'.inflight ≡ none) rs =
            subst (λ (z : Dict ℕ). All (λ (r : DeliveryRecord). lookup r.delivery_id z ≡ none) rs)
              (sym flying) free.1 in
          let (v', kept) =
            pipeline-IsValid client rs s' t (ground arith) free'
              (enqueue-IsValid client r h s free.0 v) in
          (v', kept ∙ flying)
    ]
