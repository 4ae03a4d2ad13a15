-- ===== src/Examples/Deliveries.antt =====
-- The delivery store on three records.
use webhooks_engine.Prelude.{
  inl, arith, ◌≤◌, ◌⊎◌, insert, text_eq, values, filter, ltb, ◌≡◌, refl, true, none, some, [], ◌∷◌,
  codes, lookup, arith, ok, All, In, length, if◌then◌else◌,
}
use webhooks_engine.Store.Defs.{
  new, enqueue, claimable, claim_batch, claim_batch, ready, sort_by_fire_at, insert_by_fire_at,
  lease, lease_all, reclaim_stale,
}
use webhooks_engine.Store.Invariant.{IsValid, new-IsValid, enqueue-IsValid}
use webhooks_engine.Store.Claim.{claim_batch-IsDue, claim_batch-fair, IsDue, listed}
use webhooks_engine.Store.Order.{IsSorted}
use webhooks_engine.Store.Reclaim.{
  reclaim_stale-expired, reclaim_stale-claim_batch, has_expired, pending_option,
}
use webhooks_engine.Examples.Setup.{first, inward, lost, store}

pub store-IsValid : IsValid store
store-IsValid =
    enqueue-IsValid lost _ refl
      (enqueue-IsValid inward _ refl (enqueue-IsValid first _ refl new-IsValid))

store-first : lookup (codes "a") store.records ≡ some first
unfolding enqueue new lookup insert text_eq
store-first = refl

-- The two that fire first are handed out, the earlier one first; the next claim gets the third.
claim_batch-test :
    let (batch, s') = claim_batch 5 30 2 store in
    (batch ≡ lost ∷ inward ∷ []) × ((claim_batch 5 30 2 s').0 ≡ first ∷ [])
unfolding claim_batch ready sort_by_fire_at insert_by_fire_at claimable lease_all lease enqueue new
    lookup insert text_eq
claim_batch-test = (refl, refl)

pub store-claimed : listed (codes "b") (claim_batch 5 30 2 store).0 ≡ true
unfolding claim_batch ready sort_by_fire_at insert_by_fire_at claimable lease_all lease enqueue new
    lookup insert text_eq
store-claimed = refl

claim_batch-IsDue_example :
    let batch = (claim_batch 5 30 2 store).0 in
    (length batch ≤ 2) × IsSorted batch × All (IsDue 5 store) batch
claim_batch-IsDue_example = claim_batch-IsDue 5 30 2 store store-IsValid

claim_batch-fair_example :
    let batch = (claim_batch 5 30 2 store).0 in
    In first batch ⊎ ((length batch ≡ 2) × All (λ x. x.fire_at ≤ 3) batch)
claim_batch-fair_example =
    claim_batch-fair 5 30 2 store (codes "a") first store-first (inl refl) (omega arith)

reclaim_stale-expired_example :
    let (r, s') = reclaim_stale 9 store in
    let gone = has_expired 9 (lookup (codes "a") store.lease_expiry) in
    (r ≡ ok (length (filter (λ e. ltb e 9) (values store.lease_expiry))))
    × (lookup (codes "a") s'.records ≡ (
        if gone
        then pending_option (lookup (codes "a") store.records)
        else lookup (codes "a") store.records))
    × (lookup (codes "a") s'.lease_expiry
        ≡ (if gone then none else lookup (codes "a") store.lease_expiry))
reclaim_stale-expired_example = reclaim_stale-expired 9 store (codes "a") store-IsValid

reclaim_stale-claim_batch_example :
    let (batch, s') = claim_batch 5 30 2 store in
    lookup (codes "b") (reclaim_stale 31_000_000 s').1.records
    ≡ pending_option (lookup (codes "b") store.records)
reclaim_stale-claim_batch_example =
    reclaim_stale-claim_batch 5 31_000_000 30 2 store (codes "b") store-IsValid (omega arith)
      store-claimed
