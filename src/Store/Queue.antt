-- ===== src/Store/Queue.antt =====
-- The in-memory delivery store as a `LeaseQueue`.
use webhooks_engine.Prelude.{
  ℕ, ◌+◌, ◌≡◌, refl, sym, ◌∙◌, true, false, Option, none, some, List, [], ◌∷◌, Text, text_eq,
  text_eq→eq, lookup, ltb, map, All, arith, if◌then◌else◌, Bool-cases, Option-cases, inl, inr,
}
use webhooks_engine.Types.{is_in_flight, DateTime, DeliveryRecord, AttemptRecord, seconds}
use webhooks_engine.Store.Defs.{
  Store, enqueue, enqueue_many, mark_sent, schedule_retry, mark_dead, append_attempt, claim_batch,
  reclaim_stale,
}
use webhooks_engine.Store.Invariant.{
  IsValid, flying, mark_sent-IsValid, schedule_retry-IsValid, mark_dead-IsValid,
  append_attempt-IsValid,
}
use webhooks_engine.Store.Claim.{
  IsDue, listed, claim_batch-IsDue, claim_batch-leases, claim_batch-IsValid,
}
use webhooks_engine.Store.Reclaim.{reclaim_stale-expired, reclaim_stale-IsValid}
use webhooks_engine.Store.Marks.{
  Settles, mark_sent-Settles, schedule_retry-Settles, mark_dead-Settles, records-append_attempt,
  enqueue_many-IsValid,
}
use webhooks_engine.Contract.Runs.{Run, Run-exclusive}
use webhooks_engine.Contract.Queue.{Mark, to_sent, to_dead, to_retry, LeaseQueue, has}

abbrev pub lease_of : Text → Store → Option ℕ
lease_of k s = lookup k s.lease_expiry

abbrev pub ids_of : List DeliveryRecord → List Text
ids_of = map (λ r. r.delivery_id)

abbrev pub claim : DateTime → ℕ → ℕ → Store → List Text × Store
claim now ttl n s = let (batch, s') = claim_batch now ttl n s in (ids_of batch, s')

abbrev pub mark : Text → Mark → Store → Store
mark k (to_sent a) s = (mark_sent k a s).1
mark k (to_dead a) s = (mark_dead k a s).1
mark k (to_retry at a) s = (schedule_retry k at a s).1

pub has-ids_of : (k : Text) (batch : List DeliveryRecord) → has k (ids_of batch) ≡ listed k batch
has-ids_of k [] = refl
has-ids_of k (r ∷ batch) = ground (arith, has-ids_of k batch)

pub IsDue-flying :
    (now : DateTime) (s : Store) (k : Text) (batch : List DeliveryRecord)
    → All (IsDue now s) batch
    → listed k batch ≡ true
    → flying (lookup k s.records) ≡ false
IsDue-flying now s k [] h e = absurd (ground arith)
IsDue-flying now s k (r ∷ batch) h e = elim (Bool-cases (text_eq k r.delivery_id)) [
  | inl here ↦ ground (arith, text_eq→eq k r.delivery_id)
  | inr there ↦ IsDue-flying now s k batch h.1 (ground arith)
]

pub Settles-frees :
    (j k : Text) (f : DeliveryRecord → DeliveryRecord) (a : AttemptRecord) (s : Store) (ended : _)
    → IsValid s
    → Settles k f a s ended
    → lease_of j ended.1 ≡ (if text_eq j k then none else lease_of j s)
Settles-frees j k f a s ended v h = elim (Option-cases (lookup k s.records)) [
  | inl gone ↦ ground (arith, (h.1 gone).1, v.leased k, text_eq→eq j k)
  | inr (r, e) ↦
      let l = (h.0 r e).1 in
      elim (Bool-cases (text_eq j k)) [
        | inl same ↦ ground (arith, l.unleased, text_eq→eq j k)
        | inr other ↦ ground (arith, l.other_leases j other)
      ]
]

pub enqueue_many-leases :
    (rs : List DeliveryRecord) (s : Store) → (enqueue_many rs s).lease_expiry ≡ s.lease_expiry
unfolding enqueue_many enqueue
enqueue_many-leases [] s = refl
enqueue_many-leases (r ∷ rs) s = ground (arith, enqueue_many-leases rs (enqueue r s))

pub mark_IsValid_lem : (k : Text) (m : Mark) (s : Store) → IsValid s → IsValid (mark k m s)
mark_IsValid_lem k (to_sent a) s v = mark_sent-IsValid k a s v
mark_IsValid_lem k (to_dead a) s v = mark_dead-IsValid k a s v
mark_IsValid_lem k (to_retry at a) s v = schedule_retry-IsValid k at a s v

pub mark_frees_lem :
    (j k : Text) (m : Mark) (s : Store)
    → IsValid s
    → lease_of j (mark k m s) ≡ (if text_eq j k then none else lease_of j s)
mark_frees_lem j k (to_sent a) s v = Settles-frees j k _ a s _ v (mark_sent-Settles k a s v)
mark_frees_lem j k (to_dead a) s v = Settles-frees j k _ a s _ v (mark_dead-Settles k a s v)
mark_frees_lem j k (to_retry at a) s v =
    Settles-frees j k _ a s _ v (schedule_retry-Settles k at a s v)

pub claim_free_lem :
    (now : DateTime) (ttl n : ℕ) (s : Store) (k : Text)
    → IsValid s
    → has k (claim now ttl n s).0 ≡ true
    → lease_of k s ≡ none
claim_free_lem now ttl n s k v h =
    let batch = (claim_batch now ttl n s).0 in
    ground (
      arith,
      IsDue-flying now s k batch (claim_batch-IsDue now ttl n s v).2,
      has-ids_of k batch,
      v.leased k,
    )

pub claim_takes_lem :
    (now : DateTime) (ttl n : ℕ) (s : Store) (k : Text)
    → IsValid s
    → let (ids, s') = claim now ttl n s in
      lease_of k s' ≡ (if has k ids then some (now + seconds ttl) else lease_of k s)
claim_takes_lem now ttl n s k v =
    let batch = (claim_batch now ttl n s).0 in
    ground (arith, has-ids_of k batch, claim_batch-leases now ttl n s k v)

pub reclaim_keeps_lem :
    (now : DateTime) (s : Store) (k : Text) (e : ℕ)
    → IsValid s
    → lease_of k s ≡ some e
    → lease_of k (reclaim_stale now s).1 ≡ (if ltb e now then none else some e)
reclaim_keeps_lem now s k e v h = ground (arith, reclaim_stale-expired now s k v)

-- The in-memory store keeps the contract.
abbrev pub memory_queue : LeaseQueue Store
memory_queue = record {
  Locks = Unit {0};
  IsValid = IsValid;
  lease = lease_of;
  until = λ now ttl. now + seconds ttl;
  is_over = λ e now. ltb e now;
  claim = λ w. claim;
  reclaim = λ now s. (reclaim_stale now s).1;
  mark = mark;
  log = append_attempt;
  Admits = λ r s. is_in_flight r.status ≡ false;
  enqueue = enqueue_many;
  claim_IsValid = λ w. claim_batch-IsValid;
  reclaim_IsValid = reclaim_stale-IsValid;
  mark_IsValid = mark_IsValid_lem;
  log_IsValid = append_attempt-IsValid;
  enqueue_IsValid = λ rs s fresh. enqueue_many-IsValid rs s fresh;
  claim_free = λ w. claim_free_lem;
  claim_takes = λ w. claim_takes_lem;
  reclaim_keeps = reclaim_keeps_lem;
  mark_frees = mark_frees_lem;
  log_keeps = λ j k a s v. rw ((records-append_attempt k a s).1) refl;
  enqueue_keeps = λ j rs s fresh v. rw (enqueue_many-leases rs s) refl;
}

-- From a valid in-memory store: once a claim has handed out `k`, no claim hands it out again,
-- after any sequence of calls by any workers in which `k` is not marked, no reclaim finds the
-- lease over, and no record is enqueued that says IN_FLIGHT, while one whose id is leased may be
-- enqueued again.
pub memory-exclusive :
    (now now' : DateTime) (ttl ttl' n n' : ℕ) (k : Text) (s t : Store)
    → IsValid s
    → listed k (claim_batch now ttl n s).0 ≡ true
    → Run memory_queue k (now + seconds ttl) (claim_batch now ttl n s).1 t
    → listed k (claim_batch now' ttl' n' t).0 ≡ false
memory-exclusive now now' ttl ttl' n n' k s t v taken r =
    sym (has-ids_of k (claim_batch now' ttl' n' t).0)
    ∙ Run-exclusive memory_queue tt tt now now' ttl ttl' n n' k s t v
        (has-ids_of k (claim_batch now ttl n s).0 ∙ taken) r
