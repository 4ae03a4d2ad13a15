-- ===== src/Redis/Queue.antt =====
-- The Redis delivery store as a `LeaseQueue`.
use webhooks_engine.Prelude.{
  ℕ, ◌≡◌, refl, sym, ◌∙◌, ap, subst, true, false, none, List, Text, text_eq, lookup, insert, erase,
  lookup-insert, lookup-erase, IsDistinct, insert-IsDistinct, erase-IsDistinct, leb, All, arith,
  if◌then◌else◌, Option-cases, inl, inr,
}
use webhooks_engine.Types.{DateTime, DeliveryRecord}
use webhooks_engine.Contract.Queue.{Mark, to_sent, to_dead, to_retry, LeaseQueue, has}
use webhooks_engine.Contract.Runs.{Run, Run-exclusive}
use webhooks_engine.Redis.Hash.{to_ms}
use webhooks_engine.Redis.Defs.{Redis, Client, hset, pipeline, enqueue_many}
use webhooks_engine.Redis.Methods.{
  claim_batch, reclaim_stale, append_attempt, mark_sent, schedule_retry, mark_dead,
}
use webhooks_engine.Redis.Sets.{
  IsValid, SameSets-IsValid, append_attempt-SameSets, pipeline-IsValid,
}
use webhooks_engine.Redis.Leases.{
  lease_of, until, moved, claim, mark, claim_IsValid_lem, reclaim_IsValid_lem, claim_free_lem,
  claim_takes_lem, reclaim_keeps_lem,
}

erased-IsValid :
    (k : Text) (s t : Redis)
    → t.ready ≡ erase k s.ready
    → t.inflight ≡ erase k s.inflight
    → IsValid s
    → IsValid t
erased-IsValid k s t ready flying v = record {
  ready_distinct = subst IsDistinct (sym ready) (erase-IsDistinct k s.ready v.ready_distinct);
  inflight_distinct =
      subst IsDistinct (sym flying) (erase-IsDistinct k s.inflight v.inflight_distinct);
  disjoint = λ j e h.
      ground (
        arith,
        ready,
        flying,
        v.disjoint j e,
        lookup-erase j k s.ready,
        lookup-erase j k s.inflight,
      );
}

retried-IsValid :
    (k : Text) (fire_at_ms : ℕ) (s t : Redis)
    → t.ready ≡ insert k fire_at_ms s.ready
    → t.inflight ≡ erase k s.inflight
    → IsValid s
    → IsValid t
retried-IsValid k fire_at_ms s t ready flying v = record {
  ready_distinct =
      subst IsDistinct (sym ready) (insert-IsDistinct k fire_at_ms s.ready v.ready_distinct);
  inflight_distinct =
      subst IsDistinct (sym flying) (erase-IsDistinct k s.inflight v.inflight_distinct);
  disjoint = λ j e h. ground (
    arith,
    ready,
    flying,
    v.disjoint j e,
    lookup-insert j k fire_at_ms s.ready,
    lookup-erase j k s.inflight,
  );
}

pub mark_IsValid_lem :
    (client : Client) (k : Text) (m : Mark) (s : Redis) → IsValid s → IsValid (mark client k m s)
unfolding mark_sent mark_dead schedule_retry hset
mark_IsValid_lem client k (to_sent a) s v =
    let s' = append_attempt client k a s in
    erased-IsValid k s' (mark_sent client k a s) refl refl
      (SameSets-IsValid s s' (append_attempt-SameSets client k a s) v)
mark_IsValid_lem client k (to_dead a) s v =
    let s' = append_attempt client k a s in
    erased-IsValid k s' (mark_dead client k a s) refl refl
      (SameSets-IsValid s s' (append_attempt-SameSets client k a s) v)
mark_IsValid_lem client k (to_retry at a) s v =
    let s' = append_attempt client k a s in
    retried-IsValid k (to_ms client.codec at) s' (schedule_retry client k at a s) refl refl
      (SameSets-IsValid s s' (append_attempt-SameSets client k a s) v)

pub mark_frees_lem :
    (client : Client) (j k : Text) (m : Mark) (s : Redis)
    → lease_of j (mark client k m s) ≡ (if text_eq j k then none else lease_of j s)
unfolding mark_sent mark_dead schedule_retry hset
mark_frees_lem client j k (to_sent a) s =
    lookup-erase j k _ ∙ (rw ((append_attempt-SameSets client k a s).1) refl)
mark_frees_lem client j k (to_dead a) s =
    lookup-erase j k _ ∙ (rw ((append_attempt-SameSets client k a s).1) refl)
mark_frees_lem client j k (to_retry at a) s =
    lookup-erase j k _ ∙ (rw ((append_attempt-SameSets client k a s).1) refl)

pub enqueue_IsValid_lem :
    (client : Client) (rs : List DeliveryRecord) (s : Redis)
    → All (λ r. lookup r.delivery_id s.inflight ≡ none) rs
    → IsValid s
    → let s' = (enqueue_many client rs s).1 in IsValid s' × (s'.inflight ≡ s.inflight)
unfolding enqueue_many
enqueue_IsValid_lem client rs s free v = elim (Option-cases (pipeline client rs s)) [
  | inl unsent ↦ rw (unsent, enqueue_many) (v, refl)
  | inr (t, e) ↦ rw (e, enqueue_many) (pipeline-IsValid client rs s t e free v)
]

-- The Redis store keeps the contract. A lease is over at its last millisecond.
abbrev pub redis_queue : Client → LeaseQueue Redis
redis_queue client = record {
  Locks = Unit {0};
  IsValid = IsValid;
  lease = lease_of;
  until = until client;
  is_over = λ e now. leb e (to_ms client.codec now);
  claim = λ w. claim client;
  reclaim = λ now s. (reclaim_stale client now s).1;
  mark = mark client;
  log = append_attempt client;
  Admits = λ r s. lookup r.delivery_id s.inflight ≡ none;
  enqueue = λ rs s. (enqueue_many client rs s).1;
  claim_IsValid = λ w. claim_IsValid_lem client;
  reclaim_IsValid = reclaim_IsValid_lem client;
  mark_IsValid = mark_IsValid_lem client;
  log_IsValid = λ k a s. SameSets-IsValid s _ (append_attempt-SameSets client k a s);
  enqueue_IsValid = λ rs s fresh v. (enqueue_IsValid_lem client rs s fresh v).0;
  claim_free = λ w now ttl n s k. claim_free_lem client now n s k;
  claim_takes = λ w now ttl n s k v. claim_takes_lem client now ttl n s k;
  reclaim_keeps = reclaim_keeps_lem client;
  mark_frees = λ j k m s v. mark_frees_lem client j k m s;
  log_keeps = λ j k a s v. ap (lookup j) ((append_attempt-SameSets client k a s).1);
  enqueue_keeps = λ j rs s fresh v. ap (lookup j) ((enqueue_IsValid_lem client rs s fresh v).1);
}

-- From a valid Redis store: once a claim has moved `k` to `inflight`, no claim moves it again,
-- after any sequence of calls by any workers in which `k` is not marked, no reclaim comes at or
-- after the last millisecond of the lease, and nothing is enqueued that is in `inflight`.
pub redis-exclusive :
    (client : Client) (now now' : DateTime) (ttl ttl' n n' : ℕ) (k : Text) (s t : Redis)
    → IsValid s
    → has k (moved client now n s) ≡ true
    → Run (redis_queue client) k (until client now ttl) (claim_batch client now ttl n s).1 t
    → has k (moved client now' n' t) ≡ false
redis-exclusive client = Run-exclusive (redis_queue client) tt tt
