-- ===== src/Redis/Leases.antt =====
-- The leases of the Redis store: a delivery is leased while it is in `inflight`.
use webhooks_engine.Prelude.{
  ℕ, ◌+◌, ◌*◌, ◌≡◌, ◌∙◌, ap, true, Option, none, some, List, Text, lookup, take, leb, arith,
  if◌then◌else◌, Bool-cases, Option-cases, inl, inr,
}
use webhooks_engine.Types.{DateTime}
use webhooks_engine.Contract.Queue.{Mark, to_sent, to_dead, to_retry, has}
use webhooks_engine.Redis.Hash.{to_ms}
use webhooks_engine.Redis.Defs.{Redis, Client, zrangebyscore, claim_script, reclaim_script}
use webhooks_engine.Redis.Methods.{claim_batch, reclaim_stale, mark_sent, schedule_retry, mark_dead}
use webhooks_engine.Redis.Scripts.{
  has-zrangebyscore, has-take, lookup-move_all, move_all-IsDistinct,
}
use webhooks_engine.Redis.Sets.{IsValid, SameSets-IsValid, claim_batch-SameSets}

abbrev pub lease_of : Text → Redis → Option ℕ
lease_of k s = lookup k s.inflight

abbrev pub until : Client → DateTime → ℕ → ℕ
until client now ttl = to_ms client.codec now + ttl * 1000

-- The ids that the claim script of a `claim_batch` moves.
abbrev pub moved : Client → DateTime → ℕ → Redis → List Text
moved client now n s = take n (zrangebyscore (to_ms client.codec now) s.ready)

abbrev pub claim : Client → DateTime → ℕ → ℕ → Redis → List Text × Redis
claim client now ttl n s = (moved client now n s, (claim_batch client now ttl n s).1)

abbrev pub mark : Client → Text → Mark → Redis → Redis
mark client k (to_sent a) s = mark_sent client k a s
mark client k (to_dead a) s = mark_dead client k a s
mark client k (to_retry at a) s = schedule_retry client k at a s

script_IsValid :
    (now_ms lease n : ℕ) (s : Redis) → IsValid s → IsValid (claim_script now_ms lease n s).1
unfolding claim_script
script_IsValid now_ms lease n s v =
    let ids = take n (zrangebyscore now_ms s.ready) in
    let (d, e) =
      move_all-IsDistinct ids lease s.ready s.inflight v.ready_distinct v.inflight_distinct in
    record {
      ready_distinct = d;
      inflight_distinct = e;
      disjoint = λ k f g.
          let (left, right) = lookup-move_all k ids lease s.ready s.inflight in
          ground (arith, v.disjoint k f, Bool-cases (has k ids));
    }

pub claim_IsValid_lem :
    (client : Client) (now : DateTime) (ttl n : ℕ) (s : Redis)
    → IsValid s
    → IsValid (claim_batch client now ttl n s).1
claim_IsValid_lem client now ttl n s v =
    SameSets-IsValid _ _ (claim_batch-SameSets client now ttl n s)
      (script_IsValid (to_ms client.codec now) (until client now ttl) n s v)

pub reclaim_IsValid_lem :
    (client : Client) (now : DateTime) (s : Redis)
    → IsValid s
    → IsValid (reclaim_stale client now s).1
unfolding reclaim_stale reclaim_script
reclaim_IsValid_lem client now s v =
    let now_ms = to_ms client.codec now in
    let ids = zrangebyscore now_ms s.inflight in
    let (d, e) =
      move_all-IsDistinct ids now_ms s.inflight s.ready v.inflight_distinct v.ready_distinct in
    record {
      ready_distinct = e;
      inflight_distinct = d;
      disjoint = λ k f g.
          let (left, right) = lookup-move_all k ids now_ms s.inflight s.ready in
          ground (arith, v.disjoint k f, Bool-cases (has k ids));
    }

pub claim_free_lem :
    (client : Client) (now : DateTime) (n : ℕ) (s : Redis) (k : Text)
    → IsValid s
    → has k (moved client now n s) ≡ true
    → lease_of k s ≡ none
claim_free_lem client now n s k v h =
    let now_ms = to_ms client.codec now in
    elim (Option-cases (lookup k s.inflight)) [
      | inl free ↦ free
      | inr (e, leased) ↦ ground (
        arith,
        v.disjoint k e leased,
        has-take k n (zrangebyscore now_ms s.ready) h,
        has-zrangebyscore k now_ms s.ready v.ready_distinct,
      )
    ]

pub claim_takes_lem :
    (client : Client) (now : DateTime) (ttl n : ℕ) (s : Redis) (k : Text)
    → lease_of k (claim_batch client now ttl n s).1
      ≡ (if has k (moved client now n s) then some (until client now ttl) else lease_of k s)
unfolding claim_script
claim_takes_lem client now ttl n s k =
    ap (lookup k) ((claim_batch-SameSets client now ttl n s).1)
    ∙ (lookup-move_all k (moved client now n s) (until client now ttl) s.ready s.inflight).1

pub reclaim_keeps_lem :
    (client : Client) (now : DateTime) (s : Redis) (k : Text) (e : ℕ)
    → IsValid s
    → lease_of k s ≡ some e
    → lease_of k (reclaim_stale client now s).1
      ≡ (if leb e (to_ms client.codec now) then none else some e)
unfolding reclaim_stale reclaim_script
reclaim_keeps_lem client now s k e v h =
    let now_ms = to_ms client.codec now in
    let ids = zrangebyscore now_ms s.inflight in
    let left = (lookup-move_all k ids now_ms s.inflight s.ready).0 in
    ground
      (arith, has-zrangebyscore k now_ms s.inflight v.inflight_distinct, Bool-cases (has k ids))
