-- ===== src/Subscriptions/RedisCalls.antt =====
-- The calls of the Redis store of subscriptions, against the contract.
use webhooks_engine.Prelude.{
  ◌≡◌, refl, ◌+◌, Text, text_eq→eq, lookup, lookup-insert, lookup-erase, Result-cases, Option-cases,
  inl, inr, arith,
}
use webhooks_engine.Prelude.Strings.{pos, negsuc}
use webhooks_engine.Types.{seconds}
use webhooks_engine.Dispatcher.Env.{grace_until}
use webhooks_engine.Subscriptions.Types.{resolve_ip, chosen, created}
use webhooks_engine.Subscriptions.Contract.{
  Call, create, delete, set_status, rotate_secret, after, IsFresh, SubscriptionStore,
}
use webhooks_engine.Subscriptions.Redis
use webhooks_engine.Subscriptions.RedisLaws.{
  IsIndexed, IsSealed, call, find, for_event_exact_lem, get_secret_exact_lem, replaced-IsIndexed,
  filled-some, chosen_filled, added-IsIndexed, removed-IsIndexed,
}

pub call_IsIndexed_lem :
    (c : Call) (s : Redis.Store) → IsFresh c (λ k. find k s) → IsIndexed s → IsIndexed (call c s)
unfolding grace_until Redis.create Redis.delete Redis.set_status Redis.rotate_secret
call_IsIndexed_lem (delete k) s fresh v = elim (Option-cases (lookup k s.rows)) [
  | inl gone ↦ rw (gone, call, Redis.delete) v
  | inr (row, e) ↦ rw (e, call, Redis.delete) (removed-IsIndexed k row s e v)
]
call_IsIndexed_lem (set_status k status) s fresh v = elim (Option-cases (lookup k s.rows)) [
  | inl gone ↦ rw (gone, call, Redis.set_status) v
  | inr (row, e) ↦
      rw (e, call, Redis.set_status)
        (replaced-IsIndexed k row (Redis.with_status status row) s e refl refl refl
          (v.secrets k row e) v)
]
call_IsIndexed_lem (rotate_secret draws k (negsuc n) secret) s fresh v =
    elim (Option-cases (lookup k s.rows)) [
      | inl gone ↦ rw (gone, call, Redis.rotate_secret) v
      | inr (row, e) ↦ rw (e, call, Redis.rotate_secret) (rw ((v.secrets k row e).0) v)
    ]
call_IsIndexed_lem (rotate_secret draws k (pos n) secret) s fresh v =
    elim (Option-cases (lookup k s.rows)) [
      | inl gone ↦ rw (gone, call, Redis.rotate_secret) v
      | inr (row, e) ↦
          let new = chosen secret draws.token in
          let row' = Redis.rotated new (draws.now + seconds n) row in
          let sealed : IsSealed row' = (
            chosen_filled secret draws.token fresh,
            filled-some row.sub.secret (v.secrets k row e).0,
          ) in
          rw (e, call, Redis.rotate_secret)
            (rw ((v.secrets k row e).0) (replaced-IsIndexed k row row' s e refl refl refl sealed v))
    ]
call_IsIndexed_lem (create net draws owner_id url events secret) s fresh v =
    elim (Result-cases (resolve_ip net url)) [
      | inr (e, unresolved) ↦ rw (unresolved, call, Redis.create) v
      | inl (ip, resolved) ↦
          rw (resolved, call, Redis.create)
            (added-IsIndexed (created draws owner_id url events secret ip) s fresh.0
              (chosen_filled secret draws.token fresh.1) v)
    ]

pub call_finds_lem :
    (c : Call) (j : Text) (s : Redis.Store)
    → IsFresh c (λ k. find k s)
    → IsIndexed s
    → find j (call c s) ≡ after c j (find j s)
unfolding grace_until Redis.create Redis.delete Redis.set_status Redis.rotate_secret
call_finds_lem (delete k) j s fresh v = elim (Option-cases (lookup k s.rows)) [
  | inl gone ↦ rw (gone, call, Redis.delete) (ground (arith, text_eq→eq j k))
  | inr (row, e) ↦ rw (e, call, Redis.delete) (lookup-erase j k s.rows)
]
call_finds_lem (set_status k status) j s fresh v = elim (Option-cases (lookup k s.rows)) [
  | inl gone ↦ rw (gone, call, Redis.set_status) (ground (arith, text_eq→eq j k))
  | inr (row, e) ↦
      rw (e, call, Redis.set_status)
        (ground (arith, lookup-insert j k (Redis.with_status status row) s.rows, text_eq→eq j k))
]
call_finds_lem (rotate_secret draws k (negsuc n) secret) j s fresh v =
    elim (Option-cases (lookup k s.rows)) [
      | inl gone ↦ rw (gone, call, Redis.rotate_secret) refl
      | inr (row, e) ↦ rw (e, call, Redis.rotate_secret) (rw ((v.secrets k row e).0) refl)
    ]
call_finds_lem (rotate_secret draws k (pos n) secret) j s fresh v =
    elim (Option-cases (lookup k s.rows)) [
      | inl gone ↦ rw (gone, call, Redis.rotate_secret) (ground (arith, text_eq→eq j k))
      | inr (row, e) ↦
          let row' = Redis.rotated (chosen secret draws.token) (draws.now + seconds n) row in
          rw (e, call, Redis.rotate_secret)
            (rw ((v.secrets k row e).0)
              (ground (arith, lookup-insert j k row' s.rows, text_eq→eq j k)))
    ]
call_finds_lem (create net draws owner_id url events secret) j s fresh v =
    elim (Result-cases (resolve_ip net url)) [
      | inr (e, unresolved) ↦ rw (unresolved, call, after, Redis.create) refl
      | inl (ip, resolved) ↦
          let sub = created draws owner_id url events secret ip in
          rw (resolved, call, after, Redis.create)
            (ground (
              arith,
              lookup-insert j draws.uuid (Redis.written sub (lookup draws.uuid s.rows)) s.rows,
              fresh.0,
            ))
    ]

-- The Redis store keeps the contract.
abbrev pub redis_subscriptions : SubscriptionStore Redis.Store
redis_subscriptions = record {
  IsValid = IsIndexed;
  find = find;
  for_event = Redis.for_event;
  get_secret = Redis.get_secret;
  call = call;
  call_IsValid = call_IsIndexed_lem;
  call_finds = call_finds_lem;
  for_event_exact = for_event_exact_lem;
  get_secret_exact = get_secret_exact_lem;
}
