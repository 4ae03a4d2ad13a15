-- ===== src/Subscriptions/Stores.antt =====
-- The two stores of subscriptions from their empty states, and what a rotation leaves.
use webhooks_engine.Prelude.{
  ℕ, ◌+◌, ◌≡◌, refl, false, Option, some, List, [], Text, text_eq, text_eq→eq, lookup, is_empty,
  if◌then◌else◌, ok, Option-cases, inl, inr, arith,
}
use webhooks_engine.Prelude.Strings.{pos}
use webhooks_engine.Types.{seconds}
use webhooks_engine.Contract.Queue.{has}
use webhooks_engine.Dispatcher.Env.{SecretMaterial, grace_until}
use webhooks_engine.Subscriptions.Types.{Draws, chosen, ids_of}
use webhooks_engine.Subscriptions.Contract.{Call, rotate_secret, call_all, AreFresh}
use webhooks_engine.Subscriptions.Agreement.{Agree, call_all-serves}
use webhooks_engine.Subscriptions.RedisLaws.{
  IsIndexed, call, get_secret_exact_lem, for_event_exact_lem,
}
use webhooks_engine.Subscriptions.RedisCalls.{
  redis_subscriptions, call_finds_lem, call_IsIndexed_lem,
}
use webhooks_engine.Subscriptions.PgLaws.{pg_subscriptions}
use webhooks_engine.Subscriptions.Redis
use webhooks_engine.Subscriptions.Pg

abbrev pub empty : Redis.Store
empty = record { rows = []; owners = []; events = [] }

pub empty-Agree :
    (cipher : Pg.Cipher) (opens : (t : Text) → cipher.open_ (cipher.seal t) ≡ t)
    → Agree redis_subscriptions (pg_subscriptions cipher opens) empty []
unfolding lookup Redis.members
empty-Agree cipher opens = record {
  left = record {
    keyed = λ k row h. absurd (ground arith);
    secrets = λ k row h. absurd (ground arith);
    by_event = λ k name. refl;
    by_owner = λ k owner_id. refl;
  };
  right = record { distinct = tt; keyed = λ k row h. absurd (ground arith) };
  same = λ k. refl;
}

-- With a cipher that opens what it seals: after the same calls from their empty states, each of
-- which draws a new id and a token that is not empty, the Redis and the Postgres store serve the
-- same ids for each event and tenant, and give the same secrets.
pub stores-serve :
    (cipher : Pg.Cipher) (opens : (t : Text) → cipher.open_ (cipher.seal t) ≡ t) (cs : List Call)
    (k event_name : Text) (tenant_id : Option Text)
    → AreFresh redis_subscriptions cs empty
    → let s = call_all redis_subscriptions cs empty in
      let rows = call_all (pg_subscriptions cipher opens) cs [] in
      (has k (ids_of (Redis.for_event event_name tenant_id s))
        ≡ has k (ids_of (Pg.for_event event_name tenant_id rows)))
      × (Redis.get_secret k s ≡ Pg.get_secret cipher k rows)
stores-serve cipher opens cs k event_name tenant_id fresh =
    call_all-serves redis_subscriptions (pg_subscriptions cipher opens) cs empty [] k event_name
      tenant_id fresh (empty-Agree cipher opens)

-- In a state that is indexed: a rotation of a known id with a grace that is not negative, and a
-- token that is not empty, returns the material that is read afterwards, with the new secret, and
-- the old one until the end of the grace; the ids served stay the same, and so does each other
-- secret.
pub rotate_secret-get_secret :
    (draws : Draws) (j k : Text) (grace_s : ℕ) (secret : Option Text) (s : Redis.Store)
    (m : SecretMaterial)
    → IsIndexed s
    → is_empty draws.token ≡ false
    → Redis.get_secret k s ≡ ok m
    → let (r, s') = Redis.rotate_secret draws k (pos grace_s) secret s in
      let m' : SecretMaterial = record {
        current = chosen secret draws.token;
        previous = some m.current;
        previous_expires_at = some (draws.now + seconds grace_s);
      } in
      (r ≡ ok m')
      × (Redis.get_secret j s' ≡ (if text_eq j k then ok m' else Redis.get_secret j s))
      × ((event_name : Text) (tenant_id : Option Text)
          → has j (ids_of (Redis.for_event event_name tenant_id s'))
            ≡ has j (ids_of (Redis.for_event event_name tenant_id s)))
unfolding grace_until Redis.rotate_secret
rotate_secret-get_secret draws j k grace_s secret s m v token known =
    let c = rotate_secret draws k (pos grace_s) secret in
    let s' = call c s in
    let v' = call_IsIndexed_lem c s token v in
    let finds = call_finds_lem c j s token v in
    elim (Option-cases (lookup k s.rows)) [
      | inl gone ↦ absurd (ground (arith, get_secret_exact_lem k s v))
      | inr (row, e) ↦
          let old : row.sub.secret ≡ m.current = ground (arith, get_secret_exact_lem k s v) in
          (
            rw (e, Redis.rotate_secret) (rw ((v.secrets k row e).0) (rw old refl)),
            ground (
              arith,
              get_secret_exact_lem j s' v',
              get_secret_exact_lem j s v,
              finds,
              text_eq→eq j k,
            ),
            λ event_name tenant_id. ground (
              arith,
              for_event_exact_lem j event_name tenant_id s' v',
              for_event_exact_lem j event_name tenant_id s v,
              finds,
              text_eq→eq j k,
              Option-cases (lookup j s.rows),
            ),
          )
    ]
