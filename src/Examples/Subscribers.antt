-- ===== src/Examples/Subscribers.antt =====
-- The two stores of subscriptions under calls on concrete data.
use webhooks_engine.Prelude.{
  ◌+◌, ◌≡◌, refl, Option, none, some, List, [], ◌∷◌, Text, codes, text_eq, lookup, insert,
  if◌then◌else◌, ok,
}
use webhooks_engine.Prelude.Strings.{pos}
use webhooks_engine.Types.{seconds}
use webhooks_engine.Contract.Queue.{has}
use webhooks_engine.Dispatcher.Env.{SecretMaterial}
use webhooks_engine.Subscriptions.Types.{Net, Draws, resolve_ip, paused, ids_of}
use webhooks_engine.Subscriptions.Contract.{
  Call, create, delete, set_status, rotate_secret, call_all, AreFresh,
}
use webhooks_engine.Subscriptions.RedisLaws.{IsIndexed}
use webhooks_engine.Subscriptions.RedisCalls.{redis_subscriptions, call_IsIndexed_lem}
use webhooks_engine.Subscriptions.PgLaws.{pg_subscriptions}
use webhooks_engine.Subscriptions.Stores.{
  empty, empty-Agree, stores-serve, rotate_secret-get_secret,
}
use webhooks_engine.Subscriptions.Redis
use webhooks_engine.Subscriptions.Pg

abbrev net : Net
net = record {
  hostname = λ url. some (codes "a.example");
  getaddrinfo = λ host. ok (codes "8.8.8.8" ∷ []);
}

abbrev draws : Text → Draws
draws uuid = record { uuid = uuid; token = codes "t"; now = 5 }

abbrev added : Call
added =
    create net (draws (codes "s1")) (codes "me") (codes "https://a.example") (codes "paid" ∷ [])
      none

abbrev calls : List Call
calls =
    added
    ∷ create net (draws (codes "s2")) (codes "you") (codes "https://a.example") (codes "paid" ∷ [])
        none
    ∷ set_status (codes "s2") paused
    ∷ rotate_secret (draws []) (codes "s1") (pos 60) (some (codes "new"))
    ∷ delete (codes "s2")
    ∷ []

calls-AreFresh : AreFresh redis_subscriptions calls empty
unfolding AreFresh Redis.create resolve_ip lookup insert text_eq
calls-AreFresh = ((refl, refl), ((refl, refl), (tt, (refl, (tt, tt)))))

abbrev cipher : Pg.Cipher
cipher = record { seal = λ t. 7 ∷ t; open_ = unsealed }
  where
    unsealed : Text → Text
    unsealed [] = []
    unsealed (c ∷ t) = t

stores-serve_example :
    let s = call_all redis_subscriptions calls empty in
    let rows = call_all (pg_subscriptions cipher (λ t. refl)) calls [] in
    (has (codes "s1") (ids_of (Redis.for_event (codes "paid") none s))
      ≡ has (codes "s1") (ids_of (Pg.for_event (codes "paid") none rows)))
    × (Redis.get_secret (codes "s1") s ≡ Pg.get_secret cipher (codes "s1") rows)
stores-serve_example =
    stores-serve cipher (λ t. refl) calls (codes "s1") (codes "paid") none calls-AreFresh

abbrev one : Redis.Store
one =
    (Redis.create net (draws (codes "s1")) (codes "me") (codes "https://a.example")
      (codes "paid" ∷ []) none empty).1

one-IsIndexed : IsIndexed one
unfolding lookup
one-IsIndexed = call_IsIndexed_lem added empty (refl, refl) (empty-Agree cipher (λ t. refl)).left

abbrev material : SecretMaterial
material = record { current = codes "t"; previous = none; previous_expires_at = none }

one-secret : Redis.get_secret (codes "s1") one ≡ ok material
unfolding Redis.get_secret Redis.create resolve_ip lookup insert text_eq
one-secret = refl

rotate_secret-get_secret_example :
    let (r, s') = Redis.rotate_secret (draws []) (codes "s1") (pos 60) none one in
    let m' : SecretMaterial = record {
      current = codes "t";
      previous = some (codes "t");
      previous_expires_at = some (5 + seconds 60);
    } in
    (r ≡ ok m')
    × (Redis.get_secret (codes "s1") s'
        ≡ (if text_eq (codes "s1") (codes "s1") then ok m' else Redis.get_secret (codes "s1") one))
    × ((event_name : Text) (tenant_id : Option Text)
        → has (codes "s1") (ids_of (Redis.for_event event_name tenant_id s'))
          ≡ has (codes "s1") (ids_of (Redis.for_event event_name tenant_id one)))
rotate_secret-get_secret_example =
    rotate_secret-get_secret (draws []) (codes "s1") (codes "s1") 60 none one material one-IsIndexed
      refl one-secret
