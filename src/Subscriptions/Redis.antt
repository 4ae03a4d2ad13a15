-- ===== src/Subscriptions/Redis.antt =====
-- `RedisSubscriptionStore` of service/subscription_store.py: the hashes of the subscriptions, and
-- the sets of ids of each owner and each event. A set is a list without order that matters; a
-- pipeline is one step.
use webhooks_engine.Prelude.{
  Bool, true, false, not, ◌&&◌, Option, none, some, List, [], ◌∷◌, ◌++◌, Text, text_eq, Dict,
  lookup, insert, erase, filter, is_empty, if◌then◌else◌, Result, ok, err, Fault, key_error,
}
use webhooks_engine.Prelude.Strings.{ℤ}
use webhooks_engine.Types.{DateTime, SubscriptionSnapshot}
use webhooks_engine.Contract.Queue.{has}
use webhooks_engine.Dispatcher.Env.{SecretMaterial, grace_until}
use webhooks_engine.Subscriptions.Types.{
  SubscriptionStatus, is_active, Subscription, Row, Net, Draws, resolve_ip, chosen, created,
  snapshot_of, owned,
}

pub record Store : Type 0 where
  pub rows : Dict Row
  pub owners : Dict (List Text)
  pub events : Dict (List Text)

-- `SMEMBERS`, `SADD`, `SREM`; a set that is not there is empty.
unfoldable pub members : Text → Dict (List Text) → List Text
unfolding lookup
members key sets = elim (lookup key sets) [ none ↦ [] | some ids ↦ ids ]

unfoldable pub sadd : Text → Text → Dict (List Text) → Dict (List Text)
unfolding members insert
sadd key id sets =
    let ids = members key sets in insert key (if has id ids then ids else ids ++ id ∷ []) sets

unfoldable pub srem : Text → Text → Dict (List Text) → Dict (List Text)
unfolding members insert
srem key id sets = insert key (filter (λ k. not (text_eq id k)) (members key sets)) sets

unfoldable pub sadd_all : List Text → Text → Dict (List Text) → Dict (List Text)
unfolding sadd
sadd_all [] id sets = sets
sadd_all (key ∷ keys) id sets = sadd_all keys id (sadd key id sets)

unfoldable pub srem_all : List Text → Text → Dict (List Text) → Dict (List Text)
unfolding srem
srem_all [] id sets = sets
srem_all (key ∷ keys) id sets = srem_all keys id (srem key id sets)

-- The loop of `for_event` over the rows of the ids.
unfoldable pub snapshots : Option Text → List Text → Dict Row → List SubscriptionSnapshot
unfolding lookup
snapshots tenant_id [] rows = []
snapshots tenant_id (id ∷ ids) rows =
    let rest = snapshots tenant_id ids rows in
    elim (lookup id rows) [
      | none ↦ rest
      | some row ↦
          if is_active row.sub.status && owned tenant_id row.sub
          then snapshot_of row.sub ∷ rest
          else rest
    ]

unfoldable pub for_event : Text → Option Text → Store → List SubscriptionSnapshot
unfolding snapshots members
for_event event_name tenant_id s = snapshots tenant_id (members event_name s.events) s.rows

-- `_text(previous) if previous else None`
abbrev pub filled : Option Text → Option Text
filled none = none
filled (some []) = none
filled (some (c ∷ t)) = some (c ∷ t)

unfoldable pub get_secret : Text → Store → Result Fault SecretMaterial
unfolding lookup
get_secret id s = elim (lookup id s.rows) [
  | none ↦ err key_error
  | some row ↦
      if is_empty row.sub.secret
      then err key_error
      else ok (record {
        current = row.sub.secret;
        previous = filled row.previous_secret;
        previous_expires_at = row.previous_expires_at;
      })
]

-- The hash that a rotation leaves.
abbrev pub rotated : Text → DateTime → Row → Row
rotated new until row = record {
  sub = record row.sub { secret = new };
  previous_secret = some row.sub.secret;
  previous_expires_at = some until;
}

-- `rotate_secret`
unfoldable pub rotate_secret :
    Draws → Text → ℤ → Option Text → Store → Result Fault SecretMaterial × Store
unfolding lookup insert grace_until
rotate_secret draws id grace_s secret s = elim (lookup id s.rows) [
  | none ↦ (err key_error, s)
  | some row ↦
      if is_empty row.sub.secret then (err key_error, s) else elim (grace_until draws.now grace_s) [
        | err e ↦ (err e, s)
        | ok until ↦
            let new = chosen secret draws.token in
            (
              ok (record {
                current = new;
                previous = some row.sub.secret;
                previous_expires_at = some until;
              }),
              record s { rows = insert id (rotated new until row) s.rows },
            )
      ]
]

-- HSET leaves the fields that it does not name.
abbrev pub written : Subscription → Option Row → Row
written sub none = record { sub = sub; previous_secret = none; previous_expires_at = none }
written sub (some old) = record old { sub = sub }

unfoldable pub create :
    Net → Draws → Text → Text → List Text → Option Text → Store → Result Fault Subscription × Store
unfolding resolve_ip sadd sadd_all insert lookup
create net draws owner_id url events secret s = elim (resolve_ip net url) [
  | err e ↦ (err e, s)
  | ok ip ↦
      let sub = created draws owner_id url events secret ip in
      (
        ok sub,
        record {
          rows = insert sub.id (written sub (lookup sub.id s.rows)) s.rows;
          owners = sadd owner_id sub.id s.owners;
          events = sadd_all events sub.id s.events;
        },
      )
]

unfoldable pub get : Text → Store → Option Subscription
unfolding lookup
get id s = elim (lookup id s.rows) [ none ↦ none | some row ↦ some row.sub ]

unfoldable pub rows_of : List Text → Dict Row → List Subscription
unfolding lookup
rows_of [] rows = []
rows_of (id ∷ ids) rows =
    let rest = rows_of ids rows in elim (lookup id rows) [ none ↦ rest | some row ↦ row.sub ∷ rest ]

unfoldable pub list_for_owner : Text → Store → List Subscription
unfolding rows_of members
list_for_owner owner_id s = rows_of (members owner_id s.owners) s.rows

unfoldable pub delete : Text → Store → Bool × Store
unfolding lookup erase srem srem_all
delete id s = elim (lookup id s.rows) [
  | none ↦ (false, s)
  | some row ↦ (
    true,
    record {
      rows = erase id s.rows;
      owners = srem row.sub.owner_id id s.owners;
      events = srem_all row.sub.events id s.events;
    },
  )
]

abbrev pub with_status : SubscriptionStatus → Row → Row
with_status status row = record row { sub = record row.sub { status = status } }

-- `_set_status`, which `pause` and `resume` call
unfoldable pub set_status : Text → SubscriptionStatus → Store → Bool × Store
unfolding lookup insert
set_status id status s = elim (lookup id s.rows) [
  | none ↦ (false, s)
  | some row ↦ (true, record s { rows = insert id (with_status status row) s.rows })
]
