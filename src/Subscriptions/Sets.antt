-- ===== src/Subscriptions/Sets.antt =====
-- The sets of ids of the Redis store.
use webhooks_engine.Prelude.{
  ◌≡◌, refl, true, false, not, ◌&&◌, ◌||◌, List, [], ◌∷◌, ◌++◌, Text, text_eq, text_eq→eq,
  text_eq_refl, text_eq_sym, Dict, lookup, insert, lookup-insert, filter, arith, if◌then◌else◌,
  Bool-cases, Option-cases,
}
use webhooks_engine.Contract.Queue.{has}
use webhooks_engine.Subscriptions.Redis.{members, sadd, srem, sadd_all, srem_all}

has-append : (k id : Text) (ids : List Text) → has k (ids ++ id ∷ []) ≡ has k ids || text_eq k id
has-append k id [] = ground (arith, Bool-cases (text_eq k id))
has-append k id (j ∷ ids) = ground (arith, has-append k id ids)

has-without :
    (k id : Text) (ids : List Text)
    → has k (filter (λ j. not (text_eq id j)) ids) ≡ not (text_eq k id) && has k ids
has-without k id [] = ground (arith, Bool-cases (text_eq k id))
has-without k id (j ∷ ids) = ground (
  arith,
  has-without k id ids,
  text_eq→eq k j,
  text_eq→eq id j,
  text_eq→eq k id,
  text_eq_refl k,
  text_eq_sym k id,
  Bool-cases (text_eq id j),
)

members-insert :
    (key key' : Text) (ids : List Text) (sets : Dict (List Text))
    → members key (insert key' ids sets) ≡ (if text_eq key key' then ids else members key sets)
unfolding members
members-insert key key' ids sets =
    ground (arith, lookup-insert key key' ids sets, Option-cases (lookup key sets))

pub has-sadd :
    (k id key key' : Text) (sets : Dict (List Text))
    → has k (members key (sadd key' id sets))
      ≡ (if text_eq key key' && text_eq k id then true else has k (members key sets))
unfolding sadd
has-sadd k id key key' sets =
    let ids = members key' sets in
    ground (
      arith,
      members-insert key key' (if has id ids then ids else ids ++ id ∷ []) sets,
      has-append k id ids,
      text_eq→eq key key',
      text_eq→eq k id,
      Bool-cases (has id ids),
      Bool-cases (text_eq k id),
      Bool-cases (has k ids),
    )

pub has-srem :
    (k id key key' : Text) (sets : Dict (List Text))
    → has k (members key (srem key' id sets))
      ≡ (if text_eq key key' && text_eq k id then false else has k (members key sets))
unfolding srem
has-srem k id key key' sets = ground (
  arith,
  members-insert key key' (filter (λ j. not (text_eq id j)) (members key' sets)) sets,
  has-without k id (members key' sets),
  text_eq→eq key key',
  Bool-cases (text_eq key key'),
)

pub has-sadd_all :
    (k id key : Text) (keys : List Text) (sets : Dict (List Text))
    → has k (members key (sadd_all keys id sets))
      ≡ (if has key keys && text_eq k id then true else has k (members key sets))
unfolding sadd_all
has-sadd_all k id key [] sets = refl
has-sadd_all k id key (key' ∷ keys) sets =
    ground (arith, has-sadd_all k id key keys (sadd key' id sets), has-sadd k id key key' sets)

pub has-srem_all :
    (k id key : Text) (keys : List Text) (sets : Dict (List Text))
    → has k (members key (srem_all keys id sets))
      ≡ (if has key keys && text_eq k id then false else has k (members key sets))
unfolding srem_all
has-srem_all k id key [] sets = refl
has-srem_all k id key (key' ∷ keys) sets =
    ground (arith, has-srem_all k id key keys (srem key' id sets), has-srem k id key key' sets)
