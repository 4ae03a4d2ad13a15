-- ===== src/Subscriptions/Pg.antt =====
-- `PgSubscriptionStore` of service/subscription_pg.py: one table with the primary key `id`, by the
-- documented semantics of SQL. A statement is one step. `seal` and `open` are the cipher of the
-- secrets, `SecretCipher`.
use webhooks_engine.Prelude.{
  Bool, ◌&&◌, Option, none, some, List, map, Text, text_eq, Dict, lookup, contains, insert, values,
  filter, codes, if◌then◌else◌, Result, ok, err, Fault, key_error, other_error,
}
use webhooks_engine.Prelude.Tables.{update_where, delete_where}
use webhooks_engine.Prelude.Strings.{ℤ}
use webhooks_engine.Types.{DateTime, SubscriptionSnapshot}
use webhooks_engine.Contract.Queue.{has}
use webhooks_engine.Dispatcher.Env.{SecretMaterial, grace_until}
use webhooks_engine.Subscriptions.Types.{
  SubscriptionStatus, is_active, Subscription, Row, Net, Draws, resolve_ip, chosen, created,
  snapshot_of, owned,
}

pub record Cipher : Type 0 where
  pub seal : Text → Text
  pub open_ : Text → Text

-- The table: the secrets in its rows are sealed.
abbrev pub Table : Type 0
Table = Dict Row

-- `WHERE events @> [event] AND status = 'active'`, and `AND owner_id = :owner_id` for a tenant
abbrev pub matches : Text → Option Text → Row → Bool
matches event_name tenant_id row =
    has event_name row.sub.events && is_active row.sub.status && owned tenant_id row.sub

abbrev pub snapshot : Row → SubscriptionSnapshot
snapshot row = snapshot_of row.sub

unfoldable pub for_event : Text → Option Text → Table → List SubscriptionSnapshot
for_event event_name tenant_id rows =
    map snapshot (filter (matches event_name tenant_id) (values rows))

-- `_material`
abbrev pub opened : Cipher → Option Text → Option Text
opened cipher none = none
opened cipher (some secret) = some (cipher.open_ secret)

abbrev pub material : Cipher → Row → SecretMaterial
material cipher row = record {
  current = cipher.open_ row.sub.secret;
  previous = opened cipher row.previous_secret;
  previous_expires_at = row.previous_expires_at;
}

unfoldable pub get_secret : Cipher → Text → Table → Result Fault SecretMaterial
unfolding lookup
get_secret cipher id rows = elim (lookup id rows) [
  | none ↦ err key_error
  | some row ↦ ok (material cipher row)
]

-- `WHERE id = :id`
abbrev pub is_id : Text → Row → Bool
is_id id row = text_eq row.sub.id id

-- The SET of the rotation.
abbrev pub rotated : Text → DateTime → Row → Row
rotated sealed until row = record {
  sub = record row.sub { secret = sealed };
  previous_secret = some row.sub.secret;
  previous_expires_at = some until;
}

unfoldable pub rotate_secret :
    Cipher → Draws → Text → ℤ → Option Text → Table → Result Fault SecretMaterial × Table
unfolding lookup update_where grace_until
rotate_secret cipher draws id grace_s secret rows = elim (grace_until draws.now grace_s) [
  | err e ↦ (err e, rows)
  | ok until ↦
      let rows' =
        update_where (is_id id) (rotated (cipher.seal (chosen secret draws.token)) until) rows in
      elim (lookup id rows') [
        | none ↦ (err key_error, rows')
        | some row ↦ (ok (material cipher row), rows')
      ]
]

-- `create`; a second INSERT of one id breaks the primary key and raises.
unfoldable pub create :
    Net
    → Cipher
    → Draws
    → Text
    → Text
    → List Text
    → Option Text
    → Table
    → Result Fault Subscription × Table
unfolding resolve_ip insert
create net cipher draws owner_id url events secret rows = elim (resolve_ip net url) [
  | err e ↦ (err e, rows)
  | ok ip ↦
      let sub = created draws owner_id url events secret ip in
      if contains sub.id rows then (err (other_error (codes "IntegrityError")), rows) else (
        ok sub,
        insert sub.id
            (record {
              sub = record sub { secret = cipher.seal sub.secret };
              previous_secret = none;
              previous_expires_at = none;
            })
            rows,
      )
]

-- `_row_to_sub`
abbrev pub row_to_sub : Cipher → Row → Subscription
row_to_sub cipher row = record row.sub { secret = cipher.open_ row.sub.secret }

unfoldable pub get : Cipher → Text → Table → Option Subscription
unfolding lookup
get cipher id rows = elim (lookup id rows) [ none ↦ none | some row ↦ some (row_to_sub cipher row) ]

unfoldable pub list_for_owner : Cipher → Text → Table → List Subscription
list_for_owner cipher owner_id rows =
    map (row_to_sub cipher) (filter (λ row. text_eq row.sub.owner_id owner_id) (values rows))

-- `delete` and `_set_status`, with `rowcount > 0`
unfoldable pub delete : Text → Table → Bool × Table
unfolding lookup delete_where
delete id rows = (contains id rows, delete_where (is_id id) rows)

abbrev pub with_status : SubscriptionStatus → Row → Row
with_status status row = record row { sub = record row.sub { status = status } }

unfoldable pub set_status : Text → SubscriptionStatus → Table → Bool × Table
unfolding lookup update_where
set_status id status rows = (contains id rows, update_where (is_id id) (with_status status) rows)
