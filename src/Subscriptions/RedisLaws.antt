-- ===== src/Subscriptions/RedisLaws.antt =====
-- The Redis store of subscriptions as a `SubscriptionStore`: its rows and its two indexes.
use webhooks_engine.Prelude.{
  ◌≡◌, ◌⊎◌, refl, subst, Bool, false, ◌&&◌, Option, none, some, List, [], ◌∷◌, Text, text_eq,
  text_eq→eq, Dict, lookup, insert, erase, lookup-insert, lookup-erase, is_empty, Option-cases,
  Bool-cases, inl, inr, arith,
}
use webhooks_engine.Contract.Queue.{has}
use webhooks_engine.Subscriptions.Types.{is_active, Subscription, Row, chosen, owned, ids_of}
use webhooks_engine.Subscriptions.Contract.{
  Call, create, delete, set_status, rotate_secret, serves, secret_of,
}
use webhooks_engine.Subscriptions.Sets.{has-sadd, has-srem, has-sadd_all, has-srem_all}
use webhooks_engine.Subscriptions.Redis

abbrev pub subscribes : Text → Option Row → Bool
subscribes name none = false
subscribes name (some row) = has name row.sub.events

abbrev pub belongs : Text → Option Row → Bool
belongs owner_id none = false
belongs owner_id (some row) = text_eq owner_id row.sub.owner_id

-- A row whose secrets are not empty.
abbrev pub IsSealed : Row → Type 0
IsSealed row =
    (is_empty row.sub.secret ≡ false) × (Redis.filled row.previous_secret ≡ row.previous_secret)

-- Each row stands under its id, its secrets are not empty, and the sets of the events and of the
-- owners hold exactly the ids whose rows name them.
pub record IsIndexed (s : Redis.Store) : Type 0 where
  pub keyed : (k : Text) (row : Row) → lookup k s.rows ≡ some row → row.sub.id ≡ k
  pub secrets : (k : Text) (row : Row) → lookup k s.rows ≡ some row → IsSealed row
  pub by_event :
      (k name : Text) → has k (Redis.members name s.events) ≡ subscribes name (lookup k s.rows)
  pub by_owner :
      (k owner_id : Text)
      → has k (Redis.members owner_id s.owners) ≡ belongs owner_id (lookup k s.rows)

abbrev pub call : Call → Redis.Store → Redis.Store
call (create net draws owner_id url events secret) s =
    (Redis.create net draws owner_id url events secret s).1
call (delete k) s = (Redis.delete k s).1
call (set_status k status) s = (Redis.set_status k status s).1
call (rotate_secret draws k grace_s secret) s = (Redis.rotate_secret draws k grace_s secret s).1

abbrev pub find : Text → Redis.Store → Option Row
find k s = lookup k s.rows

-- The ids of the snapshots of a list of ids.
has-snapshots :
    (k : Text) (tenant_id : Option Text) (ids : List Text) (s : Redis.Store)
    → IsIndexed s
    → has k (ids_of (Redis.snapshots tenant_id ids s.rows))
      ≡ has k ids && elim (lookup k s.rows) [
        | none ↦ false
        | some row ↦ is_active row.sub.status && owned tenant_id row.sub
      ]
unfolding Redis.snapshots
has-snapshots k tenant_id [] s v = refl
has-snapshots k tenant_id (j ∷ ids) s v = elim (Option-cases (lookup j s.rows)) [
  | inl gone ↦
      ground (arith, has-snapshots k tenant_id ids s v, text_eq→eq k j, Bool-cases (has k ids))
  | inr (row, e) ↦ ground (
    arith,
    has-snapshots k tenant_id ids s v,
    text_eq→eq k j,
    v.keyed j row e,
    Bool-cases (has k ids),
    Bool-cases (is_active row.sub.status && owned tenant_id row.sub),
  )
]

pub for_event_exact_lem :
    (k event_name : Text) (tenant_id : Option Text) (s : Redis.Store)
    → IsIndexed s
    → has k (ids_of (Redis.for_event event_name tenant_id s))
      ≡ serves event_name tenant_id (find k s)
unfolding Redis.for_event
for_event_exact_lem k event_name tenant_id s v = ground (
  arith,
  has-snapshots k tenant_id (Redis.members event_name s.events) s v,
  v.by_event k event_name,
  Option-cases (lookup k s.rows),
)

pub get_secret_exact_lem :
    (k : Text) (s : Redis.Store) → IsIndexed s → Redis.get_secret k s ≡ secret_of (find k s)
unfolding Redis.get_secret
get_secret_exact_lem k s v = elim (Option-cases (lookup k s.rows)) [
  | inl gone ↦ rw (gone, Redis.get_secret) refl
  | inr (row, e) ↦ let h = v.secrets k row e in ground (arith, h.0, h.1)
]

insert-found :
    (j k : Text) (row r : Row) (rows : Dict Row)
    → lookup j (insert k row rows) ≡ some r
    → (row ≡ r) ⊎ (lookup j rows ≡ some r)
insert-found j k row r rows h = elim (Bool-cases (text_eq j k)) [
  | inl same ↦ inl (ground (arith, lookup-insert j k row rows))
  | inr other ↦ inr (ground (arith, lookup-insert j k row rows))
]

insert-secrets :
    (j k : Text) (row r : Row) (s : Redis.Store)
    → IsSealed row
    → IsIndexed s
    → lookup j (insert k row s.rows) ≡ some r
    → IsSealed r
insert-secrets j k row r s filled v h = elim (insert-found j k row r s.rows h) [
  | inl same ↦ subst IsSealed same filled
  | inr old ↦ v.secrets j r old
]

pub filled-some : (t : Text) → is_empty t ≡ false → Redis.filled (some t) ≡ some t
filled-some [] h = absurd (ground arith)
filled-some (c ∷ t) h = refl

pub chosen_filled :
    (secret : Option Text) (token : Text)
    → is_empty token ≡ false
    → is_empty (chosen secret token) ≡ false
chosen_filled none token h = h
chosen_filled (some []) token h = h
chosen_filled (some (c ∷ t)) token h = refl

-- A row that is replaced by one of the same id, owner and events leaves the indexes right.
pub replaced-IsIndexed :
    (k : Text) (old row : Row) (s : Redis.Store)
    → lookup k s.rows ≡ some old
    → row.sub.id ≡ old.sub.id
    → row.sub.events ≡ old.sub.events
    → row.sub.owner_id ≡ old.sub.owner_id
    → IsSealed row
    → IsIndexed s
    → IsIndexed (record s { rows = insert k row s.rows })
replaced-IsIndexed k old row s e same_id same_events same_owner filled v = record {
  keyed = λ j r h.
      ground (
        arith,
        lookup-insert j k row s.rows,
        v.keyed j r,
        v.keyed k old e,
        text_eq→eq j k,
        same_id,
      );
  secrets = λ j r h. insert-secrets j k row r s filled v h;
  by_event = λ j name.
      ground
        (arith, lookup-insert j k row s.rows, v.by_event j name, text_eq→eq j k, same_events, e);
  by_owner = λ j owner_id.
      ground
        (arith, lookup-insert j k row s.rows, v.by_owner j owner_id, text_eq→eq j k, same_owner, e);
}

-- A row under a new id, entered in the indexes.
pub added-IsIndexed :
    (sub : Subscription) (s : Redis.Store)
    → lookup sub.id s.rows ≡ none
    → is_empty sub.secret ≡ false
    → IsIndexed s
    → IsIndexed (record {
      rows = insert sub.id (Redis.written sub (lookup sub.id s.rows)) s.rows;
      owners = Redis.sadd sub.owner_id sub.id s.owners;
      events = Redis.sadd_all sub.events sub.id s.events;
    })
added-IsIndexed sub s new filled v =
    let row = Redis.written sub none in
    rw new (record {
      keyed = λ j r h.
          ground (arith, lookup-insert j sub.id row s.rows, v.keyed j r, text_eq→eq j sub.id);
      secrets = λ j r h. insert-secrets j sub.id row r s (filled, refl) v h;
      by_event = λ j name. ground (
        arith,
        lookup-insert j sub.id row s.rows,
        v.by_event j name,
        has-sadd_all j sub.id name sub.events s.events,
        text_eq→eq j sub.id,
        new,
        Bool-cases (has name sub.events),
      );
      by_owner = λ j owner_id. ground (
        arith,
        lookup-insert j sub.id row s.rows,
        v.by_owner j owner_id,
        has-sadd j sub.id owner_id sub.owner_id s.owners,
        text_eq→eq j sub.id,
        new,
      );
    })

pub removed-IsIndexed :
    (k : Text) (row : Row) (s : Redis.Store)
    → lookup k s.rows ≡ some row
    → IsIndexed s
    → IsIndexed (record {
      rows = erase k s.rows;
      owners = Redis.srem row.sub.owner_id k s.owners;
      events = Redis.srem_all row.sub.events k s.events;
    })
removed-IsIndexed k row s e v = record {
  keyed = λ j r h. ground (arith, lookup-erase j k s.rows, v.keyed j r);
  secrets = λ j r h. v.secrets j r (ground (arith, lookup-erase j k s.rows));
  by_event = λ j name. ground (
    arith,
    lookup-erase j k s.rows,
    v.by_event j name,
    has-srem_all j k name row.sub.events s.events,
    text_eq→eq j k,
    e,
    Bool-cases (has name row.sub.events),
  );
  by_owner = λ j owner_id. ground (
    arith,
    lookup-erase j k s.rows,
    v.by_owner j owner_id,
    has-srem j k owner_id row.sub.owner_id s.owners,
    text_eq→eq j k,
    e,
  );
}
