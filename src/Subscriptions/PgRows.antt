-- ===== src/Subscriptions/PgRows.antt =====
-- The table of the Postgres store of subscriptions under its operations.
use webhooks_engine.Prelude.{
  ℕ, ◌≡◌, refl, ◌+◌, Bool, false, Option, none, some, List, [], ◌∷◌, map, Text, text_eq→eq,
  text_eq_refl, lookup, contains, insert, values, filter, ok, err, Result-cases, Option-cases,
  Bool-cases, inl, inr, arith,
}
use webhooks_engine.Prelude.Tables.{update_where}
use webhooks_engine.Prelude.Keyed
use webhooks_engine.Prelude.Strings.{pos}
use webhooks_engine.Types.{seconds}
use webhooks_engine.Contract.Queue.{has}
use webhooks_engine.Subscriptions.Types.{
  Subscription, Row, Net, Draws, resolve_ip, chosen, created, ids_of,
}
use webhooks_engine.Subscriptions.Contract.{Call, create, delete, set_status, rotate_secret}
use webhooks_engine.Subscriptions.Pg

-- Each row stands under its id.
abbrev pub id_of : Row → Text
id_of row = row.sub.id

abbrev pub IsKeyed : Pg.Table → Type 0
IsKeyed = Keyed.IsKeyed id_of

module _ (cipher : Pg.Cipher) where
  -- A row as it reads, with its secrets opened.
  abbrev pub read : Option Row → Option Row
  read none = none
  read (some row) = some (record {
    sub = record row.sub { secret = cipher.open_ row.sub.secret };
    previous_secret = Pg.opened cipher row.previous_secret;
    previous_expires_at = row.previous_expires_at;
  })

  abbrev pub call : Call → Pg.Table → Pg.Table
  call (create net draws owner_id url events secret) rows =
      (Pg.create net cipher draws owner_id url events secret rows).1
  call (delete k) rows = (Pg.delete k rows).1
  call (set_status k status) rows = (Pg.set_status k status rows).1
  call (rotate_secret draws k grace_s secret) rows =
      (Pg.rotate_secret cipher draws k grace_s secret rows).1

  abbrev pub find : Text → Pg.Table → Option Row
  find k rows = read (lookup k rows)

-- The ids of the rows that a SELECT gives.
pub has-snapshots :
    (k : Text) (p : Row → Bool) (rows : Pg.Table)
    → IsKeyed rows
    → has k (ids_of (map Pg.snapshot (filter p (values rows))))
      ≡ elim (lookup k rows) [ none ↦ false | some row ↦ p row ]
unfolding lookup
has-snapshots k p [] v = refl
has-snapshots k p ((j, row) ∷ rows) v =
    let tail : IsKeyed rows = record {
      distinct = v.distinct.1;
      keyed = λ i r h. ground (arith, v.keyed i r, v.distinct.0, text_eq→eq i j);
    } in
    ground (
      arith,
      has-snapshots k p rows tail,
      v.keyed j row (ground (arith, text_eq_refl j)),
      v.distinct.0,
      text_eq→eq k j,
      text_eq_refl j,
      Bool-cases (p row),
    )

-- The table after a rotation and after a creation.
pub rotate_secret-rows :
    (cipher : Pg.Cipher) (draws : Draws) (k : Text) (n : ℕ) (secret : Option Text) (rows : Pg.Table)
    → (Pg.rotate_secret cipher draws k (pos n) secret rows).1
      ≡ update_where
          (Pg.is_id k)
          (Pg.rotated (cipher.seal (chosen secret draws.token)) (draws.now + seconds n))
          rows
unfolding Pg.rotate_secret
rotate_secret-rows cipher draws k n secret rows = ground (
  arith,
  Option-cases (
      lookup k (
        update_where (Pg.is_id k)
          (Pg.rotated (cipher.seal (chosen secret draws.token)) (draws.now + seconds n)) rows)),
)

abbrev pub sealed_row : Pg.Cipher → Subscription → Row
sealed_row cipher sub = record {
  sub = record sub { secret = cipher.seal sub.secret };
  previous_secret = none;
  previous_expires_at = none;
}

pub create-rows :
    (net : Net) (cipher : Pg.Cipher) (draws : Draws) (owner_id url : Text) (events : List Text)
    (secret : Option Text) (rows : Pg.Table)
    → lookup draws.uuid rows ≡ none
    → (Pg.create net cipher draws owner_id url events secret rows).1 ≡ elim (resolve_ip net url) [
      | err e ↦ rows
      | ok ip ↦
          insert draws.uuid (sealed_row cipher (created draws owner_id url events secret ip)) rows
    ]
unfolding Pg.create
create-rows net cipher draws owner_id url events secret rows new =
    elim (Result-cases (resolve_ip net url)) [
      | inl (ip, resolved) ↦ rw (resolved, Pg.create) (rw (new, contains) refl)
      | inr (e, unresolved) ↦ rw (unresolved, Pg.create) refl
    ]
