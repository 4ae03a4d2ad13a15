-- ===== src/Postgres/Where.antt =====
-- Which ids a SELECT gives, whatever the order of its rows.
use webhooks_engine.Prelude.{
  ℕ, zero, suc, ◌<◌, ◌≡◌, refl, sym, ◌∙◌, ap, Bool, false, Option, none, some, List, [], ◌∷◌, map,
  Text, text_eq, text_eq→eq, text_eq_refl, Dict, lookup, values, filter, take, length, length-map,
  arith, Bool-cases,
}
use webhooks_engine.Prelude.Keyed.{IsKeyed-tail}
use webhooks_engine.Prelude.Tables.{order_by, any-map, any-order_by}
use webhooks_engine.Types.{DeliveryRecord}
use webhooks_engine.Contract.Queue.{has}
use webhooks_engine.Postgres.Defs.{Row, row_to_delivery, id_of}
use webhooks_engine.Postgres.Rows.{IsKeyed, picked}

pub ids_of_columns :
    (rows : List Row)
    → map (λ (r : DeliveryRecord). r.delivery_id) (map row_to_delivery rows) ≡ map id_of rows
ids_of_columns [] = refl
ids_of_columns (row ∷ rows) = ap (λ (ids : List Text). id_of row ∷ ids) (ids_of_columns rows)

abbrev pub fits : (Row → Bool) → Option Row → Bool
fits p none = false
fits p (some row) = p row

-- The ids of the rows that a WHERE finds.
pub has-where :
    (k : Text) (p : Row → Bool) (rows : Dict Row)
    → IsKeyed rows
    → has k (map id_of (filter p (values rows))) ≡ fits p (lookup k rows)
unfolding lookup
has-where k p [] v = refl
has-where k p ((j, row) ∷ rows) v = ground (
  arith,
  has-where k p rows (IsKeyed-tail id_of j row rows v),
  v.keyed j row (ground (arith, text_eq_refl j)),
  v.distinct.0,
  text_eq→eq k j,
  text_eq_refl j,
  Bool-cases (p row),
)

-- The same of the records that the rows are read as.
pub has-records :
    (k : Text) (p : Row → Bool) (rows : Dict Row)
    → IsKeyed rows
    → has k
        (map (λ (r : DeliveryRecord). r.delivery_id) (map row_to_delivery (filter p (values rows))))
      ≡ fits p (lookup k rows)
has-records k p rows v = ap (has k) (ids_of_columns (filter p (values rows))) ∙ has-where k p rows v

has-order_by :
    (k : Text) (le : Row → Row → Bool) (rows : List Row)
    → has k (map id_of (order_by le rows)) ≡ has k (map id_of rows)
has-order_by k le rows =
    any-map (text_eq k) id_of (order_by le rows)
    ∙ any-order_by _ le rows
    ∙ sym (any-map (text_eq k) id_of rows)

take_all : (n : ℕ) (rows : List Row) → length (take n rows) < n → take n rows ≡ rows
take_all zero rows h = absurd (omega arith)
take_all (suc n) [] h = refl
take_all (suc n) (row ∷ rows) h = ap (λ (t : List Row). row ∷ t) (take_all n rows (omega arith))

-- Below its limit a SELECT gives every row that its WHERE accepts.
pub picked-all :
    (p : Row → Bool) (le : Row → Row → Bool) (n : ℕ) (rows : Dict Row) (k : Text)
    → IsKeyed rows
    → length (picked p le n rows) < n
    → has k (picked p le n rows) ≡ fits p (lookup k rows)
picked-all p le n rows k v h =
    let found = order_by le (filter p (values rows)) in
    ap (λ (t : List Row). has k (map id_of t))
      (take_all n found (omega (arith, length-map id_of (take n found))))
    ∙ has-order_by k le (filter p (values rows))
    ∙ has-where k p rows v
