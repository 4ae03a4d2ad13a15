-- ===== src/Prelude/Tables.antt =====
-- Tables with a text key, as dicts from key to row: UPDATE, DELETE, and ORDER BY of what SELECT
-- gives. Rows that tie in an ORDER BY stand in the order of the table, one of the orders that a
-- database may give.
use webhooks_engine.Prelude.{
  ℕ, suc, ◌≡◌, refl, Bool, Option, none, some, List, [], ◌∷◌, Text, text_eq→eq, Dict, lookup,
  IsDistinct, any, map, All, arith, if◌then◌else◌, Option-cases, Bool-cases, inl, inr,
}

module _ {V : Type 0} where
  -- `UPDATE … SET f WHERE p`
  unfoldable pub update_where : (V → Bool) → (V → V) → Dict V → Dict V
  update_where p f [] = []
  update_where p f ((k, v) ∷ rows) = (k, (if p v then f v else v)) ∷ update_where p f rows

  -- How many rows an UPDATE touches.
  unfoldable pub count_where : (V → Bool) → Dict V → ℕ
  count_where p [] = 0
  count_where p ((k, v) ∷ rows) = let n = count_where p rows in if p v then suc n else n

  -- `DELETE … WHERE p`
  unfoldable pub delete_where : (V → Bool) → Dict V → Dict V
  delete_where p [] = []
  delete_where p ((k, v) ∷ rows) =
      let rest = delete_where p rows in if p v then rest else (k, v) ∷ rest

  abbrev pub updated : (V → Bool) → (V → V) → Option V → Option V
  updated p f none = none
  updated p f (some v) = some (if p v then f v else v)

  abbrev pub kept_unless : (V → Bool) → Option V → Option V
  kept_unless p none = none
  kept_unless p (some v) = if p v then none else some v

  pub lookup-update_where :
      (k : Text) (p : V → Bool) (f : V → V) (rows : Dict V)
      → lookup k (update_where p f rows) ≡ updated p f (lookup k rows)
  unfolding update_where lookup
  lookup-update_where k p f [] = refl
  lookup-update_where k p f ((j, v) ∷ rows) = ground (arith, lookup-update_where k p f rows)

  pub update_where-IsDistinct :
      (p : V → Bool) (f : V → V) (rows : Dict V)
      → IsDistinct rows
      → IsDistinct (update_where p f rows)
  unfolding update_where
  update_where-IsDistinct p f [] d = tt
  update_where-IsDistinct p f ((j, v) ∷ rows) d = (
    ground (arith, lookup-update_where j p f rows, Option-cases (lookup j rows), d.0),
    update_where-IsDistinct p f rows d.1,
  )

  pub lookup-delete_where :
      (k : Text) (p : V → Bool) (rows : Dict V)
      → IsDistinct rows
      → lookup k (delete_where p rows) ≡ kept_unless p (lookup k rows)
  unfolding delete_where lookup
  lookup-delete_where k p [] d = refl
  lookup-delete_where k p ((j, v) ∷ rows) d =
      ground (arith, lookup-delete_where k p rows d.1, text_eq→eq k j, Option-cases (lookup k rows))

  pub delete_where-IsDistinct :
      (p : V → Bool) (rows : Dict V) → IsDistinct rows → IsDistinct (delete_where p rows)
  unfolding delete_where
  delete_where-IsDistinct p [] d = tt
  delete_where-IsDistinct p ((j, v) ∷ rows) d =
      let rest = delete_where-IsDistinct p rows d.1 in
      elim (Bool-cases (p v)) [
        | inl gone ↦ rw gone rest
        | inr kept ↦ rw kept (
          ground (arith, lookup-delete_where j p rows d.1, Option-cases (lookup j rows), d.0),
          rest,
        )
      ]

  -- `ORDER BY`, by what `le` says of two rows
  unfoldable pub insert_by : (V → V → Bool) → V → List V → List V
  insert_by le v [] = v ∷ []
  insert_by le v (x ∷ xs) = let rest = insert_by le v xs in if le v x then v ∷ x ∷ xs else x ∷ rest

  unfoldable pub order_by : (V → V → Bool) → List V → List V
  unfolding insert_by
  order_by le [] = []
  order_by le (v ∷ vs) = insert_by le v (order_by le vs)

  All-insert_by :
      (P : V → Type 0) (le : V → V → Bool) (v : V) (vs : List V)
      → P v
      → All P vs
      → All P (insert_by le v vs)
  unfolding insert_by
  All-insert_by P le v [] h hs = (h, tt)
  All-insert_by P le v (x ∷ xs) h hs = elim (Bool-cases (le v x)) [
    | inl first ↦ rw first (h, hs)
    | inr later ↦ rw later (hs.0, All-insert_by P le v xs h hs.1)
  ]

  pub All-order_by :
      (P : V → Type 0) (le : V → V → Bool) (vs : List V) → All P vs → All P (order_by le vs)
  unfolding order_by
  All-order_by P le [] h = tt
  All-order_by P le (v ∷ vs) h =
      All-insert_by P le v (order_by le vs) h.0 (All-order_by P le vs h.1)

  pub any-insert_by :
      (p : V → Bool) (le : V → V → Bool) (v : V) (vs : List V)
      → any p (insert_by le v vs) ≡ any p (v ∷ vs)
  unfolding insert_by
  any-insert_by p le v [] = refl
  any-insert_by p le v (x ∷ vs) = ground (arith, any-insert_by p le v vs, Bool-cases (le v x))

  -- An ORDER BY loses no row and makes none.
  pub any-order_by :
      (p : V → Bool) (le : V → V → Bool) (vs : List V) → any p (order_by le vs) ≡ any p vs
  unfolding order_by
  any-order_by p le [] = refl
  any-order_by p le (v ∷ vs) =
      ground (arith, any-insert_by p le v (order_by le vs), any-order_by p le vs)

  pub any-map :
      (p : Text → Bool) (key : V → Text) (vs : List V)
      → any p (map key vs) ≡ any (λ v. p (key v)) vs
  any-map p key [] = refl
  any-map p key (v ∷ vs) = ground (arith, any-map p key vs)
