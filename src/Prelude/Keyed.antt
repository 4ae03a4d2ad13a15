-- ===== src/Prelude/Keyed.antt =====
-- Tables whose rows hold their own key.
use webhooks_engine.Prelude.{
  ◌≡◌, Bool, true, some, Text, text_eq, text_eq→eq, Dict, lookup, insert, lookup-insert, IsDistinct,
  insert-IsDistinct, arith, if◌then◌else◌, Option-cases, Bool-cases, inl, inr, ℕ, List, [], ◌∷◌,
  map, filter, take, values, values-lookup, any, All, All-take, All-filter, subst,
}
use webhooks_engine.Prelude.Tables.{
  update_where, delete_where, updated, lookup-update_where, lookup-delete_where,
  update_where-IsDistinct, delete_where-IsDistinct, order_by, All-order_by,
}

module _ {V : Type 0} (key : V → Text) where
  -- Each row stands under its key, and no two under one.
  pub record IsKeyed (rows : Dict V) : Type 0 where
    pub distinct : IsDistinct rows
    pub keyed : (k : Text) (row : V) → lookup k rows ≡ some row → key row ≡ k

  -- `WHERE key = k`
  abbrev pub is_key : Text → V → Bool
  is_key k row = text_eq (key row) k

  pub update_where-IsKeyed :
      (p : V → Bool) (f : V → V) (rows : Dict V)
      → ((row : V) → key (f row) ≡ key row)
      → IsKeyed rows
      → IsKeyed (update_where p f rows)
  update_where-IsKeyed p f rows same v = record {
    distinct = update_where-IsDistinct p f rows v.distinct;
    keyed = λ k row h. elim (Option-cases (lookup k rows)) [
      | inl gone ↦ absurd (ground (arith, lookup-update_where k p f rows))
      | inr (old, e) ↦
          ground
            (arith, lookup-update_where k p f rows, v.keyed k old e, same old, Bool-cases (p old))
    ];
  }

  pub delete_where-IsKeyed :
      (p : V → Bool) (rows : Dict V) → IsKeyed rows → IsKeyed (delete_where p rows)
  delete_where-IsKeyed p rows v = record {
    distinct = delete_where-IsDistinct p rows v.distinct;
    keyed = λ k row h. ground (
      arith,
      lookup-delete_where k p rows v.distinct,
      Option-cases (lookup k rows),
      v.keyed k row,
    );
  }

  pub insert-IsKeyed :
      (row : V) (rows : Dict V) → IsKeyed rows → IsKeyed (insert (key row) row rows)
  insert-IsKeyed row rows v = record {
    distinct = insert-IsDistinct (key row) row rows v.distinct;
    keyed = λ k old h.
        ground (arith, lookup-insert k (key row) row rows, text_eq→eq k (key row), v.keyed k old);
  }

  -- An UPDATE by key.
  pub lookup-update_key :
      (j k : Text) (f : V → V) (rows : Dict V)
      → IsKeyed rows
      → lookup j (update_where (is_key k) f rows)
        ≡ (if text_eq j k then updated (λ row. true) f (lookup j rows) else lookup j rows)
  lookup-update_key j k f rows v = elim (Option-cases (lookup j rows)) [
    | inl gone ↦ ground (arith, lookup-update_where j (is_key k) f rows)
    | inr (row, e) ↦ ground (arith, lookup-update_where j (is_key k) f rows, v.keyed j row e)
  ]

  -- The keys of the rows that a WHERE accepts, in an order, up to a limit.
  abbrev pub picked : (V → Bool) → (V → V → Bool) → ℕ → Dict V → List Text
  picked p le n rows = map key (take n (order_by le (filter p (values rows))))

  abbrev KeyFound : (V → Bool) → Dict V → Text → Type 0
  KeyFound p rows k = (row : V) × (lookup k rows ≡ some row) × (p row ≡ true)

  keys-All :
      (p : V → Bool) (rows : Dict V) (found : List V)
      → All (λ row. (lookup (key row) rows ≡ some row) × (p row ≡ true)) found
      → All (KeyFound p rows) (map key found)
  keys-All p rows [] h = tt
  keys-All p rows (row ∷ found) h = ((row, h.0.0, h.0.1), keys-All p rows found h.1)

  All-any :
      (P : Text → Type 0) (k : Text) (ks : List Text) → All P ks → any (text_eq k) ks ≡ true → P k
  All-any P k [] h e = absurd (ground arith)
  All-any P k (j ∷ ks) h e = elim (Bool-cases (text_eq k j)) [
    | inl here ↦ subst P (ground (arith, text_eq→eq k j)) h.0
    | inr there ↦ All-any P k ks h.1 (ground arith)
  ]

  -- Every key picked is that of a row that the WHERE accepts.
  pub picked-row :
      (p : V → Bool) (le : V → V → Bool) (n : ℕ) (rows : Dict V) (k : Text)
      → IsKeyed rows
      → any (text_eq k) (picked p le n rows) ≡ true
      → (row : V) × (lookup k rows ≡ some row) × (p row ≡ true)
  picked-row p le n rows k v = All-any (KeyFound p rows) k (picked p le n rows) (
      keys-All p rows (take n (order_by le (filter p (values rows)))) (
        All-take _ n (order_by le (filter p (values rows))) (
          All-order_by (λ row. (lookup (key row) rows ≡ some row) × (p row ≡ true)) le _
            (All-filter _ p (values rows) (values-lookup key rows v.distinct v.keyed)))))

  pub IsKeyed-tail : (j : Text) (row : V) (rows : Dict V) → IsKeyed ((j, row) ∷ rows) → IsKeyed rows
  unfolding lookup
  IsKeyed-tail j row rows v = record {
    distinct = v.distinct.1;
    keyed = λ k r h. ground (arith, v.keyed k r, v.distinct.0, text_eq→eq k j);
  }
