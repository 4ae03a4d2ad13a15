-- ===== src/Prelude/Unique.antt =====
-- The keys that a SELECT gives are all different.
use webhooks_engine.Prelude.{
  refl, zero, suc, false, contains, sym, ◌∙◌, text_eq_refl, text_eq_sym, ◌≡◌, Bool, Text, text_eq,
  Dict, lookup, arith, Bool-cases, inl, inr, ℕ, List, [], ◌∷◌, map, filter, take, values, any,
}
use webhooks_engine.Prelude.Tables.{insert_by, order_by, any-insert_by, any-order_by, any-map}
use webhooks_engine.Prelude.Keyed.{IsKeyed, IsKeyed-tail, picked}

-- No text stands in the list twice.
abbrev pub IsUnique : List Text → Type 0
IsUnique [] = Unit
IsUnique (k ∷ ks) = (any (text_eq k) ks ≡ false) × IsUnique ks

module _ {V : Type 0} (key : V → Text) where
  any-values :
      (k : Text) (rows : Dict V)
      → IsKeyed key rows
      → any (text_eq k) (map key (values rows)) ≡ contains k rows
  unfolding lookup
  any-values k [] v = refl
  any-values k ((j, row) ∷ rows) v = ground (
    arith,
    any-values k rows (IsKeyed-tail key j row rows v),
    v.keyed j row (ground (arith, text_eq_refl j)),
  )

  values-IsUnique : (rows : Dict V) → IsKeyed key rows → IsUnique (map key (values rows))
  values-IsUnique [] v = tt
  values-IsUnique ((j, row) ∷ rows) v =
      let v' = IsKeyed-tail key j row rows v in
      let own : key row ≡ j = v.keyed j row (unfold lookup in ground (arith, text_eq_refl j)) in
      (ground (arith, any-values (key row) rows v', v.distinct.0), values-IsUnique rows v')

  any-filter-map :
      (k : Text) (p : V → Bool) (vs : List V)
      → any (text_eq k) (map key vs) ≡ false
      → any (text_eq k) (map key (filter p vs)) ≡ false
  any-filter-map k p [] h = refl
  any-filter-map k p (x ∷ vs) h =
      ground (arith, any-filter-map k p vs, Bool-cases (p x), Bool-cases (text_eq k (key x)))

  filter-IsUnique :
      (p : V → Bool) (vs : List V) → IsUnique (map key vs) → IsUnique (map key (filter p vs))
  filter-IsUnique p [] u = tt
  filter-IsUnique p (x ∷ vs) u = elim (Bool-cases (p x)) [
    | inl stays ↦ rw stays (any-filter-map (key x) p vs u.0, filter-IsUnique p vs u.1)
    | inr goes ↦ rw goes (filter-IsUnique p vs u.1)
  ]

  any-take-map :
      (k : Text) (n : ℕ) (vs : List V)
      → any (text_eq k) (map key vs) ≡ false
      → any (text_eq k) (map key (take n vs)) ≡ false
  any-take-map k zero vs h = refl
  any-take-map k (suc n) [] h = refl
  any-take-map k (suc n) (x ∷ vs) h =
      ground (arith, any-take-map k n vs, Bool-cases (text_eq k (key x)))

  take-IsUnique : (n : ℕ) (vs : List V) → IsUnique (map key vs) → IsUnique (map key (take n vs))
  take-IsUnique zero vs u = tt
  take-IsUnique (suc n) [] u = tt
  take-IsUnique (suc n) (x ∷ vs) u = (any-take-map (key x) n vs u.0, take-IsUnique n vs u.1)

  any-insert_by-map :
      (k : Text) (le : V → V → Bool) (x : V) (vs : List V)
      → any (text_eq k) (map key (insert_by le x vs)) ≡ any (text_eq k) (map key (x ∷ vs))
  any-insert_by-map k le x vs =
      any-map (text_eq k) key (insert_by le x vs)
      ∙ any-insert_by (λ v. text_eq k (key v)) le x vs
      ∙ sym (any-map (text_eq k) key (x ∷ vs))

  insert_by-IsUnique :
      (le : V → V → Bool) (x : V) (vs : List V)
      → IsUnique (map key (x ∷ vs))
      → IsUnique (map key (insert_by le x vs))
  unfolding insert_by
  insert_by-IsUnique le x [] u = (refl, tt)
  insert_by-IsUnique le x (y ∷ vs) u = elim (Bool-cases (le x y)) [
    | inl first ↦ rw first u
    | inr later ↦ rw later (
      ground (
        arith,
        any-insert_by-map (key y) le x vs,
        text_eq_sym (key x) (key y),
        u.0,
        u.1.0,
        Bool-cases (text_eq (key x) (key y)),
      ),
      insert_by-IsUnique le x vs (ground (arith, u.0, Bool-cases (text_eq (key x) (key y))), u.1.1),
    )
  ]

  order_by-IsUnique :
      (le : V → V → Bool) (vs : List V)
      → IsUnique (map key vs)
      → IsUnique (map key (order_by le vs))
  unfolding order_by
  order_by-IsUnique le [] u = tt
  order_by-IsUnique le (x ∷ vs) u = insert_by-IsUnique le x (order_by le vs) (
    ground (
      arith,
      any-map (text_eq (key x)) key vs,
      any-map (text_eq (key x)) key (order_by le vs),
      any-order_by (λ v. text_eq (key x) (key v)) le vs,
      u.0,
    ),
    order_by-IsUnique le vs u.1,
  )

  -- No key is picked twice.
  pub picked-IsUnique :
      (p : V → Bool) (le : V → V → Bool) (n : ℕ) (rows : Dict V)
      → IsKeyed key rows
      → IsUnique (picked key p le n rows)
  picked-IsUnique p le n rows v = take-IsUnique n (order_by le (filter p (values rows))) (
      order_by-IsUnique le (filter p (values rows))
        (filter-IsUnique p (values rows) (values-IsUnique rows v)))
