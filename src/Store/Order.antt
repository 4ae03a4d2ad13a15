-- ===== src/Store/Order.antt =====
-- The order of `sorted(…, key=lambda r: r.fire_at)` in `claim_batch`.
use webhooks_engine.Prelude.{
  ℕ, zero, suc, ◌≤◌, ◌≡◌, inl, inr, List, [], ◌∷◌, All, All-map, In, take, drop, length, leb, arith,
  Bool-cases, leb→le, refl, subst, ap, All-take, All-drop, All-In,
}
use webhooks_engine.Types.{DeliveryRecord}
use webhooks_engine.Store.Defs.{insert_by_fire_at, sort_by_fire_at}

-- No record fires before one in front of it.
abbrev pub IsSorted : List DeliveryRecord → Type 0
IsSorted [] = Unit
IsSorted (x ∷ xs) = All (λ y. x.fire_at ≤ y.fire_at) xs × IsSorted xs

module _ (P : DeliveryRecord → Type 0) where
  All-insert_by_fire_at :
      (r : DeliveryRecord) (xs : List DeliveryRecord)
      → P r
      → All P xs
      → All P (insert_by_fire_at r xs)
  unfolding insert_by_fire_at
  All-insert_by_fire_at r [] p h = (p, tt)
  All-insert_by_fire_at r (x ∷ xs) p h = elim (Bool-cases (leb r.fire_at x.fire_at)) [
    | inl le ↦ rw le (p, h)
    | inr gt ↦ rw gt (h.0, All-insert_by_fire_at r xs p h.1)
  ]

  pub All-sort_by_fire_at : (xs : List DeliveryRecord) → All P xs → All P (sort_by_fire_at xs)
  unfolding sort_by_fire_at
  All-sort_by_fire_at [] h = tt
  All-sort_by_fire_at (x ∷ xs) h = All-insert_by_fire_at x _ h.0 (All-sort_by_fire_at xs h.1)

insert_by_fire_at-IsSorted :
    (r : DeliveryRecord) (xs : List DeliveryRecord)
    → IsSorted xs
    → IsSorted (insert_by_fire_at r xs)
unfolding insert_by_fire_at
insert_by_fire_at-IsSorted r [] h = (tt, tt)
insert_by_fire_at-IsSorted r (x ∷ xs) h = elim (Bool-cases (leb r.fire_at x.fire_at)) [
  | inl le ↦ rw le ((leb→le _ _ le, All-map _ _ xs (λ y lt. omega (arith, leb→le _ _ le)) h.0), h)
  | inr gt ↦ rw gt (
    All-insert_by_fire_at (λ y. x.fire_at ≤ y.fire_at) r xs (ground arith) h.0,
    insert_by_fire_at-IsSorted r xs h.1,
  )
]

pub sort_by_fire_at-IsSorted : (xs : List DeliveryRecord) → IsSorted (sort_by_fire_at xs)
unfolding sort_by_fire_at
sort_by_fire_at-IsSorted [] = tt
sort_by_fire_at-IsSorted (x ∷ xs) = insert_by_fire_at-IsSorted x _ (sort_by_fire_at-IsSorted xs)

In-insert_by_fire_at_self :
    (r : DeliveryRecord) (xs : List DeliveryRecord) → In r (insert_by_fire_at r xs)
unfolding insert_by_fire_at
In-insert_by_fire_at_self r [] = inl refl
In-insert_by_fire_at_self r (x ∷ xs) = elim (Bool-cases (leb r.fire_at x.fire_at)) [
  | inl le ↦ rw le (inl refl)
  | inr gt ↦ rw gt (inr (In-insert_by_fire_at_self r xs))
]

In-insert_by_fire_at :
    (a r : DeliveryRecord) (xs : List DeliveryRecord) → In a xs → In a (insert_by_fire_at r xs)
unfolding insert_by_fire_at
In-insert_by_fire_at a r [] h = elim h [ ]
In-insert_by_fire_at a r (x ∷ xs) h = elim (Bool-cases (leb r.fire_at x.fire_at)) [
  | inl le ↦ rw le (inr h)
  | inr gt ↦
      rw gt (elim h [ inl here ↦ inl here | inr there ↦ inr (In-insert_by_fire_at a r xs there) ])
]

pub In-sort_by_fire_at :
    (a : DeliveryRecord) (xs : List DeliveryRecord) → In a xs → In a (sort_by_fire_at xs)
unfolding sort_by_fire_at
In-sort_by_fire_at a [] h = h
In-sort_by_fire_at a (x ∷ xs) (inl here) =
    subst (λ y. In y (insert_by_fire_at x (sort_by_fire_at xs))) here
      (In-insert_by_fire_at_self x (sort_by_fire_at xs))
In-sort_by_fire_at a (x ∷ xs) (inr there) =
    In-insert_by_fire_at a x (sort_by_fire_at xs) (In-sort_by_fire_at a xs there)

pub take-IsSorted : (n : ℕ) (xs : List DeliveryRecord) → IsSorted xs → IsSorted (take n xs)
take-IsSorted zero xs h = tt
take-IsSorted (suc n) [] h = tt
take-IsSorted (suc n) (x ∷ xs) h = (All-take _ n xs h.0, take-IsSorted n xs h.1)

-- A record that a sorted list leaves behind its first `n` fires no earlier than any of them.
pub drop-IsSorted :
    (n : ℕ) (a : DeliveryRecord) (xs : List DeliveryRecord)
    → IsSorted xs
    → In a (drop n xs)
    → (length (take n xs) ≡ n) × All (λ x. x.fire_at ≤ a.fire_at) (take n xs)
drop-IsSorted zero a xs h i = (refl, tt)
drop-IsSorted (suc n) a [] h i = elim i [ ]
drop-IsSorted (suc n) a (x ∷ xs) h i =
    let (full, below) = drop-IsSorted n a xs h.1 i in
    (ap suc full, (All-In (λ y. x.fire_at ≤ y.fire_at) (drop n xs) (All-drop _ n xs h.0) i, below))
