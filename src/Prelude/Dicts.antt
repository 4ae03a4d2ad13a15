-- ===== src/Prelude/Dicts.antt =====
-- A Python dict with text keys, in insertion order.
use mathlib.Core.Path.{◌≡◌, refl, subst}
use mathlib.Core.Bool.{Bool, true, false}
use mathlib.Core.Option.{Option, none, some}
use mathlib.Core.List.{List, [], ◌∷◌}
use native.Mathlib.Omega.{arith}
use mathlib.Core.Logic.{inl, inr}
use webhooks_engine.Prelude.Lists.{All, All-map, In}
use webhooks_engine.Prelude.Tests.{if◌then◌else◌, Bool-cases}
use webhooks_engine.Prelude.Texts.{Text, text_eq, text_eq_refl, text_eq→eq}

abbrev pub Dict {ℓ} : Type ℓ → Type ℓ
Dict V = List (Text × V)

module _ {ℓ} {V : Type ℓ} where
  -- `d.get(k)`
  unfoldable pub lookup : Text → Dict V → Option V
  lookup k [] = none
  lookup k ((j, v) ∷ d) = if text_eq k j then some v else lookup k d

  pub lookup-nil : (k : Text) → lookup k [] ≡ none
  unfolding lookup
  lookup-nil k = refl

  -- `k in d`
  abbrev pub contains : Text → Dict V → Bool
  contains k d = elim (lookup k d) [ none ↦ false | some _ ↦ true ]

  -- `d[k] = v`: the place of a key that is there stays.
  unfoldable pub insert : Text → V → Dict V → Dict V
  insert k v [] = (k, v) ∷ []
  insert k v ((j, w) ∷ d) = if text_eq k j then (k, v) ∷ d else (j, w) ∷ insert k v d

  -- `d.pop(k, None)`
  unfoldable pub erase : Text → Dict V → Dict V
  erase k [] = []
  erase k ((j, v) ∷ d) = if text_eq k j then erase k d else (j, v) ∷ erase k d

  -- `list(d.values())`
  abbrev pub values : Dict V → List V
  values [] = []
  values ((j, v) ∷ d) = v ∷ values d

  abbrev pub keys : Dict V → List Text
  keys [] = []
  keys ((j, v) ∷ d) = j ∷ keys d

  pub lookup-insert :
      (j k : Text) (v : V) (d : Dict V)
      → lookup j (insert k v d) ≡ (if text_eq j k then some v else lookup j d)
  unfolding lookup insert
  lookup-insert j k v [] = refl
  lookup-insert j k v ((i, w) ∷ d) = ground (
    arith,
    text_eq→eq j k,
    text_eq→eq k i,
    text_eq→eq j i,
    text_eq_refl k,
    text_eq_refl j,
    text_eq_refl i,
    lookup-insert j k v d,
  )

  pub lookup-erase :
      (j k : Text) (d : Dict V) → lookup j (erase k d) ≡ (if text_eq j k then none else lookup j d)
  unfolding lookup erase
  lookup-erase j k [] = ground arith
  lookup-erase j k ((i, w) ∷ d) = ground (
    arith,
    text_eq→eq j k,
    text_eq→eq k i,
    text_eq→eq j i,
    text_eq_refl k,
    text_eq_refl j,
    text_eq_refl i,
    lookup-erase j k d,
  )

  -- No key stands twice, as in every Python dict.
  abbrev pub IsDistinct : Dict V → Type 0
  IsDistinct [] = Unit
  IsDistinct ((j, v) ∷ d) = (contains j d ≡ false) × IsDistinct d

  pub contains-insert :
      (j k : Text) (v : V) (d : Dict V)
      → contains j (insert k v d) ≡ (if text_eq j k then true else contains j d)
  contains-insert j k v d = ground (arith, lookup-insert j k v d)

  pub contains-erase :
      (j k : Text) (d : Dict V)
      → contains j (erase k d) ≡ (if text_eq j k then false else contains j d)
  contains-erase j k d = ground (arith, lookup-erase j k d)

  pub insert-IsDistinct : (k : Text) (v : V) (d : Dict V) → IsDistinct d → IsDistinct (insert k v d)
  unfolding insert
  insert-IsDistinct k v [] h = ground (arith, lookup-nil k)
  insert-IsDistinct k v ((i, w) ∷ d) h =
      ground (
        arith,
        text_eq→eq k i,
        text_eq→eq i k,
        contains-insert i k v d,
        insert-IsDistinct k v d h.1,
      )

  -- What is found under a key is a value of the dict.
  pub All-lookup {κ} :
      (P : V → Type κ) (k : Text) {v : V} (d : Dict V)
      → All P (values d)
      → lookup k d ≡ some v
      → P v
  unfolding lookup
  All-lookup P k [] h e = cc
  All-lookup P k {v} ((j, w) ∷ d) h e = elim (Bool-cases (text_eq k j)) [
    | inl here ↦ subst P (ground arith) h.0
    | inr there ↦ All-lookup P k d h.1 (ground arith)
  ]

module _ {V : Type 0} where
  pub lookup-In : (k : Text) {v : V} (d : Dict V) → lookup k d ≡ some v → In v (values d)
  unfolding lookup
  lookup-In k [] e = absurd (cc)
  lookup-In k {v} ((j, w) ∷ d) e = elim (Bool-cases (text_eq k j)) [
    | inl here ↦ inl (ground arith)
    | inr there ↦ inr (lookup-In k d (ground arith))
  ]

  -- Where each value names its own key, every value of the dict is what its key finds.
  pub values-lookup :
      (key : V → Text) (d : Dict V)
      → IsDistinct d
      → ((k : Text) (v : V) → lookup k d ≡ some v → key v ≡ k)
      → All (λ v. lookup (key v) d ≡ some v) (values d)
  unfolding lookup
  values-lookup key [] h own = tt
  values-lookup key ((j, w) ∷ d) h own =
      let here : key w ≡ j = own j w (ground (arith, text_eq_refl j)) in
      (
        ground (arith, text_eq_refl j),
        All-map (λ v. lookup (key v) d ≡ some v) (λ v. lookup (key v) ((j, w) ∷ d) ≡ some v)
            (values d) (λ v e. ground (arith, text_eq→eq (key v) j))
            (values-lookup key d h.1 (λ k v e. own k v (ground (arith, text_eq→eq k j)))),
      )

module _ {ℓ} {V : Type ℓ} where
  pub erase-IsDistinct : (k : Text) (d : Dict V) → IsDistinct d → IsDistinct (erase k d)
  unfolding erase
  erase-IsDistinct k [] h = tt
  erase-IsDistinct k ((i, w) ∷ d) h = ground (arith, contains-erase i k d, erase-IsDistinct k d h.1)
