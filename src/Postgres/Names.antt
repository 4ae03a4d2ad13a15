-- ===== src/Postgres/Names.antt =====
-- `_SAFE_IDENTIFIER_RE` and `_validate_table_name` of service/pg_repos.py: the regular expression
-- `^[a-zA-Z_][a-zA-Z0-9_]{0,62}$` under `re.match`, whose `$` also stands before a last newline.
use webhooks_engine.Prelude.{
  ℕ, suc, zero, ◌≡◌, refl, sym, ap, subst, ◌⊎◌, inl, inr, ◌↔◌, Bool, true, false, ◌&&◌, ◌||◌, [],
  ◌∷◌, ◌++◌, Text, leb, ◌==◌, is_empty, arith, if◌then◌else◌, Bool-cases, Result, ok, err, Fault,
  value_error,
}

abbrev pub between : ℕ → ℕ → ℕ → Bool
between a b c = leb a c && leb c b

-- `[a-zA-Z_]`
abbrev pub is_first : ℕ → Bool
is_first c = between 97 122 c || between 65 90 c || (c == 95)

-- `[a-zA-Z0-9_]`
abbrev pub is_word : ℕ → Bool
is_word c = is_first c || between 48 57 c

-- `$`
abbrev pub at_end : Text → Bool
at_end [] = true
at_end (c ∷ s) = (c == 10) && is_empty s

-- `[a-zA-Z0-9_]{0,n}$`: at a place where the pattern could end it does, as nothing can follow.
unfoldable pub words_to_end : ℕ → Text → Bool
words_to_end zero s = at_end s
words_to_end (suc n) [] = true
words_to_end (suc n) (c ∷ s) =
    let rest = words_to_end n s in if is_word c then rest else at_end (c ∷ s)

unfoldable pub is_safe : Text → Bool
unfolding words_to_end
is_safe [] = false
is_safe (c ∷ s) = is_first c && words_to_end 62 s

unfoldable pub validate_table_name : Text → Result Fault Text
unfolding is_safe
validate_table_name name = if is_safe name then ok name else err value_error

-- A SQL identifier of at most `n` characters: letters, digits and underscores.
abbrev pub AreWords : ℕ → Text → Type 0
AreWords n [] = Unit
AreWords zero (c ∷ s) = ⊥
AreWords (suc n) (c ∷ s) = (is_word c ≡ true) × AreWords n s

-- One that does not start with a digit.
abbrev pub IsIdentifier : Text → Type 0
IsIdentifier [] = ⊥
IsIdentifier (c ∷ s) = (is_first c ≡ true) × AreWords 62 s

-- The newline after the name, where there is one.
abbrev pub ends : Bool → Text
ends true = 10 ∷ []
ends false = []

at_end-shape : (s : Text) → at_end s ≡ true → (nl : Bool) × (s ≡ ends nl)
at_end-shape [] h = (false, refl)
at_end-shape (c ∷ []) h = (true, ground arith)
at_end-shape (c ∷ d ∷ s) h = absurd (ground arith)

words_to_end-shape :
    (n : ℕ) (s : Text)
    → words_to_end n s ≡ true
    → (nl : Bool) × (name : Text) × AreWords n name × (s ≡ name ++ ends nl)
unfolding words_to_end
words_to_end-shape zero s h = let (nl, e) = at_end-shape s h in (nl, [], tt, e)
words_to_end-shape (suc n) [] h = (false, [], tt, refl)
words_to_end-shape (suc n) (c ∷ s) h = elim (Bool-cases (is_word c)) [
  | inl word ↦
      let (nl, name, words, e) = words_to_end-shape n s (ground arith) in
      (nl, c ∷ name, (word, words), ap (λ (t : Text). c ∷ t) e)
  | inr other ↦ let (nl, e) = at_end-shape (c ∷ s) (ground arith) in (nl, [], tt, e)
]

words_to_end-accepts :
    (n : ℕ) (nl : Bool) (name : Text) → AreWords n name → words_to_end n (name ++ ends nl) ≡ true
unfolding words_to_end
words_to_end-accepts zero true [] h = refl
words_to_end-accepts zero false [] h = refl
words_to_end-accepts (suc n) true [] h = ground arith
words_to_end-accepts (suc n) false [] h = refl
words_to_end-accepts zero nl (c ∷ name) h = elim h [ ]
words_to_end-accepts (suc n) nl (c ∷ name) h = rw (h.0) (words_to_end-accepts n nl name h.1)

is_safe-shape :
    (s : Text)
    → is_safe s ≡ true
    → (nl : Bool) × (name : Text) × IsIdentifier name × (s ≡ name ++ ends nl)
unfolding is_safe
is_safe-shape [] h = absurd (ground arith)
is_safe-shape (c ∷ s) h =
    let (nl, name, words, e) = words_to_end-shape 62 s (ground arith) in
    (nl, c ∷ name, (ground arith, words), ap (λ (t : Text). c ∷ t) e)

is_safe-accepts : (nl : Bool) (name : Text) → IsIdentifier name → is_safe (name ++ ends nl) ≡ true
unfolding is_safe
is_safe-accepts nl [] h = elim h [ ]
is_safe-accepts nl (c ∷ name) h = rw (h.0) (words_to_end-accepts 62 nl name h.1)

-- The names that pass the validation are exactly the identifiers of at most 63 letters, digits and
-- underscores that do not start with a digit, alone or with one newline after them. A name that
-- passes is returned as it is, and every other raises ValueError.
pub validate_table_name-accepts :
    (s : Text)
    → ((validate_table_name s ≡ ok s)
        ↔ ((nl : Bool) × (name : Text) × IsIdentifier name × (s ≡ name ++ ends nl)))
      × ((validate_table_name s ≡ ok s) ⊎ (validate_table_name s ≡ err value_error))
unfolding validate_table_name
validate_table_name-accepts s = (
  (
    λ passed. is_safe-shape s (ground (arith, Bool-cases (is_safe s))),
    λ (nl, name, h, e). rw (subst (λ t. is_safe t ≡ true) (sym e) (is_safe-accepts nl name h)) refl,
  ),
  elim (Bool-cases (is_safe s)) [
    | inl safe ↦ inl (rw safe refl)
    | inr unsafe ↦ inr (rw unsafe refl)
  ],
)
