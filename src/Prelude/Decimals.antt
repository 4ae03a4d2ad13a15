-- ===== src/Prelude/Decimals.antt =====
-- Lemmas on the text of numbers and on splitting at spaces.
use webhooks_engine.Prelude.{
  ℕ, zero, suc, ◌+◌, ◌-◌, ◌*◌, ◌/◌, ◌%◌, ◌<◌, ◌≡◌, refl, ◌∙◌, Bool, true, false, some, List, [],
  ◌∷◌, ◌++◌, Text, is_empty, All, All-map, arith, ltb, ◌==◌, Bool-cases, inl, inr,
}
use mathlib.Core.List.{reverse, reverse-cons, reverse-reverse}
use webhooks_engine.Prelude.Strings.{
  pos, is_space, is_ascii_digit, drop_while, rstrip, strip, split, split_words, decimal,
  decimal_from, digits_value, signed, parse_int, with_word,
}

abbrev pub Digits : Text → Type 0
Digits = All (λ c. is_ascii_digit c ≡ true)

abbrev pub Spaceless : Text → Type 0
Spaceless = All (λ c. is_space c ≡ false)

decimal_from-Digits :
    (fuel n : ℕ) (acc : Text)
    → n < fuel
    → Digits acc
    → Digits (decimal_from fuel n acc) × (is_empty (decimal_from fuel n acc) ≡ false)
unfolding decimal_from
decimal_from-Digits zero n acc h d = absurd (omega arith)
decimal_from-Digits (suc fuel) n acc h d = elim (Bool-cases (ltb n 10)) [
  | inl small ↦ rw small ((ground arith, d), refl)
  | inr large ↦
      rw large
        (decimal_from-Digits fuel (n / 10) ((48 + n % 10) ∷ acc) (ground arith) (ground arith, d))
]

digits_value-digit :
    (n : ℕ) (acc : Text)
    → digits_value true (n / 10) ((48 + n % 10) ∷ acc) ≡ digits_value true n acc
unfolding digits_value
digits_value-digit n acc =
    let digit : is_ascii_digit (48 + n % 10) ≡ true = ground arith in
    let value : n / 10 * 10 + (48 + n % 10 - 48) ≡ n = omega arith in rw (digit, value) refl

digits_value-decimal_from :
    (fuel n : ℕ) (after : Bool) (acc : Text)
    → n < fuel
    → digits_value after 0 (decimal_from fuel n acc) ≡ digits_value true n acc
unfolding decimal_from digits_value
digits_value-decimal_from zero n after acc h = absurd (omega arith)
digits_value-decimal_from (suc fuel) n after acc h = elim (Bool-cases (ltb n 10)) [
  | inl small ↦ rw small (ground arith)
  | inr large ↦ rw large (
      digits_value-decimal_from fuel (n / 10) after ((48 + n % 10) ∷ acc) (ground arith)
      ∙ digits_value-digit n acc)
]

drop_while-none : (p : ℕ → Bool) (s : Text) → All (λ c. p c ≡ false) s → drop_while p s ≡ s
unfolding drop_while
drop_while-none p [] h = refl
drop_while-none p (c ∷ s) h = rw h.0 refl

pub All-append {κ} : (P : ℕ → Type κ) (xs ys : Text) → All P xs → All P ys → All P (xs ++ ys)
All-append P [] ys h k = k
All-append P (x ∷ xs) ys h k = (h.0, All-append P xs ys h.1 k)

pub Digits-Spaceless : (s : Text) → Digits s → Spaceless s
Digits-Spaceless s h = All-map _ _ s (λ c e. ground arith) h

All-reverse {κ} : (P : ℕ → Type κ) (s : Text) → All P s → All P (reverse s)
All-reverse P [] h = h
All-reverse P (c ∷ s) h =
    rw (reverse-cons c s) (All-append P (reverse s) (c ∷ []) (All-reverse P s h.1) (h.0, tt))

strip-Spaceless : (s : Text) → Spaceless s → strip s ≡ s
unfolding strip rstrip
strip-Spaceless s h =
    rw (drop_while-none is_space s h)
      (rw (drop_while-none is_space (reverse s) (All-reverse _ s h)) (reverse-reverse s))

signed-Digits :
    (s : Text) (n : ℕ)
    → Digits s
    → is_empty s ≡ false
    → digits_value false 0 s ≡ digits_value true n []
    → signed s ≡ some (pos n)
unfolding digits_value
signed-Digits [] n h filled value = absurd (ground arith)
signed-Digits (c ∷ s) n h filled value =
    let no_minus : (c == b'-') ≡ false = ground (arith, h.0) in
    let no_plus : (c == b'+') ≡ false = ground (arith, h.0) in rw (no_minus, no_plus, value) refl

-- `int(str(n))` is `n`.
pub parse_int-decimal :
    (n : ℕ) → (parse_int (decimal n) ≡ some (pos n)) × (is_empty (decimal n) ≡ false)
unfolding parse_int decimal
parse_int-decimal n =
    let (digits, filled) = decimal_from-Digits (suc n) n [] (omega arith) tt in
    let value = digits_value-decimal_from (suc n) n false [] (omega arith) in
    (
      rw (strip-Spaceless _ (Digits-Spaceless _ digits)) (signed-Digits _ n digits filled value),
      filled,
    )

with_word-filled : (w : Text) (ws : List Text) → is_empty w ≡ false → with_word w ws ≡ w ∷ ws
with_word-filled [] ws h = absurd (ground arith)
with_word-filled (c ∷ w) ws h = refl

split_words-Spaceless : (w : Text) → Spaceless w → split_words w ≡ (w, [])
unfolding split_words
split_words-Spaceless [] h = refl
split_words-Spaceless (c ∷ w) h = rw (h.0, split_words-Spaceless w h.1) refl

split_words-append : (w s : Text) → Spaceless w → split_words (w ++ b' ' ∷ s) ≡ (w, split s)
unfolding split_words split
split_words-append [] s h = refl
split_words-append (c ∷ w) s h = rw (h.0, split_words-append w s h.1) refl

-- A word without a space is the only word of its text.
pub split-Spaceless : (w : Text) → Spaceless w → is_empty w ≡ false → split w ≡ w ∷ []
unfolding split
split-Spaceless w h filled = rw (split_words-Spaceless w h) (with_word-filled w [] filled)

-- A word, a space, and the words of the rest.
pub split-append :
    (w s : Text) → Spaceless w → is_empty w ≡ false → split (w ++ b' ' ∷ s) ≡ w ∷ split s
split-append w s h filled =
    unfold split in rw (split_words-append w s h) (with_word-filled w (split s) filled)
