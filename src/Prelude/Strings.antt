-- ===== src/Prelude/Strings.antt =====
-- The methods of Python's `str` that the program uses, on ASCII text: a code point above 127 is
-- no space and no digit, and has no lower case of its own.
use Prim.Native.Nat.{ℕ, zero, suc, ◌+◌, ◌-◌, ◌*◌, ◌/◌, ◌%◌}
use mathlib.Core.Bool.{Bool, true, false, ◌&&◌, ◌||◌}
use mathlib.Core.Option.{Option, none, some}
use mathlib.Core.List.{List, [], ◌∷◌, map, reverse}
use webhooks_engine.Prelude.Tests.{ltb, leb, ◌==◌, if◌then◌else◌}
use webhooks_engine.Prelude.Texts.{Text}

-- An `int`: `negsuc n` is -(n + 1).
pub data ℤ : Type 0 where
  pos : ℕ → ℤ
  negsuc : ℕ → ℤ

abbrev pub is_space : ℕ → Bool
is_space c = (leb 9 c && leb c 13) || ((leb 28 c && leb c 31) || c == 32)

abbrev pub is_ascii_digit : ℕ → Bool
is_ascii_digit c = leb 48 c && leb c 57

unfoldable pub to_lower : ℕ → ℕ
to_lower c = if leb 65 c && leb c 90 then c + 32 else c

-- `s.lower()`
unfoldable pub lower : Text → Text
unfolding to_lower
lower s = map to_lower s

unfoldable pub drop_while : (ℕ → Bool) → Text → Text
drop_while p [] = []
drop_while p (c ∷ s) = if p c then drop_while p s else c ∷ s

-- `s.rstrip(…)`
unfoldable pub rstrip : (ℕ → Bool) → Text → Text
unfolding drop_while
rstrip p s = reverse (drop_while p (reverse s))

-- `s.strip()`
unfoldable pub strip : Text → Text
unfolding drop_while rstrip
strip s = rstrip is_space (drop_while is_space s)

unfoldable pub starts_with : Text → Text → Bool
starts_with [] s = true
starts_with (c ∷ p) [] = false
starts_with (c ∷ p) (d ∷ s) = if c == d then starts_with p s else false

unfoldable pub ends_with : Text → Text → Bool
unfolding starts_with
ends_with p s = starts_with (reverse p) (reverse s)

-- `s.partition(sep)` of a single character: what stands before it and after it; without it, the
-- whole text and nothing.
unfoldable pub partition : ℕ → Text → Text × Text
partition sep [] = ([], [])
partition sep (c ∷ s) =
    let (before, after) = partition sep s in if c == sep then ([], s) else (c ∷ before, after)

-- `s.rpartition(sep)` where the character occurs.
unfoldable pub rpartition : ℕ → Text → Text × Text
unfolding partition
rpartition sep s =
    let (after, before) = partition sep (reverse s) in (reverse before, reverse after)

-- A word put in front of the words found.
abbrev pub with_word : Text → List Text → List Text
with_word [] ws = ws
with_word (c ∷ w) ws = (c ∷ w) ∷ ws

-- `s.split()`: the first word so far (empty at a space), and the words after it.
unfoldable pub split_words : Text → Text × List Text
split_words [] = ([], [])
split_words (c ∷ s) =
    let (w, ws) = split_words s in if is_space c then ([], with_word w ws) else (c ∷ w, ws)

unfoldable pub split : Text → List Text
unfolding split_words
split s = let (w, ws) = split_words s in with_word w ws

-- `str(n)`; the fuel `suc n` is more than `n` has digits.
unfoldable pub decimal_from : ℕ → ℕ → Text → Text
decimal_from zero n acc = acc
decimal_from (suc fuel) n acc =
    let rest = decimal_from fuel (n / 10) ((48 + n % 10) ∷ acc) in
    if ltb n 10 then (48 + n) ∷ acc else rest

unfoldable pub decimal : ℕ → Text
unfolding decimal_from
decimal n = decimal_from (suc n) n []

unfoldable pub decimal_int : ℤ → Text
unfolding decimal
decimal_int (pos n) = decimal n
decimal_int (negsuc n) = b'-' ∷ decimal (suc n)

-- The digits of an `int` literal; an underscore may stand between two digits. The flag says that
-- a digit stands just before.
unfoldable pub digits_value : Bool → ℕ → Text → Option ℕ
digits_value after acc [] = if after then some acc else none
digits_value after acc (c ∷ s) =
    let rest =
      digits_value (is_ascii_digit c) (if is_ascii_digit c then acc * 10 + (c - 48) else acc) s in
    if is_ascii_digit c || (after && c == b'_') then rest else none

abbrev pub negate : ℕ → ℤ
negate zero = pos 0
negate (suc n) = negsuc n

abbrev pub signed : Text → Option ℤ
signed [] = none
signed (c ∷ s) =
    if c == b'-'
    then elim (digits_value false 0 s) [ none ↦ none | some n ↦ some (negate n) ]
    else elim (digits_value false 0 (if c == b'+' then s else c ∷ s)) [
      | none ↦ none
      | some n ↦ some (pos n)
    ]

-- `int(s)`; `none` is its `ValueError`.
unfoldable pub parse_int : Text → Option ℤ
unfolding digits_value strip
parse_int s = signed (strip s)
