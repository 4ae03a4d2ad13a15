-- ===== src/Redis/Scripts.antt =====
-- What the two Lua scripts do to the sorted sets.
use webhooks_engine.Prelude.{
  ℕ, zero, suc, ◌≡◌, refl, sym, ◌∙◌, Bool, true, false, Option, none, some, List, [], ◌∷◌, map,
  Text, text_eq, text_eq→eq, Dict, lookup, insert, erase, lookup-insert, lookup-erase, IsDistinct,
  insert-IsDistinct, erase-IsDistinct, filter, take, leb, arith, if◌then◌else◌, Bool-cases,
}
use webhooks_engine.Prelude.Tables.{order_by, any-map, any-order_by}
use webhooks_engine.Contract.Queue.{has}
use webhooks_engine.Redis.Defs.{entry_leb, member, is_up_to, zrangebyscore, move_all}

abbrev pub due : ℕ → Option ℕ → Bool
due t none = false
due t (some e) = leb e t

has-up_to :
    (k : Text) (t : ℕ) (z : Dict ℕ)
    → IsDistinct z
    → has k (map member (filter (is_up_to t) z)) ≡ due t (lookup k z)
unfolding lookup
has-up_to k t [] d = refl
has-up_to k t ((j, e) ∷ z) d =
    ground (arith, has-up_to k t z d.1, text_eq→eq k j, d.0, Bool-cases (leb e t))

-- A range by score holds exactly the members up to that score.
pub has-zrangebyscore :
    (k : Text) (t : ℕ) (z : Dict ℕ) → IsDistinct z → has k (zrangebyscore t z) ≡ due t (lookup k z)
unfolding zrangebyscore
has-zrangebyscore k t z d =
    any-map (text_eq k) member (order_by entry_leb (filter (is_up_to t) z))
    ∙ any-order_by _ entry_leb (filter (is_up_to t) z)
    ∙ sym (any-map (text_eq k) member (filter (is_up_to t) z))
    ∙ has-up_to k t z d

pub has-take : (k : Text) (n : ℕ) (ids : List Text) → has k (take n ids) ≡ true → has k ids ≡ true
has-take k zero ids h = absurd (ground arith)
has-take k (suc n) [] h = h
has-take k (suc n) (j ∷ ids) h = ground (arith, has-take k n ids)

-- The ids leave the first set and enter the second with the score.
pub lookup-move_all :
    (k : Text) (ids : List Text) (score : ℕ) (a b : Dict ℕ)
    → let (a', b') = move_all ids score (a, b) in
      (lookup k a' ≡ (if has k ids then none else lookup k a))
      × (lookup k b' ≡ (if has k ids then some score else lookup k b))
unfolding move_all
lookup-move_all k [] score a b = (refl, refl)
lookup-move_all k (j ∷ ids) score a b =
    let (left, right) = lookup-move_all k ids score (erase j a) (insert j score b) in
    (
      ground (arith, lookup-erase k j a, Bool-cases (has k ids)),
      ground (arith, lookup-insert k j score b, Bool-cases (has k ids)),
    )

pub move_all-IsDistinct :
    (ids : List Text) (score : ℕ) (a b : Dict ℕ)
    → IsDistinct a
    → IsDistinct b
    → let (a', b') = move_all ids score (a, b) in IsDistinct a' × IsDistinct b'
unfolding move_all
move_all-IsDistinct [] score a b d e = (d, e)
move_all-IsDistinct (j ∷ ids) score a b d e =
    move_all-IsDistinct ids score (erase j a) (insert j score b) (erase-IsDistinct j a d)
      (insert-IsDistinct j score b e)
