-- ===== src/Payload/Capture.antt =====
-- How much of an answer's body is kept.
use webhooks_engine.Prelude.{
  ℕ, zero, suc, ◌+◌, ◌-◌, ◌≤◌, ◌≡◌, refl, sym, ap, ◌∙◌, List, [], ◌∷◌, ◌++◌, take, length,
  length-append, ltb, arith, Bool-cases, inl, inr,
}
use mathlib.Core.List.{append_assoc, append-nil}
use webhooks_engine.Types.{Bytes}
use webhooks_engine.Payload.Defs.{capture}

-- The whole body.
abbrev pub joined : List Bytes → Bytes
joined [] = []
joined (chunk ∷ chunks) = chunk ++ joined chunks

take_all : (n : ℕ) (xs : Bytes) → length xs ≤ n → take n xs ≡ xs
take_all zero [] h = refl
take_all (suc n) [] h = refl
take_all zero (x ∷ xs) h = absurd (omega arith)
take_all (suc n) (x ∷ xs) h = ap (λ r. x ∷ r) (take_all n xs (omega arith))

take-append_inside : (n : ℕ) (xs ys : Bytes) → n ≤ length xs → take n (xs ++ ys) ≡ take n xs
take-append_inside zero xs ys h = refl
take-append_inside (suc n) [] ys h = absurd (omega arith)
take-append_inside (suc n) (x ∷ xs) ys h =
    ap (λ r. x ∷ r) (take-append_inside n xs ys (omega arith))

take-append_past :
    (n : ℕ) (xs ys : Bytes) → length xs ≤ n → take n (xs ++ ys) ≡ xs ++ take (n - length xs) ys
take-append_past n [] ys h = let e : n - zero ≡ n = omega arith in rw e refl
take-append_past zero (x ∷ xs) ys h = absurd (omega arith)
take-append_past (suc n) (x ∷ xs) ys h =
    let e : suc n - suc (length xs) ≡ n - length xs = omega arith in
    rw e (ap (λ r. x ∷ r) (take-append_past n xs ys (omega arith)))

capture_from :
    (limit : ℕ) (captured : Bytes) (chunks : List Bytes)
    → length captured ≤ limit
    → ((capture limit captured chunks).0 ≡ take limit (captured ++ joined chunks))
      × ((capture limit captured chunks).1 ≡ ltb limit (length (captured ++ joined chunks)))
unfolding capture
capture_from limit captured [] h =
    rw (append-nil captured) (sym (take_all limit captured h), ground arith)
capture_from limit captured (chunk ∷ chunks) h =
    elim (Bool-cases (ltb limit (length captured + length chunk))) [
      | inl over ↦ rw over (
        ap (λ r. captured ++ r)
              (sym
                (take-append_inside (limit - length captured) chunk (joined chunks) (ground arith)))
            ∙ sym (take-append_past limit captured (chunk ++ joined chunks) h),
        ground (
          arith,
          length-append captured (chunk ++ joined chunks),
          length-append chunk (joined chunks),
        ),
      )
      | inr fits ↦ rw fits (
          rw (← append_assoc captured chunk (joined chunks)) (
            capture_from limit (captured ++ chunk) chunks
              (ground (arith, length-append captured chunk))))
    ]

-- However an answer is cut into chunks, its first `limit` bytes are kept, and it counts as
-- truncated exactly if it is longer.
pub capture-take :
    (limit : ℕ) (chunks : List Bytes)
    → ((capture limit [] chunks).0 ≡ take limit (joined chunks))
      × ((capture limit [] chunks).1 ≡ ltb limit (length (joined chunks)))
capture-take limit chunks = capture_from limit [] chunks (omega arith)
