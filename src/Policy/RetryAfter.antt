-- ===== src/Policy/RetryAfter.antt =====
-- `parse_retry_after` of policy.py: when it raises.
use webhooks_engine.Prelude.{
  ℕ, ◌+◌, ◌*◌, ◌≡◌, refl, ◌↔◌, inl, inr, Bool, true, false, Option, none, some, [], ◌∷◌, Text, any,
  arith, err, value_error, is_empty, Option-cases,
}
use webhooks_engine.Prelude.Strings.{strip}
use webhooks_engine.Types.{DateTime}
use webhooks_engine.Policy.Defs.{DateLib, all_digits, float_of, parse_retry_after}

module _ (lib : DateLib) where
  -- `float` does not read the character.
  abbrev pub has_no_value : ℕ → Bool
  has_no_value c = elim (lib.digit_value c) [ none ↦ true | some _ ↦ false ]

  abbrev is_none : Option ℕ → Bool
  is_none none = true
  is_none (some _) = false

  float_of-none : (acc : ℕ) (s : Text) → is_none (float_of lib acc s) ≡ any has_no_value s
  unfolding float_of
  float_of-none acc [] = refl
  float_of-none acc (c ∷ s) = elim (Option-cases (lib.digit_value c)) [
    | inl e ↦ ground arith
    | inr (d, e) ↦ ground (arith, float_of-none (acc * 10 + d) s)
  ]

  -- It raises `ValueError` exactly on a value that is not blank, whose characters are all digits
  -- to `str.isdigit`, one of which `float` does not read.
  pub parse_retry_after-raises :
      (raw : Text) (now : DateTime)
      → (parse_retry_after lib (some raw) now ≡ err value_error) ↔ (
          (is_empty (strip raw) ≡ false)
          × (all_digits lib (strip raw) ≡ true)
          × (any has_no_value (strip raw) ≡ true))
  unfolding parse_retry_after
  parse_retry_after-raises raw now = (
    (λ h. ground (arith, float_of-none 0 (strip raw))),
    (λ h. ground (arith, float_of-none 0 (strip raw))),
  )
