-- ===== src/Payload/Redaction.antt =====
-- What `redact_payload` lets out.
use webhooks_engine.Prelude.{
  text_eq_refl, false, ◌≢◌, ◌≡◌, refl, Option, none, some, [], ◌∷◌, Text, text_eq, text_eq→eq,
  codes, Dict, lookup, insert, lookup-insert, lookup-nil, IsDistinct, arith, if◌then◌else◌,
  Option-cases, Bool-cases, inl, inr,
}
use webhooks_engine.Payload.Sensitive.{IsHidden, is_redacted-IsHidden}
use webhooks_engine.Payload.Defs.{Meta, is_redacted, redact_onto, redact_payload}

module _ {V : Type 0} (placeholder : V) (meta : Meta) where
  -- What the outgoing payload has for the name `k`, whose value is `o`.
  abbrev pub shown : Text → Option V → Option V
  shown k none = none
  shown k (some v) =
      if text_eq k (codes "meta")
      then none
      else some (if is_redacted meta k then placeholder else v)

  abbrev pub or_shown : Option V → Option V → Option V
  or_shown none o = o
  or_shown (some v) o = some v

  lookup-redact_onto :
      (k : Text) (redacted fields : Dict V)
      → IsDistinct fields
      → lookup k (redact_onto placeholder meta redacted fields)
        ≡ or_shown (shown k (lookup k fields)) (lookup k redacted)
  unfolding redact_onto lookup
  lookup-redact_onto k redacted [] d = refl
  lookup-redact_onto k redacted ((j, v) ∷ fields) d = elim (Bool-cases (text_eq j (codes "meta"))) [
    | inl housekeeping ↦
        rw housekeeping (ground (arith, lookup-redact_onto k redacted fields d.1, text_eq→eq k j))
    | inr other ↦
        let shown_value = if is_redacted meta j then placeholder else v in
        rw other (
          ground (
            arith,
            lookup-redact_onto k (insert j shown_value redacted) fields d.1,
            lookup-insert k j shown_value redacted,
            text_eq→eq k j,
          ))
  ]

  lookup-redacted :
      (k : Text) (fields : Dict V)
      → IsDistinct fields
      → lookup k (redact_payload placeholder meta fields) ≡ shown k (lookup k fields)
  unfolding redact_payload
  lookup-redacted k fields d = ground (
    arith,
    lookup-redact_onto k [] fields d,
    lookup-nil {V = V} k,
    Option-cases (shown k (lookup k fields)),
  )

  -- Of a payload with distinct names, the outgoing one has no `meta` and no field that the
  -- payload has not; it has the placeholder for a field that is listed, or that is named like a
  -- secret while `allow_sensitive` is off, and every other field as it was.
  pub lookup-redact_payload :
      (k : Text) (fields : Dict V)
      → IsDistinct fields
      → let out = lookup k (redact_payload placeholder meta fields) in
        (k ≡ codes "meta" → out ≡ none)
        × (lookup k fields ≡ none → out ≡ none)
        × ((v : V)
            → k ≢ codes "meta"
            → lookup k fields ≡ some v
            → (IsHidden meta k → out ≡ some placeholder) × (¬ IsHidden meta k → out ≡ some v))
  lookup-redact_payload k fields d =
      let seen = lookup-redacted k fields d in
      let hidden = is_redacted-IsHidden meta k in
      (
        λ e. ground (arith, seen, text_eq_refl (codes "meta"), e, Option-cases (lookup k fields)),
        λ e. ground (arith, seen),
        λ v other e.
            let named : text_eq k (codes "meta") ≡ false =
              elim (Bool-cases (text_eq k (codes "meta"))) [
                | inl same ↦ absurd (other (text_eq→eq k (codes "meta") same))
                | inr differs ↦ differs
              ] in
            (
              λ yes_. ground (arith, seen, hidden.1 yes_),
              λ no_. ground (arith, seen, hidden.0, Bool-cases (is_redacted meta k)),
            ),
      )
