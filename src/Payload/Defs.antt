-- ===== src/Payload/Defs.antt =====
-- `should_auto_redact` and `redact_payload` of envelope.py, on a payload whose values are of any
-- type, and the loop of `HttpxSender.post` in http_sender.py that reads the body of an answer.
-- Names are ASCII text.
use webhooks_engine.Prelude.{
  ℕ, ◌+◌, ◌-◌, Bool, true, false, not, ◌&&◌, ◌||◌, List, [], ◌∷◌, ◌++◌, Text, text_eq, codes, Dict,
  insert, any, take, length, ltb, if◌then◌else◌,
}
use webhooks_engine.Prelude.Strings.{lower, starts_with, ends_with}
use webhooks_engine.Types.{Bytes}

-- `re.search(p + "$", s)`: `$` also matches in front of a last newline.
unfoldable pub search_at_end : Text → Text → Bool
unfolding ends_with
search_at_end p s = ends_with p s || ends_with (p ++ b'\n' ∷ []) s

-- `re.search(p, s)` of a literal pattern
unfoldable pub search : Text → Text → Bool
unfolding starts_with
search p [] = starts_with p []
search p (c ∷ s) = let rest = search p s in if starts_with p (c ∷ s) then true else rest

unfoldable pub should_auto_redact : Text → Bool
unfolding search search_at_end lower
should_auto_redact name =
    search_at_end (codes "_enc") name
    || search_at_end (codes "_token") name
    || search (codes "password") (lower name)
    || search_at_end (codes "secret") (lower name)

-- `WebhookMeta`, the fields that `redact_payload` reads.
pub record Meta : Type 0 where
  pub redacted_fields : List Text
  pub allow_sensitive : Bool

-- The field is replaced.
unfoldable pub is_redacted : Meta → Text → Bool
unfolding should_auto_redact
is_redacted meta k =
    if any (text_eq k) meta.redacted_fields
    then true
    else not meta.allow_sensitive && should_auto_redact k

-- The loop of `redact_payload`; `placeholder` is `REDACTED_PLACEHOLDER` as a value.
unfoldable pub redact_onto : {V : Type 0} → V → Meta → Dict V → Dict V → Dict V
unfolding is_redacted insert
redact_onto placeholder meta redacted [] = redacted
redact_onto placeholder meta redacted ((k, v) ∷ fields) =
    let next =
      if text_eq k (codes "meta")
      then redacted
      else insert k (if is_redacted meta k then placeholder else v) redacted in
    redact_onto placeholder meta next fields

-- `redact_payload`
unfoldable pub redact_payload : {V : Type 0} → V → Meta → Dict V → Dict V
unfolding redact_onto
redact_payload placeholder meta fields = redact_onto placeholder meta [] fields

-- The loop over the chunks of the answer, from what is captured so far.
unfoldable pub capture : ℕ → Bytes → List Bytes → Bytes × Bool
capture limit captured [] = (captured, false)
capture limit captured (chunk ∷ chunks) =
    let rest = capture limit (captured ++ chunk) chunks in
    if ltb limit (length captured + length chunk)
    then (captured ++ take (limit - length captured) chunk, true)
    else rest
