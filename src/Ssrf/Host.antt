-- ===== src/Ssrf/Host.antt =====
-- Host names in ssrf_guard.py: `_normalise_host`, `_host_matches`, `_is_trusted_private`.
-- The IDNA codec of Python is the argument `idna`: the ASCII form of a name, `none` where it
-- raises.
use webhooks_engine.Prelude.{
  ℕ, Bool, false, ◌&&◌, Option, none, some, List, Text, text_eq, is_empty, codes, any, drop,
  if◌then◌else◌, ◌==◌,
}
use webhooks_engine.Prelude.Strings.{
  lower, strip, rstrip, starts_with, ends_with, rpartition, decimal,
}

abbrev pub Idna : Type 0
Idna = Text → Option Text

-- `_normalise_host`
unfoldable pub normalise_host : Idna → Text → Text
unfolding lower strip rstrip
normalise_host idna host =
    let h = lower (rstrip (λ c. c == b'.') (strip host)) in
    elim (idna h) [ none ↦ h | some ascii ↦ lower ascii ]

-- The test of one pattern in `_host_matches`: an exact name, or `*.suffix`.
unfoldable pub matches_pattern : Text → Text → Bool
unfolding lower starts_with ends_with
matches_pattern h pattern =
    let pat = lower pattern in
    if starts_with (codes "*.") pat then ends_with (drop 1 pat) h else text_eq h pat

unfoldable pub host_matches : Idna → Text → List Text → Bool
unfolding normalise_host matches_pattern
host_matches idna host patterns = any (matches_pattern (normalise_host idna host)) patterns

-- A pattern `host:port` of `_is_trusted_private`, split at its last colon.
abbrev trusts_port : Text → Option ℕ → Text × Text → Bool
trusts_port h port (pat_host, pat_port) =
    text_eq h pat_host && elim port [ none ↦ false | some p ↦ text_eq (decimal p) pat_port ]

-- The test of one pattern in `_is_trusted_private`: `host` or `host:port`.
unfoldable pub trusts : Text → Option ℕ → Text → Bool
unfolding lower strip rpartition decimal
trusts h port pattern =
    let pat = strip (lower pattern) in
    if any (λ c. c == b':') pat then trusts_port h port (rpartition b':' pat) else text_eq h pat

unfoldable pub is_trusted_private : Idna → Text → Option ℕ → List Text → Bool
unfolding normalise_host trusts
is_trusted_private idna host port patterns =
    let h = normalise_host idna host in if is_empty h then false else any (trusts h port) patterns
