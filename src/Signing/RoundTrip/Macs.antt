-- ===== src/Signing/RoundTrip/Macs.antt =====
-- Signatures of hex digests, and what `verify` of signer.py and verify.py read from them.
use webhooks_engine.Prelude.{
  ℕ, ◌≤◌, ◌≡◌, refl, ap, ◌∙◌, inl, inr, Bool, true, false, ◌&&◌, ◌||◌, List, [], ◌∷◌, ◌++◌, Text,
  text_eq, text_eq_refl, is_empty, any, leb, ltb, All, All-map, In, arith, ok,
}
use webhooks_engine.Prelude.Strings.{pos, split, partition, decimal, decimal_int, is_ascii_digit}
use webhooks_engine.Prelude.Decimals.{Spaceless, parse_int-decimal, split-Spaceless, split-append}
use webhooks_engine.Types.{Bytes, DateTime}
use webhooks_engine.Signing.Defs.{
  Crypto, v1, timestamp, message, distance, is_v1, macs_in, macs_of, compare_any, check_macs,
  verify_read, verify_inline,
}

abbrev pub is_hex : ℕ → Bool
is_hex c = is_ascii_digit c || (leb 97 c && leb c 102)

-- A hex digest: not empty, and of the digits 0-9 and a-f.
abbrev pub IsDigest : Text → Type 0
IsDigest m = (is_empty m ≡ false) × All (λ c. is_hex c ≡ true) m

-- HMAC gives hex digests.
abbrev pub GivesDigests : Crypto → Type 0
GivesDigests crypto = (secret text : Text) → IsDigest (crypto.hmac_hex secret text)

abbrev pub signature : Text → Text
signature mac = v1 ++ b'=' ∷ mac

pub signature-Spaceless : (m : Text) → IsDigest m → Spaceless (signature m)
signature-Spaceless m h = (refl, (refl, (refl, All-map _ _ m (λ c e. ground arith) h.1)))

pub partition-signature : (m : Text) → partition b'=' (signature m) ≡ (v1, m)
unfolding partition
partition-signature m = refl

pub is_v1-signature : (m : Text) → IsDigest m → is_v1 (v1, m) ≡ true
unfolding text_eq
is_v1-signature m h = rw h.0 refl

pub macs_in-signature :
    (m : Text) (parts : List Text) → IsDigest m → macs_in (signature m ∷ parts) ≡ m ∷ macs_in parts
unfolding macs_in
macs_in-signature m parts h = rw (partition-signature m) (rw (is_v1-signature m h) refl)

pub macs_of-signature : (m : Text) → IsDigest m → macs_of (signature m) ≡ m ∷ []
macs_of-signature m h =
    unfold macs_of in
    (ap macs_in (split-Spaceless (signature m) (signature-Spaceless m h) refl)
      ∙ macs_in-signature m [] h
      ∙ (unfold macs_in in refl))

pub macs_of-signatures :
    (m m' : Text)
    → IsDigest m
    → IsDigest m'
    → macs_of (signature m ++ b' ' ∷ signature m') ≡ m ∷ m' ∷ []
macs_of-signatures m m' h h' =
    unfold macs_of in
    (ap macs_in (split-append (signature m) (signature m') (signature-Spaceless m h) refl)
      ∙ macs_in-signature m (split (signature m')) h
      ∙ ap (λ ms. m ∷ ms) (macs_of-signature m' h'))

pub digest-ascii : (m : Text) → All (λ c. is_hex c ≡ true) m → any (leb 128) m ≡ false
digest-ascii [] h = refl
digest-ascii (c ∷ m) h = ground (arith, digest-ascii m h.1)

pub compare_any-In :
    (expected : Text) (macs : List Text)
    → IsDigest expected
    → All IsDigest macs
    → In expected macs
    → compare_any expected macs ≡ ok true
unfolding compare_any
compare_any-In expected [] h hs found = absurd found
compare_any-In expected (m ∷ macs) h hs (inl here) =
    ground (arith, text_eq_refl expected, digest-ascii expected h.1)
compare_any-In expected (m ∷ macs) h hs (inr there) = ground (
  arith,
  digest-ascii expected h.1,
  digest-ascii m hs.0.1,
  compare_any-In expected macs h hs.1 there,
)

pub check_macs-In :
    (crypto : Crypto) (expected : Text) (macs : List Text)
    → IsDigest expected
    → All IsDigest macs
    → In expected macs
    → check_macs crypto expected macs ≡ ok tt
unfolding check_macs
check_macs-In crypto expected [] h hs found = absurd found
check_macs-In crypto expected (m ∷ macs) h hs found =
    rw (compare_any-In expected (m ∷ macs) h hs found) refl

module _ (crypto : Crypto) (digests : GivesDigests crypto) (at now : DateTime) (window_s : ℕ)
    (event_id sig secret : Text) (body : Bytes) (macs : List Text) where
  -- The mac of the message under the secret.
  abbrev mac : Text
  mac = crypto.hmac_hex secret (message crypto (decimal (timestamp at)) event_id body)

  pub verify_read-ok :
      distance (timestamp now) (pos (timestamp at)) ≤ window_s
      → is_empty sig ≡ false
      → macs_of sig ≡ macs
      → All IsDigest macs
      → In mac macs
      → (verify_read crypto body (decimal (timestamp at)) event_id sig secret now window_s ≡ ok tt)
        × (verify_inline crypto secret body
              (decimal (timestamp at))
              event_id
              sig
              (timestamp now)
              window_s
            ≡ ok tt)
  unfolding verify_read verify_inline message decimal_int
  verify_read-ok fresh filled e hs found =
      let (value, written) = parse_int-decimal (timestamp at) in
      let inside : ltb window_s (distance (timestamp now) (pos (timestamp at))) ≡ false =
        ground arith in
      (
        rw (written, filled, value, inside, e)
            (check_macs-In crypto mac macs (digests _ _) hs found),
        rw (written, filled, value, inside, e)
            (check_macs-In crypto mac macs (digests _ _) hs found),
      )
