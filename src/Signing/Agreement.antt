-- ===== src/Signing/Agreement.antt =====
-- What an accepted delivery proves, and when the two verifiers agree.
mod Parts
use Parts.{macs_of_sound}
use webhooks_engine.Prelude.{
  ℕ, suc, ◌+◌, ◌/◌, ◌==◌, ◌++◌, is_empty, ap, subst, ◌≤◌, ◌≡◌, refl, sym, ◌∙◌, inl, inr, Bool, true,
  false, Option, none, some, List, [], ◌∷◌, Text, text_eq, text_eq→eq, text_eq_refl, codes, Dict,
  lookup, lookup-insert, insert, In, arith, if◌then◌else◌, Result, ok, err, Option-cases,
  Bool-cases,
}
use webhooks_engine.Prelude.Strings.{
  ℤ, pos, negsuc, split, partition, lower, to_lower, parse_int, decimal_int,
}
use webhooks_engine.Types.{Bytes, DateTime}
use webhooks_engine.Signing.Defs.{
  Crypto, timestamp, message, Refusal, lower_names, get_lowered, header, distance, is_v1, macs_in,
  macs_of, compare_any, verdict, check_macs, verify_read, verify, verify_inline, verify_webhook,
}

compare_any_sound :
    (expected : Text) (macs : List Text) → compare_any expected macs ≡ ok true → In expected macs
unfolding compare_any
compare_any_sound expected [] h = absurd (ground arith)
compare_any_sound expected (m ∷ macs) h = elim (Bool-cases (text_eq expected m)) [
  | inl same ↦ inl (sym (text_eq→eq expected m same))
  | inr other ↦ inr (compare_any_sound expected macs (ground arith))
]

verdict-ok : (r : Result Refusal Bool) → verdict r ≡ ok tt → r ≡ ok true
verdict-ok (err e) h = absurd (ground arith)
verdict-ok (ok true) h = refl
verdict-ok (ok false) h = absurd (ground arith)

check_macs_sound :
    (crypto : Crypto) (expected : Text) (macs : List Text)
    → check_macs crypto expected macs ≡ ok tt
    → In expected macs
unfolding check_macs
check_macs_sound crypto expected macs h =
    compare_any_sound expected macs (verdict-ok (compare_any expected macs) (ground arith))

-- The timestamp is within the window of the clock, on either side.
abbrev pub IsNear : ℕ → ℕ → ℤ → Type 0
IsNear current window_s (pos ts) = (ts ≤ current + window_s) × (current ≤ ts + window_s)
IsNear current window_s (negsuc n) = current + suc n ≤ window_s

near : (current window_s : ℕ) (ts : ℤ) → distance current ts ≤ window_s → IsNear current window_s ts
unfolding distance
near current window_s (pos ts) h = (omega arith, omega arith)
near current window_s (negsuc n) h = h

-- What stands behind an accepted delivery.
abbrev pub Proves : Crypto → Bytes → Text → Text → Text → Text → ℕ → ℕ → Type 0
Proves crypto body ts_raw event_id sig secret current window_s =
    (ts : ℤ) × (parse_int ts_raw ≡ some ts)
    × IsNear current window_s ts
    × In
        (codes "v1="
          ++ crypto.hmac_hex secret
              (decimal_int ts ++ b'.' ∷ event_id ++ b'.' ∷ crypto.sha256_hex body))
        (split sig)

verify_read_sound :
    (crypto : Crypto) (body : Bytes) (ts_raw event_id sig secret : Text) (now : DateTime)
    (window_s : ℕ)
    → verify_read crypto body ts_raw event_id sig secret now window_s ≡ ok tt
    → Proves crypto body ts_raw event_id sig secret (timestamp now) window_s
unfolding verify_read message
verify_read_sound crypto body ts_raw event_id sig secret now window_s h =
    elim (Option-cases (parse_int ts_raw)) [
      | inl e ↦ absurd (ground arith)
      | inr (ts, e) ↦ (
        ts,
        e,
        near (timestamp now) window_s ts (ground arith),
        macs_of_sound _ sig (
            check_macs_sound crypto
              (crypto.hmac_hex secret (message crypto (decimal_int ts) event_id body)) (macs_of sig)
              (ground arith)),
      )
    ]

-- `HmacSigner.verify` accepts a delivery only if its timestamp reads as a number within the
-- window of the clock in seconds, and one word of its signature header is `v1=` and the HMAC
-- under the secret of that number, the event id and the digest of the body, joined by dots.
pub verify_sound :
    (crypto : Crypto) (body : Bytes) (headers : Dict Text) (secret : Text) (now : DateTime)
    (window_s : ℕ)
    → verify crypto body headers secret now window_s ≡ ok tt
    → Proves crypto body
        (get_lowered (codes "webhook-timestamp") headers)
        (get_lowered (codes "webhook-event-id") headers)
        (get_lowered (codes "webhook-signature") headers)
        secret
        (now / 1_000_000)
        window_s
unfolding verify
verify_sound crypto body headers secret now window_s h =
    verify_read_sound crypto body (get_lowered (codes "webhook-timestamp") headers)
      (get_lowered (codes "webhook-event-id") headers)
      (get_lowered (codes "webhook-signature") headers) secret now window_s h

-- The value of the last header whose name is `n` in lower case.
abbrev pub last_named : Text → Dict Text → Option Text
last_named n [] = none
last_named n ((k, v) ∷ headers) = elim (last_named n headers) [
  | some later ↦ some later
  | none ↦ if text_eq n (lower k) then some v else none
]

abbrev or_lookup : Option Text → Option Text → Option Text
or_lookup none o = o
or_lookup (some v) o = some v

lookup-lower_names :
    (n : Text) (acc headers : Dict Text)
    → lookup n (lower_names acc headers) ≡ or_lookup (last_named n headers) (lookup n acc)
unfolding lower_names
lookup-lower_names n acc [] = refl
lookup-lower_names n acc ((k, v) ∷ headers) = ground (
  arith,
  lookup-lower_names n (insert (lower k) v acc) headers,
  lookup-insert n (lower k) v acc,
  Option-cases (last_named n headers),
)

-- No two names differ in case alone.
abbrev pub HasDistinctNames : Dict Text → Type 0
HasDistinctNames [] = Unit
HasDistinctNames ((k, v) ∷ headers) =
    (last_named (lower k) headers ≡ none) × HasDistinctNames headers

last_named-lookup :
    (name v : Text) (headers : Dict Text)
    → HasDistinctNames headers
    → lookup name headers ≡ some v
    → last_named (lower name) headers ≡ some v
unfolding lookup
last_named-lookup name v [] d h = h
last_named-lookup name v ((k, w) ∷ headers) d h = elim (Bool-cases (text_eq name k)) [
  | inl here ↦ ground (arith, text_eq→eq name k, text_eq_refl (lower k))
  | inr there ↦ ground (arith, last_named-lookup name v headers d.1)
]

header_lem :
    (name : Text) (headers : Dict Text)
    → HasDistinctNames headers
    → header name headers ≡ get_lowered (lower name) headers
unfolding header get_lowered
header_lem name headers d = elim (Option-cases (lookup name headers)) [
  | inl e ↦ ground arith
  | inr (v, e) ↦
      ground (arith, lookup-lower_names (lower name) [] headers, last_named-lookup name v headers d)
]

verify_inline-verify_read :
    (crypto : Crypto) (secret : Text) (body : Bytes) (ts_raw event_id sig : Text) (now : DateTime)
    (window_s : ℕ)
    → verify_inline crypto secret body ts_raw event_id sig (timestamp now) window_s
      ≡ verify_read crypto body ts_raw event_id sig secret now window_s
unfolding verify_inline verify_read message
verify_inline-verify_read crypto secret body ts_raw event_id sig now window_s = refl

verify_webhook-inline :
    (crypto : Crypto) (secret : Text) (body : Bytes) (headers : Dict Text) (current window_s : ℕ)
    → verify_webhook crypto secret body headers current window_s
      ≡ verify_inline crypto secret body
          (header (codes "Webhook-Timestamp") headers)
          (header (codes "Webhook-Event-Id") headers)
          (header (codes "Webhook-Signature") headers)
          current
          window_s
unfolding verify_webhook
verify_webhook-inline crypto secret body headers current window_s = refl

-- Where no two header names differ in case alone, `verify_webhook` and `HmacSigner.verify` decide
-- alike, and refuse for the same reason.
pub verify_webhook-verify :
    (crypto : Crypto) (secret : Text) (body : Bytes) (headers : Dict Text) (now : DateTime)
    (window_s : ℕ)
    → HasDistinctNames headers
    → verify_webhook crypto secret body headers (timestamp now) window_s
      ≡ verify crypto body headers secret now window_s
verify_webhook-verify crypto secret body headers now window_s d =
    let at : header (codes "Webhook-Timestamp") headers
        ≡ get_lowered (codes "webhook-timestamp") headers =
      unfold lower to_lower in header_lem (codes "Webhook-Timestamp") headers d in
    let id : header (codes "Webhook-Event-Id") headers
        ≡ get_lowered (codes "webhook-event-id") headers =
      unfold lower to_lower in header_lem (codes "Webhook-Event-Id") headers d in
    let sig : header (codes "Webhook-Signature") headers
        ≡ get_lowered (codes "webhook-signature") headers =
      unfold lower to_lower in header_lem (codes "Webhook-Signature") headers d in
    verify_webhook-inline crypto secret body headers (timestamp now) window_s
    ∙ rw (at, id, sig)
        (verify_inline-verify_read crypto secret body
            (get_lowered (codes "webhook-timestamp") headers)
            (get_lowered (codes "webhook-event-id") headers)
            (get_lowered (codes "webhook-signature") headers) now window_s
          ∙ (unfold verify in refl))
