-- ===== src/Signing/Defs.antt =====
-- `HmacSigner` of signer.py and `verify_webhook` of verify.py.
-- SHA-256 and HMAC are arguments, as the hex digests that the code takes of them. The texts are
-- ASCII but for the parts of a signature, where `hmac.compare_digest` raises `TypeError` on other
-- characters. A `datetime` is in UTC, and a window is not negative.
use webhooks_engine.Prelude.{
  ℕ, suc, ◌+◌, ◌-◌, ◌/◌, Bool, true, false, ◌&&◌, ◌||◌, not, none, some, List, [], ◌∷◌, ◌++◌, map,
  Text, text_eq, is_empty, codes, Dict, lookup, insert, any, filter, leb, ltb, if◌then◌else◌,
  Result, ok, err,
}
use webhooks_engine.Prelude.Strings.{
  ℤ, pos, negsuc, lower, split, partition, decimal, decimal_int, parse_int,
}
use webhooks_engine.Types.{Bytes, DateTime}
use webhooks_engine.Dispatcher.Env.{SignatureHeaders, SignRequest}

-- `sha256(body).hexdigest()` and `hmac.new(secret, message, sha256).hexdigest()`.
pub record Crypto : Type 0 where
  pub sha256_hex : Bytes → Text
  pub hmac_hex : Text → Text → Text

-- `SignatureVersion.V1.value`
abbrev pub v1 : Text
v1 = codes "v1"

-- `int(t.timestamp())`
abbrev pub timestamp : DateTime → ℕ
timestamp t = t / 1_000_000

-- Why a verification refuses, and the `TypeError` of `compare_digest`.
pub data Refusal : Type 0 where
  missing_headers bad_timestamp out_of_window unsupported_version bad_mac type_error : Refusal

module _ (crypto : Crypto) where
  -- The signed message, of the text of the timestamp.
  unfoldable pub message : Text → Text → Bytes → Text
  message ts event_id body = ts ++ b'.' ∷ event_id ++ b'.' ∷ crypto.sha256_hex body

  -- `HmacSigner.sign`
  unfoldable pub sign : SignRequest → SignatureHeaders
  unfolding message decimal
  sign r =
      let ts = decimal (timestamp r.now) in
      let mac = crypto.hmac_hex r.secret (message ts r.event_id r.body) in
      record {
        webhook_id = r.delivery_id;
        webhook_event = r.event_name;
        webhook_event_id = r.event_id;
        webhook_timestamp = ts;
        webhook_signature = v1 ++ b'=' ∷ mac;
      }

-- `{k.lower(): v for k, v in headers.items()}`, onto what is there.
unfoldable pub lower_names : Dict Text → Dict Text → Dict Text
unfolding lower insert
lower_names acc [] = acc
lower_names acc ((k, v) ∷ headers) = lower_names (insert (lower k) v acc) headers

-- `lowered.get(name, "")`
unfoldable pub get_lowered : Text → Dict Text → Text
unfolding lower_names lookup
get_lowered name headers = elim (lookup name (lower_names [] headers)) [ none ↦ [] | some v ↦ v ]

-- `_header` of verify.py
unfoldable pub header : Text → Dict Text → Text
unfolding get_lowered
header name headers = elim (lookup name headers) [
  | some v ↦ v
  | none ↦ get_lowered (lower name) headers
]

-- `abs(current - ts)`
unfoldable pub distance : ℕ → ℤ → ℕ
distance current (pos ts) = (current - ts) + (ts - current)
distance current (negsuc n) = current + suc n

-- `version == "v1" and provided`
abbrev pub is_v1 : Text × Text → Bool
is_v1 (version, provided) = text_eq version v1 && not (is_empty provided)

-- The comprehension `macs`, over the parts of the signature.
unfoldable pub macs_in : List Text → List Text
unfolding partition
macs_in parts = map (λ part. part.1) (filter is_v1 (map (partition b'=') parts))

unfoldable pub macs_of : Text → List Text
unfolding split macs_in
macs_of sig = macs_in (split sig)

-- `any(hmac.compare_digest(expected, provided) for provided in macs)`
unfoldable pub compare_any : Text → List Text → Result Refusal Bool
unfolding text_eq
compare_any expected [] = ok false
compare_any expected (provided ∷ macs) =
    let rest = compare_any expected macs in
    if any (leb 128) expected || any (leb 128) provided
    then err type_error
    else if text_eq expected provided
    then ok true
    else rest

abbrev pub verdict : Result Refusal Bool → Result Refusal (Unit {0})
verdict (err e) = err e
verdict (ok matched) = if matched then ok tt else err bad_mac

module _ (crypto : Crypto) where
  -- The last checks of both verifiers, on the macs that the header gives.
  unfoldable pub check_macs : Text → List Text → Result Refusal (Unit {0})
  unfolding compare_any
  check_macs expected macs =
      if is_empty macs then err unsupported_version else verdict (compare_any expected macs)

  -- `HmacSigner.verify` once the headers are read.
  unfoldable pub verify_read :
      Bytes → Text → Text → Text → Text → DateTime → ℕ → Result Refusal (Unit {0})
  unfolding parse_int distance check_macs macs_of message decimal_int
  verify_read body ts_raw event_id sig secret now window_s =
      if is_empty ts_raw || is_empty sig then err missing_headers else elim (parse_int ts_raw) [
        | none ↦ err bad_timestamp
        | some ts ↦
            if ltb window_s (distance (timestamp now) ts)
            then err out_of_window
            else check_macs (crypto.hmac_hex secret (message crypto (decimal_int ts) event_id body))
                (macs_of sig)
      ]

  -- `HmacSigner.verify`
  unfoldable pub verify : Bytes → Dict Text → Text → DateTime → ℕ → Result Refusal (Unit {0})
  unfolding verify_read get_lowered
  verify body headers secret now window_s =
      verify_read body (get_lowered (codes "webhook-timestamp") headers)
        (get_lowered (codes "webhook-event-id") headers)
        (get_lowered (codes "webhook-signature") headers) secret now window_s

  -- `verify_webhook` without a signer of the caller's, once the headers are read; `current` is
  -- `now_ts`, or the clock.
  unfoldable pub verify_inline :
      Text → Bytes → Text → Text → Text → ℕ → ℕ → Result Refusal (Unit {0})
  unfolding parse_int distance check_macs macs_of decimal_int
  verify_inline secret body ts_raw event_id sig current window_s =
      if is_empty ts_raw || is_empty sig then err missing_headers else elim (parse_int ts_raw) [
        | none ↦ err bad_timestamp
        | some ts ↦
            if ltb window_s (distance current ts)
            then err out_of_window
            else let digest = crypto.sha256_hex body in
              check_macs
                (crypto.hmac_hex secret (decimal_int ts ++ b'.' ∷ event_id ++ b'.' ∷ digest))
                (macs_of sig)
      ]

  unfoldable pub verify_webhook : Text → Bytes → Dict Text → ℕ → ℕ → Result Refusal (Unit {0})
  unfolding verify_inline header
  verify_webhook secret body headers current window_s =
      verify_inline secret body (header (codes "Webhook-Timestamp") headers)
        (header (codes "Webhook-Event-Id") headers) (header (codes "Webhook-Signature") headers)
        current window_s
