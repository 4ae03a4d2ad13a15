-- ===== src/Signing/RoundTrip.antt =====
-- From `HmacSigner.sign` of signer.py, and a rotation's two signatures, to the verifiers.
mod Macs
pub use Macs.*
use webhooks_engine.Prelude.{
  ℕ, ◌+◌, ◌≤◌, ◌≡◌, refl, sym, ap, ◌∙◌, ◌⊎◌, inl, inr, Bool, true, false, ◌&&◌, ◌||◌, none, some,
  List, [], ◌∷◌, ◌++◌, Text, text_eq, text_eq_refl, is_empty, Dict, lookup, insert, any, leb, ltb,
  All, All-map, In, arith, Result, ok, Fault, Option-cases,
}
use webhooks_engine.Prelude.Strings.{
  pos, lower, to_lower, split, partition, decimal, decimal_int, is_ascii_digit,
}
use webhooks_engine.Prelude.Decimals.{Spaceless, parse_int-decimal, split-Spaceless, split-append}
use webhooks_engine.Types.{Bytes, DateTime, DeliveryRecord}
use webhooks_engine.Dispatcher.Env.{
  Env, Profile, SecretMaterial, previous_at, SignatureHeaders, as_dict, SignRequest, SignedHeaders,
  shipped, header_dict,
}
use webhooks_engine.Dispatcher.Defs.{build_signed, join_signatures, sign_previous}
use webhooks_engine.Signing.Defs.{
  Crypto, v1, timestamp, message, sign, lower_names, get_lowered, header, distance, is_v1, macs_in,
  macs_of, compare_any, check_macs, verify_read, verify, verify_inline, verify_webhook,
}

-- Both verifiers find the headers of `as_dict`.
verify-as_dict :
    (crypto : Crypto) (h : SignatureHeaders) (body : Bytes) (secret : Text) (now : DateTime)
    (window_s : ℕ)
    → (verify crypto body (as_dict h) secret now window_s
        ≡ verify_read crypto body h.webhook_timestamp h.webhook_event_id h.webhook_signature secret
            now window_s)
      × (verify_webhook crypto secret body (as_dict h) (timestamp now) window_s
          ≡ verify_inline crypto secret body h.webhook_timestamp h.webhook_event_id
              h.webhook_signature
              (timestamp now)
              window_s)
unfolding verify verify_webhook as_dict get_lowered header lower_names lookup insert lower to_lower
    text_eq
verify-as_dict crypto h body secret now window_s = (refl, refl)

-- Where HMAC gives hex digests: what `HmacSigner` signs, both verifiers accept with the same
-- secret and body, while the receiver's clock is within the window of the signer's.
pub verify-sign :
    (crypto : Crypto) (r : SignRequest) (now : DateTime) (window_s : ℕ)
    → GivesDigests crypto
    → distance (timestamp now) (pos (timestamp r.now)) ≤ window_s
    → let headers = as_dict (sign crypto r) in
      (verify crypto r.body headers r.secret now window_s ≡ ok tt)
      × (verify_webhook crypto r.secret r.body headers (timestamp now) window_s ≡ ok tt)
verify-sign crypto r now window_s digests fresh =
    let m =
      crypto.hmac_hex r.secret (message crypto (decimal (timestamp r.now)) r.event_id r.body) in
    let (one, two) = verify-as_dict crypto (sign crypto r) r.body r.secret now window_s in
    let (good, good') =
      verify_read-ok crypto digests r.now now window_s r.event_id (signature m) r.secret r.body
        (m ∷ []) fresh refl (macs_of-signature m (digests _ _)) (digests _ _, tt) (inl refl) in
    (one ∙ (unfold sign in good), two ∙ (unfold sign in good'))

-- `HmacSigner` as the dispatcher's signer.
abbrev pub hmac_signer : Crypto → SignRequest → Result Fault SignedHeaders
hmac_signer crypto r = ok (shipped (sign crypto r))

-- The request of the dispatcher's two calls of the signer.
abbrev request : DateTime → DeliveryRecord → Bytes → Text → SignRequest
request now rec' body key = record {
  delivery_id = rec'.delivery_id;
  event_name = rec'.event_name;
  event_id = rec'.event_id;
  body = body;
  secret = key;
  now = now;
}

-- Both verifiers accept the headers with that key.
abbrev pub Accepts : Crypto → Bytes → Text → DateTime → ℕ → Dict Text → Type 0
Accepts crypto body key now window_s headers =
    (verify crypto body headers key now window_s ≡ ok tt)
    × (verify_webhook crypto key body headers (timestamp now) window_s ≡ ok tt)

-- Two signatures in one header: each of the two secrets is accepted.
joined-Accepts :
    (crypto : Crypto) (rec' : DeliveryRecord) (body : Bytes) (current old key : Text)
    (at now : DateTime) (window_s : ℕ)
    → GivesDigests crypto
    → (key ≡ current) ⊎ (old ≡ key)
    → distance (timestamp now) (pos (timestamp at)) ≤ window_s
    → let new = sign crypto (request at rec' body current) in
      let previous = sign crypto (request at rec' body old) in
      Accepts crypto body key now window_s (
        as_dict (record new {
          webhook_signature = new.webhook_signature ++ b' ' ∷ previous.webhook_signature;
        }))
joined-Accepts crypto rec' body current old key at now window_s digests known fresh =
    let text = message crypto (decimal (timestamp at)) rec'.event_id body in
    let m = crypto.hmac_hex current text in
    let m' = crypto.hmac_hex old text in
    let found : In (crypto.hmac_hex key text) (m ∷ m' ∷ []) = elim known [
      | inl e ↦ inl (ap (λ k. crypto.hmac_hex k text) (sym e))
      | inr e ↦ inr (inl (ap (λ k. crypto.hmac_hex k text) e))
    ] in
    let new = sign crypto (request at rec' body current) in
    let previous = sign crypto (request at rec' body old) in
    let (one, two) =
      verify-as_dict crypto
        (record new {
          webhook_signature = new.webhook_signature ++ b' ' ∷ previous.webhook_signature;
        })
        body key now window_s in
    let (good, good') =
      verify_read-ok crypto digests at now window_s rec'.event_id
        (signature m ++ b' ' ∷ signature m') key body (m ∷ m' ∷ []) fresh refl
        (macs_of-signatures m m' (digests _ _) (digests _ _)) (digests _ _, (digests _ _, tt))
        found in
    (one ∙ (unfold sign in good), two ∙ (unfold sign in good'))

-- Where HMAC gives hex digests: the dispatcher with `HmacSigner`, and a profile without a signer of
-- its own, builds the encoded body with headers that both verifiers accept
-- within the window, with the current secret and, while a rotation's grace period lasts, with the
-- previous one.
pub verify-build_signed :
    (crypto : Crypto) (env : Env) (profile : Profile) (rec' : DeliveryRecord)
    (secret : SecretMaterial) (key : Text) (at now : DateTime) (window_s : ℕ)
    → GivesDigests crypto
    → env.signer ≡ hmac_signer crypto
    → profile.signer ≡ none
    → (key ≡ secret.current) ⊎ (previous_at secret at ≡ some key)
    → distance (timestamp now) (pos (timestamp at)) ≤ window_s
    → (headers : Dict Text) × (build_signed env at rec' profile secret
        ≡ ok (profile.encode rec' (rec'.attempts + 1), headers))
      × Accepts crypto (profile.encode rec' (rec'.attempts + 1)) key now window_s headers
unfolding build_signed sign_previous join_signatures header_dict
verify-build_signed crypto env profile rec' secret key at now window_s digests by own known fresh =
    let body = profile.encode rec' (rec'.attempts + 1) in
    elim (Option-cases (previous_at secret at)) [
      | inl alone ↦
          let same : key ≡ secret.current = ground arith in
          (
            as_dict (sign crypto (request at rec' body secret.current)),
            ground arith,
            rw same (
                verify-sign crypto (request at rec' body secret.current) now window_s digests
                  fresh),
          )
      | inr (old, e) ↦
          let new = sign crypto (request at rec' body secret.current) in
          let previous = sign crypto (request at rec' body old) in
          (
            as_dict (record new {
              webhook_signature = new.webhook_signature ++ b' ' ∷ previous.webhook_signature;
            }),
            ground arith,
            joined-Accepts crypto rec' body secret.current old key at now window_s digests
                (ground arith) fresh,
          )
    ]
