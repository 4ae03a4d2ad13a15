-- ===== src/Examples/Guarded.antt =====
-- The guard, the signer and the verifiers on concrete data.
use webhooks_engine.Prelude.{
  ◌+◌, ◌/◌, ◌%◌, ◌^◌, ◌≡◌, refl, inr, true, some, [], ◌∷◌, ◌++◌, map, Text, codes, text_eq, All,
  arith, ok, Dict,
}
use webhooks_engine.Prelude.Strings.{lower, to_lower}
use webhooks_engine.Ssrf.Address.{v4, from_strings, blocks, default_blocked_cidrs}
use webhooks_engine.Ssrf.Guard.{ResolvedTarget, Url, validate}
use webhooks_engine.Ssrf.Ranges.{is_internal, blocks-default_blocked_cidrs}
use webhooks_engine.Ssrf.Validation.{Accepted, validate-Accepted}
use webhooks_engine.Dispatcher.Env.{SecretMaterial, previous_at, SignRequest, as_dict}
use webhooks_engine.Dispatcher.Defs.{build_signed}
use webhooks_engine.Signing.Defs.{
  Crypto, timestamp, sign, get_lowered, verify, verify_webhook, distance,
}
use webhooks_engine.Signing.RoundTrip.{
  GivesDigests, is_hex, hmac_signer, Accepts, verify-sign, verify-build_signed,
}
use webhooks_engine.Signing.Agreement.{
  Proves, HasDistinctNames, verify_sound, verify_webhook-verify,
}
use webhooks_engine.Examples.Setup.{net, security, env, profile, first}

-- 172.20.0.1
blocks-default_blocked_cidrs_example :
    blocks (from_strings default_blocked_cidrs) (v4 0xac140001)
    ≡ is_internal (0xac140001 / 2 ^ 24) (0xac140001 / 2 ^ 16 % 256)
blocks-default_blocked_cidrs_example = blocks-default_blocked_cidrs 0xac140001 (omega arith)

abbrev target : ResolvedTarget
target = record {
  host = codes "a.example";
  port = 443;
  scheme = codes "https";
  ips = codes "8.8.8.8" ∷ [];
}

validates :
    validate net security (codes "https://a.example") (codes "8.8.8.8" ∷ []) (codes "prod")
    ≡ some (ok target)
unfolding validate text_eq blocks from_strings default_blocked_cidrs
validates = refl

validate-Accepted_example :
    (p : Url) × (net.urlsplit (codes "https://a.example") ≡ some p)
    × Accepted net security (codes "prod") (codes "8.8.8.8" ∷ []) p target
validate-Accepted_example =
    validate-Accepted net security (codes "https://a.example") (codes "prod") (codes "8.8.8.8" ∷ [])
      target validates

-- A toy HMAC, of hex digits.
abbrev crypto : Crypto
crypto = record {
  sha256_hex = λ body. codes "00";
  hmac_hex = λ secret text. b'f' ∷ map (λ c. 97 + c % 6) (secret ++ text);
}

hex_digits : (s : Text) → All (λ c. is_hex c ≡ true) (map (λ c. 97 + c % 6) s)
hex_digits [] = tt
hex_digits (c ∷ s) = (ground arith, hex_digits s)

crypto-GivesDigests : GivesDigests crypto
crypto-GivesDigests secret text = (refl, (refl, hex_digits (secret ++ text)))

abbrev request : SignRequest
request = record {
  delivery_id = codes "d";
  event_name = codes "order.paid";
  event_id = codes "e";
  body = codes "{}";
  secret = codes "s";
  now = 1_700_000_000_000_000;
}

verify-sign_example :
    let headers = as_dict (sign crypto request) in
    (verify crypto (codes "{}") headers (codes "s") 1_700_000_100_000_000 300 ≡ ok tt)
    × (verify_webhook crypto (codes "s") (codes "{}") headers (timestamp 1_700_000_100_000_000) 300
        ≡ ok tt)
verify-sign_example =
    verify-sign crypto request 1_700_000_100_000_000 300 crypto-GivesDigests
      (unfold distance in omega arith)

verify_sound_example :
    Proves crypto
      (codes "{}")
      (get_lowered (codes "webhook-timestamp") (as_dict (sign crypto request)))
      (get_lowered (codes "webhook-event-id") (as_dict (sign crypto request)))
      (get_lowered (codes "webhook-signature") (as_dict (sign crypto request)))
      (codes "s")
      1_700_000_100
      300
verify_sound_example =
    verify_sound crypto (codes "{}") (as_dict (sign crypto request)) (codes "s")
      1_700_000_100_000_000 300 verify-sign_example.0

signed_names : HasDistinctNames (as_dict (sign crypto request))
unfolding as_dict lower to_lower text_eq
signed_names = (refl, (refl, (refl, (refl, (refl, (refl, tt))))))

verify_webhook-verify_example :
    verify_webhook crypto
      (codes "s")
      (codes "{}")
      (as_dict (sign crypto request))
      (timestamp 1_700_000_100_000_000)
      300
    ≡ verify crypto
        (codes "{}")
        (as_dict (sign crypto request))
        (codes "s")
        1_700_000_100_000_000
        300
verify_webhook-verify_example =
    verify_webhook-verify crypto (codes "s") (codes "{}") (as_dict (sign crypto request))
      1_700_000_100_000_000 300 signed_names

abbrev rotating : SecretMaterial
rotating = record {
  current = codes "new";
  previous = some (codes "old");
  previous_expires_at = some 1_800_000_000_000_000;
}

-- The receiver still has the old secret.
verify-build_signed_example :
    (headers : Dict Text) × (build_signed
        (record (env 200) { signer = hmac_signer crypto })
        1_700_000_000_000_000
        first
        profile
        rotating
      ≡ ok (codes "{}", headers))
    × Accepts crypto (codes "{}") (codes "old") 1_700_000_100_000_000 300 headers
unfolding previous_at
verify-build_signed_example =
    verify-build_signed crypto (record (env 200) { signer = hmac_signer crypto }) profile first
      rotating (codes "old") 1_700_000_000_000_000 1_700_000_100_000_000 300 crypto-GivesDigests
      refl refl (inr refl) (unfold distance in omega arith)
