-- ===== src/Dispatcher/Defs.antt =====
-- `WebhookDispatcher.send`, stage by stage. The per-host bulkhead delays a post and changes nothing
-- else, so it is not seen here.
mod Parts
mod Outcome
unfoldable pub use Parts.*
unfoldable pub use Outcome.*
use webhooks_engine.Prelude.{
  ℕ, ◌+◌, Bool, true, false, Option, none, some, List, [], ◌∷◌, ◌++◌, Text, text_eq, is_empty,
  codes, Dict, lookup, length, ltb, ◌==◌, if◌then◌else◌, Result, ok, err, Fault, unknown_profile,
  value_error, Action, ◌>>◌, pure, raise,
}
use webhooks_engine.Prelude.Strings.{lower}
use webhooks_engine.Types.{
  Bytes, DateTime, DeliveryRecord, AttemptRecord, DispatchOutcome, DeliveryStatus, sent,
  failed_retry, dead_lettered, RetryReason, reason_value,
}
use webhooks_engine.Store.Defs.{Store, Call, mark_sent, schedule_retry, mark_dead}
use webhooks_engine.Ssrf.Guard.{Url, Checked, host_of, port_of, check_ip}
use webhooks_engine.Policy.Defs.{
  RetryConfig, parse_retry_after, classify_status, classify_exception, will_retry, next_delay,
  outcome_status,
}
use webhooks_engine.Dispatcher.Env.{
  Env, Profile, SecretMaterial, previous_at, SignedHeaders, shipped, header_dict, Signer, Request,
  Answer, answered, failed, crashed, Exhausted,
}

-- The post, under the bulkhead of the host.
unfoldable pub post_and_conclude :
    Env → DateTime → DeliveryRecord → Profile → Request → Send DispatchOutcome
unfolding conclude
post_and_conclude env now rec' profile request w =
    conclude env now rec' profile (env.post w.posts request)
      (record w { posts = request ∷ w.posts })

unfoldable pub request_of : Env → DeliveryRecord → Profile → Text → Bytes × Dict Text → Request
unfolding max_response
request_of env rec' profile ip (body, headers) = record {
  url = rec'.target_url;
  body = body;
  headers = headers;
  resolved_ip = ip;
  connect_timeout = env.limits.http_connect_timeout;
  read_timeout = env.limits.http_read_timeout;
  total_timeout = env.limits.http_total_timeout;
  max_response_bytes = max_response env profile;
}

-- With what was signed: an exception of the signer leaves `send`.
unfoldable pub send_request :
    Env
    → DateTime
    → DeliveryRecord
    → Profile
    → Text
    → Result Fault (Bytes × Dict Text)
    → Send DispatchOutcome
unfolding request_of post_and_conclude
send_request env now rec' profile ip (err e) = raise e
send_request env now rec' profile ip (ok signed) =
    post_and_conclude env now rec' profile (request_of env rec' profile ip signed)

-- With what the secret reader gave: any exception of it is a dead letter.
unfoldable pub send_signed :
    Env
    → DateTime
    → DeliveryRecord
    → Profile
    → Text
    → Result Fault SecretMaterial
    → Send DispatchOutcome
unfolding dead_letter build_signed send_request
send_signed env now rec' profile ip (err e) = dead_letter env now rec' (codes "secret_unresolved")
send_signed env now rec' profile ip (ok secret) =
    send_request env now rec' profile ip (build_signed env now rec' profile secret)

-- With what `check_ip` said of the address.
unfoldable pub send_checked :
    Env → DateTime → DeliveryRecord → Profile → Text → Checked (Unit {0}) → Send DispatchOutcome
unfolding dead_letter send_signed
send_checked env now rec' profile ip (err reason) =
    dead_letter env now rec' (codes "blocked_ip_at_send:" ++ reason_value reason)
send_checked env now rec' profile ip (ok _) =
    send_signed env now rec' profile ip (env.read_secret rec'.subscription_id rec'.secret_version)

-- The guards of size and address.
unfoldable pub send_guarded : Env → DateTime → DeliveryRecord → Profile → Url → Send DispatchOutcome
unfolding host_of port_of current_ip check_ip dead_letter send_checked
send_guarded env now rec' profile url =
    let host = host_of url in
    let ip = current_ip env rec' host in
    if ltb env.limits.max_body_bytes (length rec'.data_json)
    then dead_letter env now rec' (codes "payload_too_large")
    else send_checked env now rec' profile ip
        (check_ip env.net env.security ip (some host) (some (port_of url)))

-- With the URL of the target, which may not split.
unfoldable pub send_to :
    Env → DateTime → DeliveryRecord → Profile → Option Url → Send DispatchOutcome
unfolding send_guarded
send_to env now rec' profile none = raise value_error
send_to env now rec' profile (some url) = send_guarded env now rec' profile url

-- With the profile of the record, which may be unknown.
unfoldable pub send_with : Env → DateTime → DeliveryRecord → Option Profile → Send DispatchOutcome
unfolding send_to
send_with env now rec' none = raise unknown_profile
send_with env now rec' (some profile) =
    send_to env now rec' profile (env.net.urlsplit rec'.target_url)

-- `send`
unfoldable pub send : Env → DateTime → DeliveryRecord → Send DispatchOutcome
unfolding send_with
send env now rec' = send_with env now rec' (lookup rec'.profile env.profiles)
