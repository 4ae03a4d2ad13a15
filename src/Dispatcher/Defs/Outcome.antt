-- ===== src/Dispatcher/Defs/Outcome.antt =====
-- What `WebhookDispatcher.send` makes of an answer: the attempt, the status, and the transition.
use webhooks_engine.Prelude.{
  ℕ, ◌+◌, Bool, true, false, Option, none, some, [], codes, if◌then◌else◌, Result, ok, err, Fault,
  ◌>>◌, pure, raise,
}
use webhooks_engine.Types.{
  DateTime, DeliveryRecord, AttemptRecord, DispatchOutcome, DeliveryStatus, sent, failed_retry,
  RetryReason,
}
use webhooks_engine.Store.Defs.{mark_sent, schedule_retry}
use webhooks_engine.Policy.Defs.{
  parse_retry_after, classify_status, classify_exception, will_retry, next_delay, outcome_status,
}
use webhooks_engine.Dispatcher.Env.{Env, Profile, Answer, answered, failed, crashed}
use webhooks_engine.Dispatcher.Defs.Parts.{
  Send, on_store, header, dead_letter_from_attempt, retry_config,
}

-- `retry_reason` of an answer or of an `httpx.RequestError`.
unfoldable pub reason_of : Answer → Option RetryReason
unfolding classify_status classify_exception
reason_of (answered r) = classify_status r.status
reason_of (failed e text) = some (classify_exception e)
reason_of (crashed e) = none

abbrev is_none : Option RetryReason → Bool
is_none none = true
is_none (some _) = false

-- The `AttemptRecord` of a posted delivery.
unfoldable pub attempt_of : DateTime → DeliveryRecord → Answer → AttemptRecord
unfolding reason_of
attempt_of now rec' (answered r) = record {
  attempt = rec'.attempts + 1;
  attempted_at = now;
  http_code = some r.status;
  duration_ms = r.duration_ms;
  error = none;
  response_snippet = r.body_snippet;
  response_body = if is_none (reason_of (answered r)) then r.body else [];
  response_truncated = r.body_truncated;
}
attempt_of now rec' (failed e text) = record {
  attempt = rec'.attempts + 1;
  attempted_at = now;
  http_code = none;
  duration_ms = 0;
  error = some text;
  response_snippet = [];
  response_body = [];
  response_truncated = false;
}
attempt_of now rec' (crashed e) = record {
  attempt = rec'.attempts + 1;
  attempted_at = now;
  http_code = none;
  duration_ms = 0;
  error = none;
  response_snippet = [];
  response_body = [];
  response_truncated = false;
}

-- `waited`: the receiver's own wish, if there is an answer and the profile honours it.
unfoldable pub waited : Env → Profile → Answer → DateTime → Result Fault (Option ℕ)
unfolding header parse_retry_after
waited env profile (answered r) now =
    if profile.honour_retry_after
    then parse_retry_after env.dates (header (codes "retry-after") r.headers) now
    else ok none
waited env profile _ now = ok none

-- The retry at the delay that follows from `waited`, which may have raised.
unfoldable pub schedule :
    Env
    → DateTime
    → DeliveryRecord
    → Profile
    → AttemptRecord
    → Result Fault (Option ℕ)
    → Send DispatchOutcome
unfolding next_delay retry_config
schedule env now rec' profile attempt (err e) = raise e
schedule env now rec' profile attempt (ok asked) =
    let fire_at =
      now + next_delay env.uniform (rec'.attempts + 1) (retry_config env profile) asked in
    on_store (schedule_retry rec'.delivery_id fire_at attempt)
    >> pure (record { status = failed_retry; next_fire_at = some fire_at; attempt = attempt })

-- The branch of a retry.
unfoldable pub retry_later :
    Env → DateTime → DeliveryRecord → Profile → Answer → Send DispatchOutcome
unfolding waited schedule attempt_of
retry_later env now rec' profile answer =
    schedule env now rec' profile (attempt_of now rec' answer) (waited env profile answer now)

-- The status of a posted delivery.
unfoldable pub status_of : Env → DeliveryRecord → Profile → Answer → DeliveryStatus
unfolding reason_of will_retry outcome_status retry_config
status_of env rec' profile answer =
    let reason = reason_of answer in
    outcome_status reason (will_retry reason (rec'.attempts + 1) (retry_config env profile))

-- The three transitions.
unfoldable pub transition :
    Env → DateTime → DeliveryRecord → Profile → Answer → DeliveryStatus → Send DispatchOutcome
unfolding attempt_of retry_later dead_letter_from_attempt
transition env now rec' profile answer sent =
    on_store (mark_sent rec'.delivery_id (attempt_of now rec' answer))
    >> pure (record { status = sent; next_fire_at = none; attempt = attempt_of now rec' answer })
transition env now rec' profile answer failed_retry = retry_later env now rec' profile answer
transition env now rec' profile answer _ =
    dead_letter_from_attempt env rec' (attempt_of now rec' answer)

-- What follows the post. An exception other than `httpx.RequestError` leaves `send`.
unfoldable pub conclude : Env → DateTime → DeliveryRecord → Profile → Answer → Send DispatchOutcome
unfolding status_of transition
conclude env now rec' profile (crashed e) = raise e
conclude env now rec' profile answer =
    transition env now rec' profile answer (status_of env rec' profile answer)
