-- ===== src/Policy/Defs.antt =====
-- webhook_engine/policy.py and `WebhookRetryConfig` of config.py.
-- There are no floats: a duration is a number of microseconds, the resolution at which
-- `timedelta` takes it, and `backoff_factor` and `jitter_pct` are hundredths. At that scale the
-- default configuration is exact. An HTTP status is a natural number.
use webhooks_engine.Prelude.{
  ℕ, ◌+◌, ◌-◌, ◌*◌, ◌/◌, ◌^◌, min, Bool, true, false, ◌&&◌, Option, none, some, [], ◌∷◌, Text,
  is_empty, if◌then◌else◌, leb, ltb, ◌==◌, Result, ok, err, Fault, value_error,
}
use webhooks_engine.Prelude.Strings.{strip}
use webhooks_engine.Types.{
  DateTime, DeliveryStatus, sent, failed_retry, dead_lettered, RetryReason, http_5xx, http_408,
  http_429, network_error, timeout, non_retryable_4xx, seconds,
}

pub record RetryConfig : Type 0 where
  pub max_attempts : ℕ
  pub base_delay : ℕ  -- microseconds
  pub backoff_factor : ℕ  -- hundredths
  pub max_delay : ℕ  -- microseconds
  pub jitter_pct : ℕ  -- hundredths

unfoldable pub default_retry : RetryConfig
default_retry = record {
  max_attempts = 8;
  base_delay = seconds 5;
  backoff_factor = 200;
  max_delay = seconds 3600;
  jitter_pct = 20;
}

-- What `parse_retry_after` takes from Python's libraries: `str.isdigit` of a character, the value
-- that `float` reads for it (`none`: it raises `ValueError`), and
-- `email.utils.parsedate_to_datetime`, as an aware time, a naive one, or a refusal.
pub data HttpDate : Type 0 where
  aware : DateTime → HttpDate
  naive refused : HttpDate

pub record DateLib : Type 0 where
  pub is_digit : ℕ → Bool
  pub digit_value : ℕ → Option ℕ
  pub parse_date : Text → HttpDate

module _ (lib : DateLib) where
  unfoldable pub all_digits : Text → Bool
  all_digits [] = true
  all_digits (c ∷ s) = if lib.is_digit c then all_digits s else false

  -- `float(text)` of a text of digits
  unfoldable pub float_of : ℕ → Text → Option ℕ
  float_of acc [] = some acc
  float_of acc (c ∷ s) = elim (lib.digit_value c) [
    | none ↦ none
    | some d ↦ float_of (acc * 10 + d) s
  ]

  -- The branch of an HTTP date: `max(0.0, (at - now).total_seconds())`.
  unfoldable pub wait_until : HttpDate → DateTime → Option ℕ
  wait_until (aware at) now = some (at - now)
  wait_until naive now = none
  wait_until refused now = none

  unfoldable pub parse_text : Text → DateTime → Result Fault (Option ℕ)
  unfolding all_digits float_of wait_until
  parse_text text now =
      if is_empty text
      then ok none
      else if all_digits text
      then elim (float_of 0 text) [ none ↦ err value_error | some n ↦ ok (some (seconds n)) ]
      else ok (wait_until (lib.parse_date text) now)

  unfoldable pub parse_retry_after : Option Text → DateTime → Result Fault (Option ℕ)
  unfolding parse_text strip
  parse_retry_after none now = ok none
  parse_retry_after (some raw) now = parse_text (strip raw) now

-- `classify_status`; `none` is success.
unfoldable pub classify_status : ℕ → Option RetryReason
classify_status status =
    if leb 200 status && ltb status 300
    then none
    else if leb 500 status
    then some http_5xx
    else if status == 408
    then some http_408
    else if status == 429
    then some http_429
    else some non_retryable_4xx

-- `httpx.RequestError`, and its subclass `httpx.TimeoutException`.
pub data RequestError : Type 0 where
  timeout_exception request_error : RequestError

unfoldable pub classify_exception : RequestError → RetryReason
classify_exception timeout_exception = timeout
classify_exception request_error = network_error

-- `RETRYABLE_REASONS`
unfoldable pub is_retryable : RetryReason → Bool
is_retryable http_5xx = true
is_retryable http_408 = true
is_retryable http_429 = true
is_retryable network_error = true
is_retryable timeout = true
is_retryable _ = false

unfoldable pub retry_on : RetryReason → ℕ → RetryConfig → Bool
unfolding is_retryable
retry_on reason attempt cfg = is_retryable reason && ltb attempt cfg.max_attempts

-- The delay before jitter: `min(base_delay * backoff_factor ** max(attempt - 1, 0), max_delay)`.
unfoldable pub capped_delay : ℕ → RetryConfig → ℕ
capped_delay attempt cfg =
    min (cfg.base_delay * cfg.backoff_factor ^ (attempt - 1) / 100 ^ (attempt - 1)) cfg.max_delay

unfoldable pub jitter : ℕ → RetryConfig → ℕ
unfolding capped_delay
jitter attempt cfg = capped_delay attempt cfg * cfg.jitter_pct / 100

-- `next_delay_s`. `uniform j` is what `rng.uniform(-j, j)` draws, counted from `-j`, so that
-- `capped + u - j` at a truncated `-` is `max(0.0, capped + draw)`.
unfoldable pub next_delay : (ℕ → ℕ) → ℕ → RetryConfig → Option ℕ → ℕ
unfolding jitter
next_delay uniform attempt cfg (some retry_after) = min retry_after cfg.max_delay
next_delay uniform attempt cfg none =
    capped_delay attempt cfg + uniform (jitter attempt cfg) - jitter attempt cfg

unfoldable pub outcome_status : Option RetryReason → Bool → DeliveryStatus
outcome_status none will_retry = sent
outcome_status (some reason) will_retry = if will_retry then failed_retry else dead_lettered

-- `retry_reason is not None and self._policy.retry_on(…)` of the dispatcher.
unfoldable pub will_retry : Option RetryReason → ℕ → RetryConfig → Bool
unfolding retry_on
will_retry none attempt cfg = false
will_retry (some reason) attempt cfg = retry_on reason attempt cfg
