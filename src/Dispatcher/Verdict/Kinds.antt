-- ===== src/Dispatcher/Verdict/Kinds.antt =====
-- The kinds of an outcome of `send`, and of the answers that lead to them.
use webhooks_engine.Prelude.{
  ◌∷◌, ◌*◌, ◌+◌, ◌≤◌, ◌<◌, ◌≡◌, ◌⊎◌, false, none, some, Text, lookup, Result, ok, err, Fault, List,
  [],
}
use webhooks_engine.Types.{
  DateTime, DeliveryRecord, DispatchOutcome, DeliveryStatus, sent, failed_retry, dead_lettered,
}
use webhooks_engine.Dispatcher.Env.{Env, Profile, Answer, answered, failed, crashed, Request}
use webhooks_engine.Dispatcher.Defs.{World, retry_config, attempt_of}

-- A successful answer.
abbrev pub IsSuccess : Answer → Type 0
IsSuccess (answered r) = (200 ≤ r.status) × (r.status < 300)
IsSuccess _ = ⊥

-- An answer that is worth another attempt.
abbrev pub IsTransient : Answer → Type 0
IsTransient (answered r) = (500 ≤ r.status) ⊎ ((r.status ≡ 408) ⊎ (r.status ≡ 429))
IsTransient (failed e text) = Unit
IsTransient (crashed e) = ⊥

-- One request was posted, after the posts before this send, and the answer is what the sender
-- gave to it.
abbrev pub Came : Env → List Request → List Request → Answer → Type 0
Came env before after answer = (q : Request) × (after ≡ q ∷ before) × (env.post before q ≡ answer)

-- Why the dispatcher came to an outcome.
pub data Verdict (env : Env) (now : DateTime) (rec' : DeliveryRecord) (before after : List Request)
    (o : DispatchOutcome) : Type 0 where
  -- It was posted and taken.
  delivered :
      (answer : Answer)
      → Came env before after answer
      → IsSuccess answer
      → o ≡ record { status = sent; next_fire_at = none; attempt = attempt_of now rec' answer }
      → Verdict env now rec' before after o
  -- It was posted, and there is another attempt, after at most the cap and `jitter_pct`
  -- hundredths of it.
  retried :
      (profile : Profile) (answer : Answer) (at : DateTime)
      → lookup rec'.profile env.profiles ≡ some profile
      → Came env before after answer
      → IsTransient answer
      → rec'.attempts + 1 < (retry_config env profile).max_attempts
      → now ≤ at
      → 100 * at
        ≤ 100 * now
          + (retry_config env profile).max_delay * (100 + (retry_config env profile).jitter_pct)
      → o ≡ record {
        status = failed_retry;
        next_fire_at = some at;
        attempt = attempt_of now rec' answer;
      }
      → Verdict env now rec' before after o
  -- It was posted, and either the answer is final or no attempt is left.
  given_up :
      (profile : Profile) (answer : Answer)
      → lookup rec'.profile env.profiles ≡ some profile
      → Came env before after answer
      → ¬ IsSuccess answer
      → (¬ IsTransient answer) ⊎ ((retry_config env profile).max_attempts ≤ rec'.attempts + 1)
      → o ≡ record {
        status = dead_lettered;
        next_fire_at = none;
        attempt = attempt_of now rec' answer;
      }
      → Verdict env now rec' before after o
  -- It stopped with an error of the dispatcher's own, and nothing was posted.
  stopped :
      (error : Text)
      → after ≡ before
      → o ≡ record {
        status = dead_lettered;
        next_fire_at = none;
        attempt = record {
          attempt = rec'.attempts + 1;
          attempted_at = now;
          http_code = none;
          duration_ms = 0;
          error = some error;
          response_snippet = [];
          response_body = [];
          response_truncated = false;
        };
      }
      → Verdict env now rec' before after o

-- An outcome, if there is one, has its reason.
abbrev pub Judged :
    Env → DateTime → DeliveryRecord → List Request → Result Fault DispatchOutcome × World → Type 0
Judged env now rec' before (ok o, w') = Verdict env now rec' before w'.posts o
Judged env now rec' before (err e, w') = Unit

-- What `status_of` says of an answer.
abbrev pub Means : Env → DeliveryRecord → Profile → Answer → DeliveryStatus → Type 0
Means env rec' profile answer sent = IsSuccess answer
Means env rec' profile answer failed_retry =
    IsTransient answer × (rec'.attempts + 1 < (retry_config env profile).max_attempts)
Means env rec' profile answer dead_lettered =
    (¬ IsSuccess answer)
    × ((¬ IsTransient answer) ⊎ ((retry_config env profile).max_attempts ≤ rec'.attempts + 1))
Means env rec' profile answer _ = ⊥
