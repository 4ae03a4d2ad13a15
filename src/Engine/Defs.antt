-- ===== src/Engine/Defs.antt =====
-- `WebhookEngine` of engine.py over the in-memory store.
-- The sends of a batch run one after the other, in the order of the batch: each is a task of its
-- own, and touches only its own record. The `on_outcome` hook sees an outcome after it is stored,
-- and its failures are swallowed, so it has no part in the state.
use webhooks_engine.Prelude.{
  ℕ, ◌+◌, none, some, List, [], ◌∷◌, ◌++◌, Text, codes, leb, length, if◌then◌else◌, is_empty, false,
  Result, ok, err, Fault, key_error, value_error, unknown_profile, other_error,
}
use webhooks_engine.Types.{
  DateTime, DeliveryRecord, AttemptRecord, DispatchOutcome, DeliveryStatus, sent, failed_retry,
  dead_lettered,
}
use webhooks_engine.Store.Defs.{Store, append_attempt, mark_dead, claim_batch, reclaim_stale}
use webhooks_engine.Dispatcher.Env.{Env}
use webhooks_engine.Dispatcher.Defs.{World, send}

-- `WebhookDispatchConfig`, the fields that a tick reads.
pub record DispatchConfig : Type 0 where
  pub batch_size : ℕ
  pub lease_ttl_s : ℕ
  pub max_unhandled_attempts : ℕ

pub record EngineTickStats : Type 0 where
  pub claimed : ℕ
  pub sent : ℕ
  pub retried : ℕ
  pub dead : ℕ
  pub errors : ℕ

-- `exc.__class__.__name__`
abbrev pub class_name : Fault → Text
class_name key_error = codes "KeyError"
class_name value_error = codes "ValueError"
class_name unknown_profile = codes "UnknownProfile"
class_name (other_error name) = name

-- The synthetic attempt of `_quarantine`.
abbrev pub unhandled_attempt : DateTime → DeliveryRecord → Fault → AttemptRecord
unhandled_attempt now rec' e = record {
  attempt = rec'.attempts + 1;
  attempted_at = now;
  http_code = none;
  duration_ms = 0;
  error = some (codes "engine_unhandled:" ++ class_name e);
  response_snippet = [];
  response_body = [];
  response_truncated = false;
}

-- `_quarantine`: the in-memory `append_attempt` does not raise, and what `mark_dead` raises is
-- logged.
unfoldable pub quarantine : DispatchConfig → DateTime → DeliveryRecord → Fault → Store → Store
quarantine cfg now rec' e s =
    let a = unhandled_attempt now rec' e in
    let s' = append_attempt rec'.delivery_id a s in
    if leb cfg.max_unhandled_attempts (rec'.attempts + 1)
    then (mark_dead rec'.delivery_id a s').1
    else s'

-- `_dispatch_one`: an exception of `send` is quarantined and raised again.
abbrev pub shield :
    DispatchConfig
    → DateTime
    → DeliveryRecord
    → Result Fault DispatchOutcome × World
    → Result Fault DispatchOutcome × World
shield cfg now rec' (ok o, w) = (ok o, w)
shield cfg now rec' (err e, w) = (err e, record w { store = quarantine cfg now rec' e w.store })

-- What the clock shows when a send begins, and when its exception is quarantined.
abbrev pub Moments : Type 0
Moments = DateTime × DateTime

unfoldable pub dispatch_one :
    DispatchConfig → Env → Moments → DeliveryRecord → World → Result Fault DispatchOutcome × World
dispatch_one cfg env (now, caught) rec' w = shield cfg caught rec' (send env now rec' w)

-- The sends of a batch; `at` is what the clock shows to each.
unfoldable pub dispatch_all :
    DispatchConfig
    → Env
    → (DeliveryRecord → Moments)
    → List DeliveryRecord
    → World
    → List (Result Fault DispatchOutcome) × World
unfolding dispatch_one
dispatch_all cfg env at [] w = ([], w)
dispatch_all cfg env at (rec' ∷ batch) w =
    let (o, w') = dispatch_one cfg env (at rec') rec' w in
    let (os, w'') = dispatch_all cfg env at batch w' in (o ∷ os, w'')

-- The counters after one outcome.
abbrev pub count_status : DeliveryStatus → EngineTickStats → EngineTickStats
count_status sent t = record t { sent = t.sent + 1 }
count_status failed_retry t = record t { retried = t.retried + 1 }
count_status dead_lettered t = record t { dead = t.dead + 1 }
count_status _ t = t

abbrev pub count_outcome : Result Fault DispatchOutcome → EngineTickStats → EngineTickStats
count_outcome (ok o) t = count_status o.status t
count_outcome (err e) t = record t { errors = t.errors + 1 }

unfoldable pub count_all : List (Result Fault DispatchOutcome) → EngineTickStats → EngineTickStats
count_all [] t = t
count_all (o ∷ os) t = count_all os (count_outcome o t)

abbrev pub no_stats : ℕ → ℕ → EngineTickStats
no_stats claimed errors = record {
  claimed = claimed;
  sent = 0;
  retried = 0;
  dead = 0;
  errors = errors;
}

-- `tick`: the clock is read for the reclaim, for the claim, by each send and by each quarantine.
unfoldable pub tick :
    DispatchConfig
    → Env
    → DateTime
    → DateTime
    → (DeliveryRecord → Moments)
    → World
    → EngineTickStats × World
unfolding dispatch_all count_all
tick cfg env now claim_now at w =
    let (reclaimed, s) = reclaim_stale now w.store in
    let reclaim_errors : ℕ = elim reclaimed [ ok _ ↦ 0 | err _ ↦ 1 ] in
    let (batch, s') = claim_batch claim_now cfg.lease_ttl_s cfg.batch_size s in
    let (os, w') = dispatch_all cfg env at batch (record w { store = s' }) in
    if is_empty batch
    then (no_stats 0 reclaim_errors, record w { store = s' })
    else (count_all os (no_stats (length batch) reclaim_errors), w')
