-- ===== src/Dispatcher/Verdict.antt =====
-- What an outcome of `send` means: which answer leads to which transition, and when the next
-- attempt falls due.
mod Kinds
mod Answers
pub use Kinds.*
use Answers.{answered-Means, failed-Means}
use webhooks_engine.Prelude.{
  Bool, true, ◌∷◌, ℕ, ◌+◌, ◌≤◌, ◌<◌, ◌≡◌, sym, ap, ◌∙◌, if◌then◌else◌, refl, ◌⊎◌, inl, inr, false,
  Option, none, some, Text, Dict, lookup, arith, Result, ok, err, Fault, length, ltb, Bool-cases,
  Option-cases, pure, ◌>>◌, List, [],
}
use webhooks_engine.Types.{
  Bytes, DateTime, DeliveryRecord, AttemptRecord, HttpSendResult, DispatchOutcome, DeliveryStatus,
  sent, failed_retry, dead_lettered, pending, in_flight, cancelled,
}
use webhooks_engine.Ssrf.Guard.{Url, Checked}
use webhooks_engine.Policy.Defs.{
  RequestError, timeout_exception, request_error, classify_status, will_retry, outcome_status,
  next_delay, jitter,
}
use webhooks_engine.Policy.Delay.{next_delay_bounds, classify_status-outcome}
use webhooks_engine.Dispatcher.Env.{
  Env, Profile, SecretMaterial, Answer, answered, failed, crashed, Request,
}
use webhooks_engine.Store.Defs.{Call, mark_sent, schedule_retry, mark_dead}
use webhooks_engine.Dispatcher.Atomic.{on_store-then}
use webhooks_engine.Dispatcher.Env.{Exhausted}
use webhooks_engine.Dispatcher.Defs.{
  World, Send, dead_letter_from_attempt, dead_letter, retry_later, schedule, transition, conclude,
  post_and_conclude, send_request, send_signed, send_checked, send_guarded, send_to, send_with,
  send, retry_config, attempt_of, status_of, on_store, request_of, emit, exhausted_event,
}

result-cases : (r : Result Fault (Unit {0})) → (r ≡ ok tt) ⊎ ((e : Fault) × (r ≡ err e))
result-cases (ok tt) = inl refl
result-cases (err e) = inr (e, refl)

on_store-raised :
    (m : Call (Unit {0})) {A : Type 0} (k : Send A) (w : World) {e : Fault}
    → (m w.store).0 ≡ err e
    → ((on_store m >> k) w).0 ≡ err e
on_store-raised m k w h = ground arith

raised-Judged :
    (env : Env) (now : DateTime) (rec' : DeliveryRecord) (before : List Request)
    (ended : Result Fault DispatchOutcome × World) {e : Fault}
    → ended.0 ≡ err e
    → Judged env now rec' before ended
raised-Judged env now rec' before (ok o, w') h = absurd (ground arith)
raised-Judged env now rec' before (err e, w') h = tt

module _ (env : Env) (now : DateTime) (rec' : DeliveryRecord) where
  module _ (before : List Request) where
    -- A store call that raises ends the send; else the rest goes on.
    store_then-Judged :
        (m : Call (Unit {0})) (k : Send DispatchOutcome) (w : World)
        → ((w' : World) → w'.posts ≡ w.posts → Judged env now rec' before (k w'))
        → Judged env now rec' before ((on_store m >> k) w)
    store_then-Judged m k w h = elim (result-cases (m w.store).0) [
      | inl e ↦ rw (on_store-then m k w e) (h _ refl)
      | inr (e, raised) ↦ raised-Judged env now rec' before _ (on_store-raised m k w raised)
    ]

    -- Neither a bus nor its absence changes the posts.
    emitted-Judged :
        (on : Bool) (x : Exhausted) (o : DispatchOutcome) (w : World)
        → Verdict env now rec' before w.posts o
        → Judged env now rec' before ((emit on x >> pure o) w)
    emitted-Judged true x o w v = v
    emitted-Judged false x o w v = v

    dead_letter_from_attempt-Judged :
        (a : AttemptRecord) (w : World)
        → Verdict env now rec' before w.posts
            (record { status = dead_lettered; next_fire_at = none; attempt = a })
        → Judged env now rec' before (dead_letter_from_attempt env rec' a w)
    unfolding dead_letter_from_attempt
    dead_letter_from_attempt-Judged a w v =
        let o : DispatchOutcome = record {
          status = dead_lettered;
          next_fire_at = none;
          attempt = a;
        } in
        store_then-Judged (mark_dead rec'.delivery_id a)
          (emit env.has_bus (exhausted_event rec' a) >> pure o) w
          (λ w' same. emitted-Judged env.has_bus (exhausted_event rec' a) o w' (rw same v))

    dead_letter-Judged :
        (error : Text) (w : World)
        → w.posts ≡ before
        → Judged env now rec' before (dead_letter env now rec' error w)
    unfolding dead_letter
    dead_letter-Judged error w h = dead_letter_from_attempt-Judged _ w (stopped error h refl)

    module _ (range : (j : ℕ) → env.uniform j ≤ j + j) (profile : Profile)
        (found : lookup rec'.profile env.profiles ≡ some profile) where
      schedule-Judged :
          (answer : Answer) (asked : Result Fault (Option ℕ)) (w : World)
          → Came env before w.posts answer
          → IsTransient answer
          → rec'.attempts + 1 < (retry_config env profile).max_attempts
          → Judged env now rec' before
              (schedule env now rec' profile (attempt_of now rec' answer) asked w)
      unfolding schedule
      schedule-Judged answer (err e) w came t l = tt
      schedule-Judged answer (ok asked) w came t l =
          let cfg = retry_config env profile in
          let at = now + next_delay env.uniform (rec'.attempts + 1) cfg asked in
          let o : DispatchOutcome = record {
            status = failed_retry;
            next_fire_at = some at;
            attempt = attempt_of now rec' answer;
          } in
          store_then-Judged (schedule_retry rec'.delivery_id at (attempt_of now rec' answer))
            (pure o) w
            (λ w' same.
              retried profile answer at found (rw same came) t l (omega arith)
                (omega
                  (arith, (next_delay_bounds env.uniform (rec'.attempts + 1) cfg asked range).0))
                refl)

      transition-Judged :
          (answer : Answer) (status : DeliveryStatus) (w : World)
          → Came env before w.posts answer
          → Means env rec' profile answer status
          → Judged env now rec' before (transition env now rec' profile answer status w)
      unfolding transition retry_later
      transition-Judged answer sent w came m =
          let o : DispatchOutcome = record {
            status = sent;
            next_fire_at = none;
            attempt = attempt_of now rec' answer;
          } in
          store_then-Judged (mark_sent rec'.delivery_id (attempt_of now rec' answer)) (pure o) w
            (λ w' same. delivered answer (rw same came) m refl)
      transition-Judged answer failed_retry w came m = schedule-Judged answer _ w came m.0 m.1
      transition-Judged answer dead_lettered w came m =
          dead_letter_from_attempt-Judged _ w (given_up profile answer found came m.0 m.1 refl)
      transition-Judged answer pending w came m = absurd m
      transition-Judged answer in_flight w came m = absurd m
      transition-Judged answer cancelled w came m = absurd m

      conclude-Judged :
          (answer : Answer) (w : World)
          → Came env before w.posts answer
          → Judged env now rec' before (conclude env now rec' profile answer w)
      unfolding conclude
      conclude-Judged (crashed e) w came = tt
      conclude-Judged (answered r) w came =
          transition-Judged (answered r) _ w came (answered-Means env rec' profile r)
      conclude-Judged (failed e text) w came =
          transition-Judged (failed e text) _ w came (failed-Means env rec' profile e text)

      send_request-Judged :
          (ip : Text) (signed : Result Fault (Bytes × Dict Text)) (w : World)
          → w.posts ≡ before
          → Judged env now rec' before (send_request env now rec' profile ip signed w)
      unfolding send_request post_and_conclude
      send_request-Judged ip (err e) w h = tt
      send_request-Judged ip (ok signed) w h =
          let q = request_of env rec' profile ip signed in
          conclude-Judged (env.post w.posts q) (record w { posts = q ∷ w.posts })
            (q, ap (λ posts. q ∷ posts) h, ap (λ posts. env.post posts q) (sym h))

      send_checked-Judged :
          (ip : Text) (checked : Checked (Unit {0})) (w : World)
          → w.posts ≡ before
          → Judged env now rec' before (send_checked env now rec' profile ip checked w)
      unfolding send_checked
      send_checked-Judged ip (err reason) w h = dead_letter-Judged _ w h
      send_checked-Judged ip (ok _) w h =
          secret-Judged (env.read_secret rec'.subscription_id rec'.secret_version)
        where
          secret-Judged :
              (secret : Result Fault SecretMaterial)
              → Judged env now rec' before (send_signed env now rec' profile ip secret w)
          secret-Judged (err e) = dead_letter-Judged _ w h
          secret-Judged (ok secret) = send_request-Judged ip _ w h

      send_to-Judged :
          (url : Option Url) (w : World)
          → w.posts ≡ before
          → Judged env now rec' before (send_to env now rec' profile url w)
      unfolding send_to send_guarded
      send_to-Judged none w h = tt
      send_to-Judged (some url) w h =
          elim (Bool-cases (ltb env.limits.max_body_bytes (length rec'.data_json))) [
            | inl large ↦ rw large (dead_letter-Judged _ w h)
            | inr fits ↦ rw fits (send_checked-Judged _ _ w h)
          ]

  -- With the random draws in their range, every outcome of `send` has its reason. SENT means that
  -- one request was posted and answered 2xx; FAILED_RETRY that one was posted and answered 5xx,
  -- 408, 429 or with a request error, that an attempt is left under the profile's retry rules,
  -- and that the next one is due between now and the cap with `jitter_pct` hundredths on top; DEAD_LETTERED that one
  -- was posted and its answer was final or no attempt was left, or that nothing was posted, and
  -- the send stopped with an error of its own.
  pub send-Verdict :
      (w : World)
      → ((j : ℕ) → env.uniform j ≤ j + j)
      → Judged env now rec' w.posts (send env now rec' w)
  unfolding send send_with
  send-Verdict w range = elim (Option-cases (lookup rec'.profile env.profiles)) [
    | inl unknown ↦ rw unknown tt
    | inr (profile, found) ↦ rw found (send_to-Judged w.posts range profile found _ w refl)
  ]
