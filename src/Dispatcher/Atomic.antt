-- ===== src/Dispatcher/Atomic.antt =====
-- `send` of dispatcher.py: how it ends, in the store and on the bus.
use webhooks_engine.Prelude.{
  ℕ, ◌≡◌, refl, ◌+◌, inl, inr, Bool, true, false, ◌&&◌, Option, none, some, ◌∷◌, Text, Dict, lookup,
  arith, if◌then◌else◌, Result, ok, err, Fault, ◌>>◌, Bool-cases, length, ltb,
}
use webhooks_engine.Types.{
  DateTime, DeliveryRecord, AttemptRecord, DispatchOutcome, DeliveryStatus, sent, failed_retry,
  dead_lettered,
}
use webhooks_engine.Store.Defs.{Call, mark_sent, schedule_retry, mark_dead}
use webhooks_engine.Store.Invariant.{
  IsValid, mark_sent-IsValid, schedule_retry-IsValid, mark_dead-IsValid,
}
use webhooks_engine.Store.Marks.{
  Landed, mark_sent-Settles, schedule_retry-Settles, mark_dead-Settles,
}
use webhooks_engine.Types.{Bytes}
use webhooks_engine.Ssrf.Guard.{Url, Checked, host_of}
use webhooks_engine.Policy.Defs.{next_delay}
use webhooks_engine.Dispatcher.Env.{Env, Profile, SecretMaterial, Answer, crashed, Request}
use webhooks_engine.Dispatcher.Defs.{
  World, Send, on_store, current_ip, exhausted_event, dead_letter_from_attempt, dead_letter,
  retry_later, schedule, transition, retry_config, attempt_of, conclude, post_and_conclude,
  build_signed, send_request, send_signed, send_checked, send_guarded, send_to, send_with, send,
}

abbrev is_dead : DeliveryStatus → Bool
is_dead dead_lettered = true
is_dead _ = false

-- What an outcome says of the record.
abbrev pub apply_outcome : DispatchOutcome → DeliveryRecord → DeliveryRecord
apply_outcome o r = elim o.next_fire_at [
  | none ↦ record r { status = o.status }
  | some at ↦ record r { status = o.status; fire_at = at; attempts = r.attempts + 1 }
]

-- How a send of `rec'` ends, where the store holds `r` under its id: with an outcome, the record
-- is as the outcome says, its attempt is logged, its lease is gone, nothing else in the store has
-- changed, and a dead letter alone has gone to the bus; with an exception, nothing has changed.
abbrev pub Lands :
    Env → DeliveryRecord → DeliveryRecord → World → Result Fault DispatchOutcome × World → Type 0
Lands env rec' r w (ok o, w') =
    Landed rec'.delivery_id (apply_outcome o r) o.attempt w.store w'.store
    × IsValid w'.store
    × (w'.exhausted ≡ (
        if env.has_bus && is_dead o.status
        then exhausted_event rec' o.attempt ∷ w.exhausted
        else w.exhausted))
Lands env rec' r w (err e, w') = (w'.store ≡ w.store) × (w'.exhausted ≡ w.exhausted)

pub on_store-then :
    (m : Call (Unit {0})) {A : Type 0} (k : Send A) (w : World)
    → (m w.store).0 ≡ ok tt
    → (on_store m >> k) w ≡ k (record w { store = (m w.store).1 })
on_store-then m k w e = ground arith

-- The record is in a valid store.
abbrev pub Stands : DeliveryRecord → DeliveryRecord → World → Type 0
Stands rec' r w = IsValid w.store × (lookup rec'.delivery_id w.store.records ≡ some r)

module _ (env : Env) (now : DateTime) (rec' r : DeliveryRecord) where
  dead_letter_from_attempt-Lands :
      (a : AttemptRecord) (w : World)
      → Stands rec' r w
      → Lands env rec' r w (dead_letter_from_attempt env rec' a w)
  unfolding dead_letter_from_attempt
  dead_letter_from_attempt-Lands a w (valid, known) =
      let (done, landed) = (mark_dead-Settles rec'.delivery_id a w.store valid).0 r known in
      let v' = mark_dead-IsValid rec'.delivery_id a w.store valid in
      rw (on_store-then (mark_dead rec'.delivery_id a) _ w done) (elim (Bool-cases env.has_bus) [
        | inl bus ↦ rw bus (landed, v', refl)
        | inr no_bus ↦ rw no_bus (landed, v', refl)
      ])

  dead_letter-Lands :
      (error : Text) (w : World)
      → Stands rec' r w
      → Lands env rec' r w (dead_letter env now rec' error w)
  unfolding dead_letter
  dead_letter-Lands error w h = dead_letter_from_attempt-Lands _ w h

  schedule-Lands :
      (profile : Profile) (a : AttemptRecord) (asked : Result Fault (Option ℕ)) (w : World)
      → Stands rec' r w
      → Lands env rec' r w (schedule env now rec' profile a asked w)
  unfolding schedule
  schedule-Lands profile a (err e) w h = (refl, refl)
  schedule-Lands profile a (ok asked) w (valid, known) =
      let at = now + next_delay env.uniform (rec'.attempts + 1) (retry_config env profile) asked in
      let (done, landed) = (schedule_retry-Settles rec'.delivery_id at a w.store valid).0 r known in
      rw (on_store-then (schedule_retry rec'.delivery_id at a) _ w done) (
        landed,
        schedule_retry-IsValid rec'.delivery_id at a w.store valid,
        (elim (Bool-cases env.has_bus) [ inl e ↦ rw e refl | inr e ↦ rw e refl ]),
      )

  transition-Lands :
      (profile : Profile) (answer : Answer) (status : DeliveryStatus) (w : World)
      → Stands rec' r w
      → Lands env rec' r w (transition env now rec' profile answer status w)
  unfolding transition retry_later
  transition-Lands profile answer sent w (valid, known) =
      let a = attempt_of now rec' answer in
      let (done, landed) = (mark_sent-Settles rec'.delivery_id a w.store valid).0 r known in
      rw (on_store-then (mark_sent rec'.delivery_id a) _ w done) (
        landed,
        mark_sent-IsValid rec'.delivery_id a w.store valid,
        (elim (Bool-cases env.has_bus) [ inl e ↦ rw e refl | inr e ↦ rw e refl ]),
      )
  transition-Lands profile answer failed_retry w h = schedule-Lands profile _ _ w h
  transition-Lands profile answer _ w h = dead_letter_from_attempt-Lands _ w h

  conclude-Lands :
      (profile : Profile) (answer : Answer) (w : World)
      → Stands rec' r w
      → Lands env rec' r w (conclude env now rec' profile answer w)
  unfolding conclude
  conclude-Lands profile (crashed e) w h = (refl, refl)
  conclude-Lands profile answer w h = transition-Lands profile answer _ w h

  post_and_conclude-Lands :
      (profile : Profile) (request : Request) (w : World)
      → Stands rec' r w
      → Lands env rec' r w (post_and_conclude env now rec' profile request w)
  unfolding post_and_conclude
  post_and_conclude-Lands profile request w h =
      conclude-Lands profile (env.post w.posts request) (record w { posts = request ∷ w.posts }) h

  send_signed-Lands :
      (profile : Profile) (ip : Text) (secret : Result Fault SecretMaterial) (w : World)
      → Stands rec' r w
      → Lands env rec' r w (send_signed env now rec' profile ip secret w)
  unfolding send_signed
  send_signed-Lands profile ip (err e) w h = dead_letter-Lands _ w h
  send_signed-Lands profile ip (ok secret) w h =
      request-Lands (build_signed env now rec' profile secret)
    where
      request-Lands :
          (signed : Result Fault (Bytes × Dict Text))
          → Lands env rec' r w (send_request env now rec' profile ip signed w)
      request-Lands (err e) = (refl, refl)
      request-Lands (ok signed) = post_and_conclude-Lands profile _ w h

  send_guarded-Lands :
      (profile : Profile) (url : Url) (w : World)
      → Stands rec' r w
      → Lands env rec' r w (send_guarded env now rec' profile url w)
  unfolding send_guarded
  send_guarded-Lands profile url w h =
      elim (Bool-cases (ltb env.limits.max_body_bytes (length rec'.data_json))) [
        | inl large ↦ rw large (dead_letter-Lands _ w h)
        | inr fits ↦ rw fits (checked-Lands _)
      ]
    where
      checked-Lands :
          (checked : Checked (Unit {0}))
          → Lands env rec' r w
              (send_checked env now rec' profile (current_ip env rec' (host_of url)) checked w)
      checked-Lands (err reason) = dead_letter-Lands _ w h
      checked-Lands (ok _) = send_signed-Lands profile _ _ w h

  -- A send of a record that stands in a valid store ends in one of two ways. It makes exactly the
  -- transition that its outcome reports, logs that attempt, drops the lease, tells the bus of a
  -- dead letter only, and touches no other record; or it raises, and store and bus are untouched.
  pub send-Lands : (w : World) → Stands rec' r w → Lands env rec' r w (send env now rec' w)
  unfolding send
  send-Lands w h = profile-Lands (lookup rec'.profile env.profiles)
    where
      url-Lands :
          (profile : Profile) (url : Option Url)
          → Lands env rec' r w (send_to env now rec' profile url w)
      url-Lands profile none = (refl, refl)
      url-Lands profile (some url) = send_guarded-Lands profile url w h

      profile-Lands :
          (profile : Option Profile) → Lands env rec' r w (send_with env now rec' profile w)
      profile-Lands none = (refl, refl)
      profile-Lands (some profile) = url-Lands profile _
