-- ===== src/Dispatcher/Verdict/Answers.antt =====
-- What `status_of` makes of an answer.
use webhooks_engine.Prelude.{
  ◌+◌, ◌≡◌, ◌∙◌, if◌then◌else◌, refl, inl, inr, Text, arith, ltb, Bool-cases,
}
use webhooks_engine.Types.{DeliveryRecord, HttpSendResult, failed_retry, dead_lettered}
use webhooks_engine.Policy.Defs.{
  RequestError, timeout_exception, request_error, classify_status, will_retry, outcome_status,
}
use webhooks_engine.Policy.Delay.{classify_status-outcome}
use webhooks_engine.Dispatcher.Env.{Env, Profile, answered, failed}
use webhooks_engine.Dispatcher.Defs.{retry_config, status_of}
use webhooks_engine.Dispatcher.Verdict.Kinds.{Means}

module _ (env : Env) (rec' : DeliveryRecord) where
  status_of-answered :
      (profile : Profile) (r : HttpSendResult)
      → let reason = classify_status r.status in
        status_of env rec' profile (answered r)
        ≡ outcome_status reason (will_retry reason (rec'.attempts + 1) (retry_config env profile))
  unfolding status_of
  status_of-answered profile r = refl

  status_of-failed :
      (profile : Profile) (e : RequestError) (text : Text)
      → status_of env rec' profile (failed e text) ≡ (
          if ltb (rec'.attempts + 1) (retry_config env profile).max_attempts
          then failed_retry
          else dead_lettered)
  unfolding status_of
  status_of-failed profile timeout_exception text = ground arith
  status_of-failed profile request_error text = ground arith

  pub answered-Means :
      (profile : Profile) (r : HttpSendResult)
      → Means env rec' profile (answered r) (status_of env rec' profile (answered r))
  answered-Means profile r =
      let cfg = retry_config env profile in
      let (on_sent, on_retry, each) = classify_status-outcome r.status (rec'.attempts + 1) cfg in
      let same = status_of-answered profile r in
      elim each [
        | inl e ↦ rw (same ∙ e) (on_sent.0 e)
        | inr (inl e) ↦ rw (same ∙ e) (on_retry.0 e)
        | inr (inr e) ↦ rw (same ∙ e) (
          (λ success. cc (on_sent.1 success)),
          elim (Bool-cases (ltb (rec'.attempts + 1) cfg.max_attempts)) [
            | inl left ↦ inl (λ transient. cc (on_retry.1 (transient, ground arith)))
            | inr none_left ↦ inr (ground arith)
          ],
        )
      ]

  pub failed-Means :
      (profile : Profile) (e : RequestError) (text : Text)
      → Means env rec' profile (failed e text) (status_of env rec' profile (failed e text))
  failed-Means profile e text =
      let same = status_of-failed profile e text in
      elim (Bool-cases (ltb (rec'.attempts + 1) (retry_config env profile).max_attempts)) [
        | inl left ↦ rw same (rw left (tt, ground arith))
        | inr none_left ↦ rw same (rw none_left ((λ impossible. impossible), inr (ground arith)))
      ]
