-- ===== src/Dispatcher/Defs/Parts.antt =====
-- The state of `WebhookDispatcher` and the helpers of `send` that do not depend on an answer.
-- The state is the delivery store, the requests posted so far and the events given to the bus,
-- newest first. An exception that `send` lets through is `err`.
use webhooks_engine.Prelude.{
  ℕ, ◌+◌, Bool, false, Option, none, some, List, [], ◌∷◌, ◌++◌, Text, text_eq, is_empty, Dict, ◌==◌,
  if◌then◌else◌, Result, ok, err, Fault, Action, ◌>>◌, pure,
}
use webhooks_engine.Prelude.Strings.{lower}
use webhooks_engine.Types.{
  Bytes, DateTime, DeliveryRecord, AttemptRecord, DispatchOutcome, dead_lettered,
}
use webhooks_engine.Store.Defs.{Store, Call, mark_dead}
use webhooks_engine.Policy.Defs.{RetryConfig}
use webhooks_engine.Dispatcher.Env.{
  Env, Profile, SecretMaterial, previous_at, SignedHeaders, shipped, header_dict, Signer, Request,
  Exhausted,
}

pub record World : Type 0 where
  pub store : Store
  pub posts : List Request
  pub exhausted : List Exhausted

abbrev pub Send : Type 0 → Type 0
Send A = Action World A

-- A call of the store.
abbrev pub on_store : {A : Type 0} → Call A → Send A
on_store m w = let (r, s) = m w.store in (r, record w { store = s })

-- `_header`: the first header of that name, its case ignored.
unfoldable pub header : Text → Dict Text → Option Text
unfolding lower
header name [] = none
header name ((k, v) ∷ hs) = if text_eq (lower k) name then some v else header name hs

-- `_current_ip`: what the resolver finds, or the pinned address.
unfoldable pub current_ip : Env → DeliveryRecord → Text → Text
current_ip env rec' host = if is_empty host then rec'.resolved_ip else elim env.resolver [
  | none ↦ rec'.resolved_ip
  | some resolve ↦ elim (resolve host) [
    | err _ ↦ rec'.resolved_ip
    | ok none ↦ rec'.resolved_ip
    | ok (some fresh) ↦ if is_empty fresh then rec'.resolved_ip else fresh
  ]
]

-- The event of a dead letter.
abbrev pub exhausted_event : DeliveryRecord → AttemptRecord → Exhausted
exhausted_event rec' attempt = record {
  delivery_id = rec'.delivery_id;
  subscription_id = rec'.subscription_id;
  owner_id = rec'.owner_id;
  source_event = rec'.event_name;
  attempts = attempt.attempt;
  last_error = elim attempt.error [ none ↦ [] | some e ↦ e ];
}

-- `emit_post`, if there is a bus; its failure is logged and otherwise unseen.
abbrev pub emit : Bool → Exhausted → Send (Unit {0})
emit has_bus event w = (ok tt, if has_bus then record w { exhausted = event ∷ w.exhausted } else w)

-- `_dead_letter_from_attempt`
unfoldable pub dead_letter_from_attempt :
    Env → DeliveryRecord → AttemptRecord → Send DispatchOutcome
dead_letter_from_attempt env rec' attempt = do
  on_store (mark_dead rec'.delivery_id attempt)
  emit env.has_bus (exhausted_event rec' attempt)
  pure (record { status = dead_lettered; next_fire_at = none; attempt = attempt })

-- `_dead_letter` of a delivery that was not posted.
unfoldable pub dead_letter : Env → DateTime → DeliveryRecord → Text → Send DispatchOutcome
unfolding dead_letter_from_attempt
dead_letter env now rec' error = dead_letter_from_attempt env rec' (record {
  attempt = rec'.attempts + 1;
  attempted_at = now;
  http_code = none;
  duration_ms = 0;
  error = some error;
  response_snippet = [];
  response_body = [];
  response_truncated = false;
})

-- Both signatures in `Webhook-Signature`, if both are of the shipped kind.
unfoldable pub join_signatures : SignedHeaders → Option SignedHeaders → SignedHeaders
join_signatures (shipped new) (some (shipped old)) =
    shipped
      (record new { webhook_signature = new.webhook_signature ++ b' ' ∷ old.webhook_signature })
join_signatures signed old = signed

-- `sign(previous) if previous is not None else None`
unfoldable pub sign_previous :
    (Text → Result Fault SignedHeaders) → Option Text → Result Fault (Option SignedHeaders)
sign_previous sign none = ok none
sign_previous sign (some key) = elim (sign key) [ err e ↦ err e | ok h ↦ ok (some h) ]

-- `_build_signed`: the body and the headers.
unfoldable pub build_signed :
    Env → DateTime → DeliveryRecord → Profile → SecretMaterial → Result Fault (Bytes × Dict Text)
unfolding join_signatures sign_previous header_dict previous_at
build_signed env now rec' profile secret =
    let body = profile.encode rec' (rec'.attempts + 1) in
    let signer : Signer = elim profile.signer [ none ↦ env.signer | some s ↦ s ] in
    let sign = λ (key : Text). signer (record {
      delivery_id = rec'.delivery_id;
      event_name = rec'.event_name;
      event_id = rec'.event_id;
      body = body;
      secret = key;
      now = now;
    }) in
    elim (sign secret.current) [
      | err e ↦ err e
      | ok signed ↦ elim (sign_previous sign (previous_at secret now)) [
        | err e ↦ err e
        | ok old ↦ ok (body, header_dict (join_signatures signed old))
      ]
    ]

-- `profile.retry or self._config.retry`
unfoldable pub retry_config : Env → Profile → RetryConfig
retry_config env profile = elim profile.retry [ none ↦ env.retry | some cfg ↦ cfg ]

-- `profile.max_response_bytes or self._config.security.max_response_bytes`
unfoldable pub max_response : Env → Profile → ℕ
max_response env profile = elim profile.max_response_bytes [
  | none ↦ env.security.max_response_bytes
  | some n ↦ if n == 0 then env.security.max_response_bytes else n
]
