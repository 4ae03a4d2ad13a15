-- ===== src/Subscriptions/Contract.antt =====
-- What a store of subscriptions promises the fan-out and the dispatcher
-- (`SubscriptionReaderProtocol` and `SecretReaderProtocol` of protocols.py), by the row that it
-- finds under each id.
use webhooks_engine.Prelude.{
  ◌≡◌, Bool, false, ◌&&◌, Option, none, some, List, [], ◌∷◌, Text, text_eq, is_empty, if◌then◌else◌,
  Result, ok, err, Fault, key_error,
}
use webhooks_engine.Prelude.Strings.{ℤ}
use webhooks_engine.Types.{DateTime, SubscriptionSnapshot}
use webhooks_engine.Contract.Queue.{has}
use webhooks_engine.Dispatcher.Env.{SecretMaterial, grace_until}
use webhooks_engine.Subscriptions.Types.{
  SubscriptionStatus, is_active, Subscription, Row, Net, Draws, resolve_ip, chosen, created, owned,
  ids_of,
}

-- An operation that changes the store, with what it draws.
pub data Call : Type 0 where
  create : Net → Draws → Text → Text → List Text → Option Text → Call
  delete : Text → Call
  set_status : Text → SubscriptionStatus → Call
  rotate_secret : Draws → Text → ℤ → Option Text → Call

abbrev pub new_row : Subscription → Row
new_row sub = record { sub = sub; previous_secret = none; previous_expires_at = none }

abbrev pub with_status : SubscriptionStatus → Option Row → Option Row
with_status status none = none
with_status status (some row) = some (record row { sub = record row.sub { status = status } })

abbrev pub rotated : Text → DateTime → Option Row → Option Row
rotated new until none = none
rotated new until (some row) = some (record {
  sub = record row.sub { secret = new };
  previous_secret = some row.sub.secret;
  previous_expires_at = some until;
})

-- What is found under `j` after the call, by what was found before.
abbrev pub after : Call → Text → Option Row → Option Row
after (create net draws owner_id url events secret) j row = elim (resolve_ip net url) [
  | err e ↦ row
  | ok ip ↦
      if text_eq j draws.uuid
      then some (new_row (created draws owner_id url events secret ip))
      else row
]
after (delete k) j row = if text_eq j k then none else row
after (set_status k status) j row = if text_eq j k then with_status status row else row
after (rotate_secret draws k grace_s secret) j row = elim (grace_until draws.now grace_s) [
  | err e ↦ row
  | ok until ↦ if text_eq j k then rotated (chosen secret draws.token) until row else row
]

-- Whether a row is active, of the event and of the tenant.
abbrev pub serves : Text → Option Text → Option Row → Bool
serves event_name tenant_id none = false
serves event_name tenant_id (some row) =
    has event_name row.sub.events && is_active row.sub.status && owned tenant_id row.sub

abbrev pub secret_of : Option Row → Result Fault SecretMaterial
secret_of none = err key_error
secret_of (some row) = ok (record {
  current = row.sub.secret;
  previous = row.previous_secret;
  previous_expires_at = row.previous_expires_at;
})

-- The draws of a call are new: the id is that of no row, and the token is not empty.
abbrev pub IsFresh : Call → (Text → Option Row) → Type 0
IsFresh (create net draws owner_id url events secret) find =
    (find draws.uuid ≡ none) × (is_empty draws.token ≡ false)
IsFresh (delete k) find = Unit
IsFresh (set_status k status) find = Unit
IsFresh (rotate_secret draws k grace_s secret) find = is_empty draws.token ≡ false

pub record SubscriptionStore (State : Type 0) : Type 1 where
  pub IsValid : State → Type 0
  pub find : Text → State → Option Row
  pub for_event : Text → Option Text → State → List SubscriptionSnapshot
  pub get_secret : Text → State → Result Fault SecretMaterial
  pub call : Call → State → State
  pub call_IsValid :
      (c : Call) (s : State) → IsFresh c (λ k. find k s) → IsValid s → IsValid (call c s)
  pub call_finds :
      (c : Call) (j : Text) (s : State)
      → IsFresh c (λ k. find k s)
      → IsValid s
      → find j (call c s) ≡ after c j (find j s)
  pub for_event_exact :
      (k event_name : Text) (tenant_id : Option Text) (s : State)
      → IsValid s
      → has k (ids_of (for_event event_name tenant_id s)) ≡ serves event_name tenant_id (find k s)
  pub get_secret_exact : (k : Text) (s : State) → IsValid s → get_secret k s ≡ secret_of (find k s)

module _ {State : Type 0} (q : SubscriptionStore State) where
  open q use {IsValid, find, call, call_IsValid, call_finds}

  unfoldable pub call_all : List Call → State → State
  call_all [] s = s
  call_all (c ∷ cs) s = call_all cs (call c s)

  -- Each call draws what is new when it is made.
  unfoldable pub AreFresh : List Call → State → Type 0
  AreFresh [] s = Unit
  AreFresh (c ∷ cs) s = IsFresh c (λ k. find k s) × AreFresh cs (call c s)
