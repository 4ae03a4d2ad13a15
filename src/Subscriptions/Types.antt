-- ===== src/Subscriptions/Types.antt =====
-- `Subscription` of service/subscription_store.py, `SubscriptionStatus` of enums.py, and what the
-- two stores of subscriptions share. The times and lists of a row are kept as they are:
-- `isoformat` and `json.dumps` have exact inverses.
use webhooks_engine.Prelude.{
  Bool, true, false, Option, none, some, List, [], ◌∷◌, Text, text_eq, codes, is_empty,
  if◌then◌else◌, Result, ok, err, Fault, value_error, other_error,
}
use webhooks_engine.Types.{DateTime, SubscriptionSnapshot}

pub data SubscriptionStatus : Type 0 where
  active paused deleted : SubscriptionStatus

abbrev pub is_active : SubscriptionStatus → Bool
is_active active = true
is_active _ = false

pub record Subscription : Type 0 where
  pub id : Text
  pub owner_id : Text
  pub url : Text
  pub secret : Text
  pub events : List Text
  pub status : SubscriptionStatus
  pub created_at : DateTime
  pub resolved_ip : Text

-- A stored row: the subscription, and the two fields that a rotation sets.
pub record Row : Type 0 where
  pub sub : Subscription
  pub previous_secret : Option Text
  pub previous_expires_at : Option DateTime

-- `urlsplit(url).hostname` and the addresses of `getaddrinfo`, which raises for a host it cannot
-- resolve.
pub record Net : Type 0 where
  pub hostname : Text → Option Text
  pub getaddrinfo : Text → Result Fault (List Text)

-- `uuid4().hex`, `secrets.token_hex(32)` and the clock of one call.
pub record Draws : Type 0 where
  pub uuid : Text
  pub token : Text
  pub now : DateTime

-- `x or ""`
abbrev pub or_blank : Option Text → Text
or_blank none = []
or_blank (some s) = s

abbrev pub first_address : List Text → Result Fault Text
first_address [] = err (other_error (codes "OSError"))
first_address (ip ∷ ips) = ok ip

-- `_resolve_ip`
unfoldable pub resolve_ip : Net → Text → Result Fault Text
resolve_ip net url =
    let host = or_blank (net.hostname url) in
    if is_empty host
    then err value_error
    else elim (net.getaddrinfo host) [ err e ↦ err e | ok ips ↦ first_address ips ]

-- `secret or secrets.token_hex(32)`
abbrev pub chosen : Option Text → Text → Text
chosen none token = token
chosen (some []) token = token
chosen (some (c ∷ s)) token = c ∷ s

-- The subscription that `create` makes.
abbrev pub created : Draws → Text → Text → List Text → Option Text → Text → Subscription
created draws owner_id url events secret ip = record {
  id = draws.uuid;
  owner_id = owner_id;
  url = url;
  secret = chosen secret draws.token;
  events = events;
  status = active;
  created_at = draws.now;
  resolved_ip = ip;
}

abbrev pub snapshot_of : Subscription → SubscriptionSnapshot
snapshot_of sub = record {
  id = sub.id;
  owner_id = sub.owner_id;
  url = sub.url;
  resolved_ip = sub.resolved_ip;
}

-- Whether a subscription belongs to the tenant; without a tenant each does.
abbrev pub owned : Option Text → Subscription → Bool
owned none sub = true
owned (some tenant_id) sub = text_eq sub.owner_id tenant_id

abbrev pub ids_of : List SubscriptionSnapshot → List Text
ids_of [] = []
ids_of (x ∷ xs) = x.id ∷ ids_of xs
