-- ===== src/Examples/Setup.antt =====
-- A wiring of the dispatcher and two deliveries, for the runs.
use webhooks_engine.Prelude.{
  ℕ, true, false, none, some, [], ◌∷◌, Text, codes, ok, text_eq, if◌then◌else◌,
}
use webhooks_engine.Types.{
  DateTime, DeliveryRecord, AttemptRecord, HttpSendResult, pending, seconds, default_profile,
}
use webhooks_engine.Ssrf.Address.{v4, default_blocked_cidrs}
use webhooks_engine.Ssrf.Guard.{Url, SecurityConfig, NetLib}
use webhooks_engine.Policy.Defs.{DateLib, refused, default_retry}
use webhooks_engine.Dispatcher.Env.{Env, Profile, answered, custom}
use webhooks_engine.Store.Defs.{Store, new, enqueue}
use webhooks_engine.Dispatcher.Defs.{World}

abbrev pub url : Url
url = record {
  scheme = codes "https";
  hostname = some (codes "a.example");
  port = none;
  username = none;
  password = none;
}

-- Every URL splits into `url`; `10.0.0.1` is private and every other text is `8.8.8.8`.
abbrev pub net : NetLib
net = record {
  urlsplit = λ text. some url;
  ip_address =
      λ text. some (if text_eq text (codes "10.0.0.1") then v4 0x0a000001 else v4 0x08080808);
  idna = λ host. some host;
}

abbrev pub security : SecurityConfig
security = record {
  require_https_in_prod = true;
  allow_http_in_dev = true;
  blocked_cidrs = default_blocked_cidrs;
  allowed_hosts = none;
  trusted_private_hosts = [];
  max_response_bytes = 65536;
}

abbrev pub dates : DateLib
dates = record { is_digit = λ c. true; digit_value = λ c. none; parse_date = λ text. refused }

abbrev pub profile : Profile
profile = record {
  retry = none;
  encode = λ rec' now. rec'.data_json;
  signer = none;
  max_response_bytes = none;
  honour_retry_after = false;
}

abbrev pub result : ℕ → HttpSendResult
result status = record {
  status = status;
  headers = [];
  body_snippet = [];
  duration_ms = 12;
  body = [];
  body_truncated = false;
}

-- A sender that always answers with the status; the uniform draw is the middle of its range.
abbrev pub env : ℕ → Env
env status = record {
  net = net;
  dates = dates;
  security = security;
  limits = record {
    http_connect_timeout = seconds 5;
    http_read_timeout = seconds 10;
    http_total_timeout = seconds 15;
    max_body_bytes = 65536;
  };
  retry = default_retry;
  uniform = λ j. j;
  profiles = (default_profile, profile) ∷ [];
  signer = λ request. ok (custom []);
  read_secret = λ id version.
      ok (record { current = codes "s"; previous = none; previous_expires_at = none });
  resolver = none;
  post = λ before request. answered (result status);
  has_bus = true;
}

abbrev pub delivery : Text → Text → Text → DateTime → DeliveryRecord
delivery id ip profile_name fire_at = record {
  delivery_id = id;
  subscription_id = codes "sub";
  owner_id = codes "owner";
  event_name = codes "order.paid";
  event_id = codes "e";
  schema_version = codes "1.0";
  tenant_id = none;
  data_json = codes "{}";
  emitted_at = 0;
  target_url = codes "https://a.example";
  resolved_ip = ip;
  redelivery_of = none;
  attempts = 0;
  fire_at = fire_at;
  created_at = 0;
  status = pending;
  profile = profile_name;
  secret_version = none;
}

abbrev pub first : DeliveryRecord
first = delivery (codes "a") (codes "8.8.8.8") default_profile 3

-- Its address is private.
abbrev pub inward : DeliveryRecord
inward = delivery (codes "b") (codes "10.0.0.1") default_profile 2

-- No profile of that name is registered.
abbrev pub lost : DeliveryRecord
lost = delivery (codes "c") (codes "8.8.8.8") (codes "none") 1

abbrev pub store : Store
store = enqueue lost (enqueue inward (enqueue first new))

abbrev pub world : World
world = record { store = store; posts = []; exhausted = [] }

abbrev pub attempt : AttemptRecord
attempt = record {
  attempt = 1;
  attempted_at = 9;
  http_code = some 200;
  duration_ms = 12;
  error = none;
  response_snippet = [];
  response_body = [];
  response_truncated = false;
}
