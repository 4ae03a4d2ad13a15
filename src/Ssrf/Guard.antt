-- ===== src/Ssrf/Guard.antt =====
-- `UrlSafetyValidator` of ssrf_guard.py. What it takes from `urllib.parse` and `ipaddress` are
-- arguments: `urlsplit` (a `ValueError` of it or of `.port` is `none`) and `ip_address` (its
-- `ValueError` is `none`).
use webhooks_engine.Prelude.{
  ℕ, Bool, false, not, ◌&&◌, ◌||◌, Option, none, some, List, [], ◌∷◌, Text, text_eq, is_empty,
  codes, any, if◌then◌else◌, ◌==◌, Result, ok, err,
}
use webhooks_engine.Types.{
  InvalidTargetReason, bad_scheme, not_https, unresolvable, blocked_host, has_credentials,
}
use webhooks_engine.Ssrf.Address.{Address, v4, v6, Cidr, from_strings, blocks, ipv4_mapped, reason}
use webhooks_engine.Ssrf.Host.{Idna, host_matches, is_trusted_private}

-- `SplitResult`
pub record Url : Type 0 where
  pub scheme : Text
  pub hostname : Option Text
  pub port : Option ℕ
  pub username : Option Text
  pub password : Option Text

-- `WebhookSecurityConfig`, the fields that the guard and the dispatcher read.
pub record SecurityConfig : Type 0 where
  pub require_https_in_prod : Bool
  pub allow_http_in_dev : Bool
  pub blocked_cidrs : List Cidr
  pub allowed_hosts : Option (List Text)
  pub trusted_private_hosts : List Text
  pub max_response_bytes : ℕ

-- What the guard takes from Python's libraries.
pub record NetLib : Type 0 where
  pub urlsplit : Text → Option Url
  pub ip_address : Text → Option Address
  pub idna : Idna

pub record ResolvedTarget : Type 0 where
  pub host : Text
  pub port : ℕ
  pub scheme : Text
  pub ips : List Text

-- `InvalidWebhookTarget` carries its reason.
abbrev pub Checked : Type 0 → Type 0
Checked A = Result InvalidTargetReason A

-- `parsed.hostname or ""`
unfoldable pub host_of : Url → Text
host_of u = elim u.hostname [ none ↦ [] | some h ↦ h ]

-- `parsed.port or (443 if parsed.scheme == "https" else 80)`: port 0 is no port either.
unfoldable pub port_of : Url → ℕ
port_of u =
    let default_port : ℕ = if text_eq u.scheme (codes "https") then 443 else 80 in
    elim u.port [ none ↦ default_port | some p ↦ if p == 0 then default_port else p ]

-- The address that is judged: a v4 address inside a mapped v6 one.
unfoldable pub unmap : Address → Address
unfolding ipv4_mapped
unmap (v4 n) = v4 n
unmap (v6 n) = elim (ipv4_mapped n) [ none ↦ v6 n | some m ↦ v4 m ]

module _ (lib : NetLib) (security : SecurityConfig) where
  -- The decision of `check_ip` on a parsed address.
  unfoldable pub judge : Address → Option Text → Option ℕ → Checked (Unit {0})
  unfolding unmap
  judge a host port =
      let addr = unmap a in
      if not (blocks (from_strings security.blocked_cidrs) addr)
      then ok tt
      else if elim host [
        | none ↦ false
        | some h ↦ is_trusted_private lib.idna h port security.trusted_private_hosts
      ]
      then ok tt
      else err (reason addr)

  unfoldable pub check_ip : Text → Option Text → Option ℕ → Checked (Unit {0})
  unfolding judge
  check_ip ip host port = elim (lib.ip_address ip) [
    | none ↦ err unresolvable
    | some a ↦ judge a host port
  ]

  -- `_check_scheme`
  unfoldable pub check_scheme : Url → Text → Checked (Unit {0})
  check_scheme p env =
      let is_prod =
        not
          (any (text_eq env) (codes "dev" ∷ codes "test" ∷ codes "local" ∷ codes "testnet" ∷ [])) in
      if text_eq p.scheme (codes "http")
      then if is_prod && security.require_https_in_prod
        then err not_https
        else if not is_prod && not security.allow_http_in_dev
        then err not_https
        else ok tt
      else if text_eq p.scheme (codes "https")
      then ok tt
      else err bad_scheme

  abbrev pub is_set : Option Text → Bool
  is_set none = false
  is_set (some s) = not (is_empty s)

  -- `_check_credentials`
  unfoldable pub check_credentials : Url → Checked (Unit {0})
  check_credentials p =
      if is_set p.username || is_set p.password then err has_credentials else ok tt

  -- `_check_host_allowlist`
  unfoldable pub check_host_allowlist : Url → Checked (Unit {0})
  unfolding host_of
  check_host_allowlist p = elim security.allowed_hosts [
    | none ↦ ok tt
    | some allowed ↦
        if is_empty (host_of p)
        then err blocked_host
        else if host_matches lib.idna (host_of p) allowed
        then ok tt
        else err blocked_host
  ]

  -- The loop of `_check_ips`.
  unfoldable pub check_each : List Text → Option Text → Option ℕ → Checked (Unit {0})
  unfolding check_ip
  check_each [] host port = ok tt
  check_each (ip ∷ ips) host port =
      let rest = check_each ips host port in
      elim (check_ip ip host port) [ err e ↦ err e | ok _ ↦ rest ]

  unfoldable pub check_ips : List Text → Option Text → Option ℕ → Checked (Unit {0})
  unfolding check_each
  check_ips ips host port = if is_empty ips then err unresolvable else check_each ips host port

  -- The rest of `validate`, once the URL is split.
  unfoldable pub validate_url : Url → List Text → Text → Checked ResolvedTarget
  unfolding check_scheme check_credentials check_host_allowlist check_ips host_of port_of
  validate_url p ips env = elim (check_scheme p env) [
    | err e ↦ err e
    | ok _ ↦ elim (check_credentials p) [
      | err e ↦ err e
      | ok _ ↦ elim (check_host_allowlist p) [
        | err e ↦ err e
        | ok _ ↦ elim (check_ips ips p.hostname (some (port_of p))) [
          | err e ↦ err e
          | ok _ ↦ ok (record { host = host_of p; port = port_of p; scheme = p.scheme; ips = ips })
        ]
      ]
    ]
  ]

  -- `validate`; `none` is the `ValueError` of a URL that cannot be split.
  unfoldable pub validate : Text → List Text → Text → Option (Checked ResolvedTarget)
  unfolding validate_url
  validate url ips env = elim (lib.urlsplit url) [
    | none ↦ none
    | some p ↦ some (validate_url p ips env)
  ]
