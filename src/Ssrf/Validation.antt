-- ===== src/Ssrf/Validation.antt =====
-- What `check_ip` and `validate` let through.
use webhooks_engine.Prelude.{
  ℕ, ◌≡◌, refl, ◌⊎◌, inl, inr, Bool, true, false, not, Option, some, List, [], ◌∷◌, Text, text_eq,
  text_eq→eq, codes, any, All, is_empty, arith, if◌then◌else◌, ok, err, Bool-cases, Option-cases,
}
use webhooks_engine.Types.{InvalidTargetReason}
use webhooks_engine.Ssrf.Host.{host_matches, is_trusted_private}
use webhooks_engine.Ssrf.Guard.{
  Url, NetLib, SecurityConfig, ResolvedTarget, Checked, host_of, port_of, judge, check_ip,
  check_scheme, check_credentials, check_host_allowlist, check_each, check_ips, is_set,
  validate_url, validate,
}

module _ (lib : NetLib) (security : SecurityConfig) where
  -- With no trusted private host, neither host nor port sways `check_ip`.
  pub check_ip-untrusted :
      (ip : Text) (host host' : Option Text) (port port' : Option ℕ)
      → security.trusted_private_hosts ≡ []
      → check_ip lib security ip host port ≡ check_ip lib security ip host' port'
  unfolding check_ip judge is_trusted_private
  check_ip-untrusted ip host host' port port' h =
      rw h (ground (arith, Option-cases host, Option-cases host'))

  check_each-All :
      (ips : List Text) (host : Option Text) (port : Option ℕ)
      → check_each lib security ips host port ≡ ok tt
      → All (λ ip. check_ip lib security ip host port ≡ ok tt) ips
  unfolding check_each
  check_each-All [] host port h = tt
  check_each-All (ip ∷ ips) host port h = ground (arith, check_each-All ips host port)

  abbrev pub is_dev : Text → Bool
  is_dev env = any (text_eq env) (codes "dev" ∷ codes "test" ∷ codes "local" ∷ codes "testnet" ∷ [])

  -- Where plain http is allowed.
  abbrev pub allows_http : Text → Bool
  allows_http env =
      if is_dev env then security.allow_http_in_dev else not security.require_https_in_prod

  -- What a URL that `validate` accepts has passed.
  pub record Accepted (env : Text) (ips : List Text) (p : Url) (t : ResolvedTarget) : Type 0 where
    pub target : t ≡ record { host = host_of p; port = port_of p; scheme = p.scheme; ips = ips }
    pub scheme : (p.scheme ≡ codes "https") ⊎ ((p.scheme ≡ codes "http") × (allows_http env ≡ true))
    pub credentials :
        (is_set lib security p.username ≡ false) × (is_set lib security p.password ≡ false)
    pub allowlist :
        (hosts : List Text)
        → security.allowed_hosts ≡ some hosts
        → host_matches lib.idna (host_of p) hosts ≡ true
    pub resolved : is_empty ips ≡ false
    pub addresses : All (λ ip. check_ip lib security ip p.hostname (some (port_of p)) ≡ ok tt) ips

  Checked-cases :
      {A : Type 0} (c : Checked A)
      → ((x : A) × (c ≡ ok x)) ⊎ ((e : InvalidTargetReason) × (c ≡ err e))
  Checked-cases (ok x) = inl (x, refl)
  Checked-cases (err e) = inr (e, refl)

  check_scheme-ok :
      (p : Url) (env : Text)
      → check_scheme lib security p env ≡ ok tt
      → (p.scheme ≡ codes "https") ⊎ ((p.scheme ≡ codes "http") × (allows_http env ≡ true))
  unfolding check_scheme
  check_scheme-ok p env h = ground (
    arith,
    text_eq→eq p.scheme (codes "https"),
    text_eq→eq p.scheme (codes "http"),
    Bool-cases (is_dev env),
  )

  check_credentials-ok :
      (p : Url)
      → check_credentials lib security p ≡ ok tt
      → (is_set lib security p.username ≡ false) × (is_set lib security p.password ≡ false)
  unfolding check_credentials
  check_credentials-ok p h = ground (
    arith,
    Bool-cases (is_set lib security p.username),
    Bool-cases (is_set lib security p.password),
  )

  check_host_allowlist-ok :
      (p : Url) (hosts : List Text)
      → check_host_allowlist lib security p ≡ ok tt
      → security.allowed_hosts ≡ some hosts
      → host_matches lib.idna (host_of p) hosts ≡ true
  unfolding check_host_allowlist
  check_host_allowlist-ok p hosts h e =
      ground (arith, Bool-cases (host_matches lib.idna (host_of p) hosts))

  validate_url-Accepted :
      (p : Url) (env : Text) (ips : List Text) (t : ResolvedTarget)
      → validate_url lib security p ips env ≡ ok t
      → Accepted env ips p t
  unfolding validate_url check_ips
  validate_url-Accepted p env ips t h = elim (Checked-cases (check_scheme lib security p env)) [
    | inr (e, c) ↦ absurd (ground arith)
    | inl (_, c) ↦ elim (Checked-cases (check_credentials lib security p)) [
      | inr (e, c') ↦ absurd (ground arith)
      | inl (_, c') ↦ elim (Checked-cases (check_host_allowlist lib security p)) [
        | inr (e, c'') ↦ absurd (ground arith)
        | inl (_, c'') ↦ record {
          target = ground arith;
          scheme = check_scheme-ok p env c;
          credentials = check_credentials-ok p c';
          allowlist = λ hosts. check_host_allowlist-ok p hosts c'';
          resolved = ground arith;
          addresses = check_each-All ips p.hostname (some (port_of p)) (ground arith);
        }
      ]
    ]
  ]

  -- A URL that `validate` accepts splits, and it has a target of its own parts; it is https, or
  -- http where the environment allows that; it names no user or password; its host is on the
  -- allowlist, if there is one; and there are addresses, each of which `check_ip` passes for the
  -- URL's host and port.
  pub validate-Accepted :
      (url env : Text) (ips : List Text) (t : ResolvedTarget)
      → validate lib security url ips env ≡ some (ok t)
      → (p : Url) × (lib.urlsplit url ≡ some p) × Accepted env ips p t
  unfolding validate
  validate-Accepted url env ips t h = elim (Option-cases (lib.urlsplit url)) [
    | inl e ↦ absurd (ground arith)
    | inr (p, e) ↦ (p, e, validate_url-Accepted p env ips t (ground arith))
  ]
