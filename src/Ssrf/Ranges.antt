-- ===== src/Ssrf/Ranges.antt =====
-- What the default blocked networks and the unmapping of v6 addresses come to.
use webhooks_engine.Prelude.{
  ℕ, ◌+◌, ◌*◌, ◌/◌, ◌%◌, ◌^◌, ◌<◌, ◌≡◌, Bool, ◌&&◌, ◌||◌, Option, Text, ◌==◌, leb, arith,
  Option-cases,
}
use webhooks_engine.Ssrf.Address.{
  v4, v6, within, from_strings, blocks, ipv4_mapped, default_blocked_cidrs,
}
use webhooks_engine.Ssrf.Guard.{NetLib, SecurityConfig, unmap, judge}

-- By its first two octets: the addresses of 0/8, 10/8, 127/8, 100.64/10, 169.254/16, 172.16/12,
-- 192.168/16, 198.18/15, and from 224 on.
abbrev pub is_internal : ℕ → ℕ → Bool
is_internal a b =
    a == 0
    || a == 10
    || a == 127
    || (a == 100 && leb 64 b && leb b 127)
    || (a == 169 && b == 254)
    || (a == 172 && leb 16 b && leb b 31)
    || (a == 192 && b == 168)
    || (a == 198 && leb 18 b && leb b 19)
    || leb 224 a

-- The default networks block a v4 address, of 32 bits, exactly if its first two octets are
-- internal.
pub blocks-default_blocked_cidrs :
    (n : ℕ)
    → n < 2 ^ 32
    → blocks (from_strings default_blocked_cidrs) (v4 n)
      ≡ is_internal (n / 2 ^ 24) (n / 2 ^ 16 % 256)
unfolding blocks from_strings default_blocked_cidrs within
blocks-default_blocked_cidrs n h = ground arith

unmap-mapped : (n : ℕ) → n < 2 ^ 32 → unmap (v6 (0xffff * 2 ^ 32 + n)) ≡ v4 n
unfolding unmap ipv4_mapped
unmap-mapped n h = ground arith

-- A v4 address, of 32 bits, inside a mapped v6 one is judged as the v4 address, for every host
-- and port.
pub judge-mapped :
    (lib : NetLib) (security : SecurityConfig) (n : ℕ) (host : Option Text) (port : Option ℕ)
    → n < 2 ^ 32
    → judge lib security (v6 (0xffff * 2 ^ 32 + n)) host port ≡ judge lib security (v4 n) host port
unfolding judge
judge-mapped lib security n host port h = ground (arith, unmap-mapped n h, Option-cases host)
