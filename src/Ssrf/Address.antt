-- ===== src/Ssrf/Address.antt =====
-- Addresses and networks as ssrf_guard.py takes them from `ipaddress`, `BlockedCidrSet`, and
-- `_reason`. An address is its number, of 32 or 128 bits. A network is its address and the length
-- of its prefix: the text of a CIDR is given parsed, `from_strings` tells the two kinds apart
-- by a colon as the constructors do here.
use webhooks_engine.Prelude.{
  ℕ, ◌-◌, ◌*◌, ◌/◌, ◌%◌, ◌^◌, Bool, Option, none, some, List, [], ◌∷◌, ◌==◌, if◌then◌else◌, any,
}
use webhooks_engine.Types.{
  InvalidTargetReason, loopback, link_local, multicast, cgnat, nat64, six_to_four, ula, reserved,
  private_ip,
}

pub data Address : Type 0 where
  v4 : ℕ → Address
  v6 : ℕ → Address

pub record Network : Type 0 where
  pub base : ℕ
  pub prefix : ℕ

pub data Cidr : Type 0 where
  cidr4 : Network → Cidr
  cidr6 : Network → Cidr

-- `ip in network`, of `width` bits; `strict=False` drops the host bits of the base.
unfoldable pub within : ℕ → ℕ → Network → Bool
within width n net = n / 2 ^ (width - net.prefix) == net.base / 2 ^ (width - net.prefix)

pub record BlockedCidrSet : Type 0 where
  pub nets_v4 : List Network
  pub nets_v6 : List Network

unfoldable pub from_strings : List Cidr → BlockedCidrSet
from_strings [] = record { nets_v4 = []; nets_v6 = [] }
from_strings (cidr4 n ∷ cs) =
    let rest = from_strings cs in record rest { nets_v4 = n ∷ rest.nets_v4 }
from_strings (cidr6 n ∷ cs) =
    let rest = from_strings cs in record rest { nets_v6 = n ∷ rest.nets_v6 }

unfoldable pub blocks : BlockedCidrSet → Address → Bool
unfolding within
blocks set (v4 n) = any (within 32 n) set.nets_v4
blocks set (v6 n) = any (within 128 n) set.nets_v6

-- `addr.ipv4_mapped`: ::ffff:a.b.c.d
unfoldable pub ipv4_mapped : ℕ → Option ℕ
ipv4_mapped n = if n / 2 ^ 32 == 0xffff then some (n % 2 ^ 32) else none

abbrev net : ℕ → ℕ → Network
net b p = record { base = b; prefix = p }

-- `_CGNAT`, `_NAT64`, `_SIX_TO_FOUR`, `_ULA`
abbrev pub cgnat_net : Network
cgnat_net = net 0x64400000 10

abbrev pub nat64_net : Network
nat64_net = net 0x0064ff9b000000000000000000000000 96

abbrev pub six_to_four_net : Network
six_to_four_net = net 0x20020000000000000000000000000000 16

abbrev pub ula_net : Network
ula_net = net 0xfc000000000000000000000000000000 7

-- The predicates of `ipaddress` that `_reason` asks, from its documented tables.
unfoldable pub is_loopback : Address → Bool
unfolding within
is_loopback (v4 n) = within 32 n (net 0x7f000000 8)
is_loopback (v6 n) = n == 1

unfoldable pub is_link_local : Address → Bool
unfolding within
is_link_local (v4 n) = within 32 n (net 0xa9fe0000 16)
is_link_local (v6 n) = within 128 n (net 0xfe800000000000000000000000000000 10)

unfoldable pub is_multicast : Address → Bool
unfolding within
is_multicast (v4 n) = within 32 n (net 0xe0000000 4)
is_multicast (v6 n) = within 128 n (net 0xff000000000000000000000000000000 8)

-- `IPv6Address.is_reserved` tests fifteen networks, by their leading bits.
abbrev reserved_v6 : List Network
reserved_v6 =
    net 0 8
    ∷ net (0x01 * 2 ^ 120) 8
    ∷ net (0x02 * 2 ^ 120) 7
    ∷ net (0x04 * 2 ^ 120) 6
    ∷ net (0x08 * 2 ^ 120) 5
    ∷ net (0x10 * 2 ^ 120) 4
    ∷ net (0x40 * 2 ^ 120) 3
    ∷ net (0x60 * 2 ^ 120) 3
    ∷ net (0x80 * 2 ^ 120) 3
    ∷ net (0xa0 * 2 ^ 120) 3
    ∷ net (0xc0 * 2 ^ 120) 3
    ∷ net (0xe0 * 2 ^ 120) 4
    ∷ net (0xf0 * 2 ^ 120) 5
    ∷ net (0xf8 * 2 ^ 120) 6
    ∷ net (0xfe * 2 ^ 120) 9
    ∷ []

unfoldable pub is_reserved : Address → Bool
unfolding within
is_reserved (v4 n) = within 32 n (net 0xf0000000 4)
is_reserved (v6 n) = any (within 128 n) reserved_v6

-- The tests of `_reason` on a v6 address alone; `none` where none of them answers.
reason_v6 : ℕ → Option InvalidTargetReason
unfolding within
reason_v6 n =
    if within 128 n nat64_net
    then some nat64
    else if within 128 n six_to_four_net
    then some six_to_four
    else if within 128 n ula_net
    then some ula
    else none

reserved_or_private : Address → InvalidTargetReason
unfolding is_reserved
reserved_or_private a = if is_reserved a then reserved else private_ip

own_reason : Address → InvalidTargetReason
unfolding reason_v6 reserved_or_private within
own_reason (v4 n) = if within 32 n cgnat_net then cgnat else reserved_or_private (v4 n)
own_reason (v6 n) = elim (reason_v6 n) [ none ↦ reserved_or_private (v6 n) | some r ↦ r ]

-- `_reason`
unfoldable pub reason : Address → InvalidTargetReason
unfolding is_loopback is_link_local is_multicast own_reason
reason a =
    if is_loopback a
    then loopback
    else if is_link_local a
    then link_local
    else if is_multicast a
    then multicast
    else own_reason a

-- `WebhookSecurityConfig.blocked_cidrs`, the default.
unfoldable pub default_blocked_cidrs : List Cidr
default_blocked_cidrs =
    cidr4 (net 0 8)
    ∷ cidr6 (net 0 128)
    ∷ cidr4 (net 0x7f000000 8)
    ∷ cidr4 (net 0x0a000000 8)
    ∷ cidr4 (net 0xac100000 12)
    ∷ cidr4 (net 0xc0a80000 16)
    ∷ cidr4 (net 0xa9fe0000 16)
    ∷ cidr4 (net 0x64400000 10)
    ∷ cidr4 (net 0xc6120000 15)
    ∷ cidr4 (net 0xe0000000 4)
    ∷ cidr4 (net 0xf0000000 4)
    ∷ cidr4 (net 0xffffffff 32)
    ∷ cidr6 (net 1 128)
    ∷ cidr6 (net 0xfc000000000000000000000000000000 7)
    ∷ cidr6 (net 0xfe800000000000000000000000000000 10)
    ∷ cidr6 (net 0xff000000000000000000000000000000 8)
    ∷ cidr6 (net 0x0064ff9b000000000000000000000000 96)
    ∷ cidr6 (net 0x20020000000000000000000000000000 16)
    ∷ cidr6 (net 0xffff00000000 96)
    ∷ []
