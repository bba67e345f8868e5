-- ===== src/Config/Inline.antt =====
-- The addresses of an SA for inline crypto in transport mode, which the policies give: get_spi_proto
-- and sa_add_address_inline_crypto of sa.c.
pub mod Taken
use ipsec_secgw_old.Prelude.{
  ℕ, zero, suc, ◌+◌, ◌<◌, ◌≡◌, ◌≢◌, refl, Bool, true, false, ◌&&◌, ◌||◌, not, ◌==◌, if◌then◌else◌,
  Bool-cases, Option-cases, ◌⊎◌, inl, inr, Option, none, some, arith,
}
use ipsec_secgw_old.Config.Rule.{AclRule}
use ipsec_secgw_old.Config.Present.{Present, sp4_spi_present, sp6_spi_present}

-- The rules of one direction.
pub record SpRules : Type 0 where
  pub acl4 : ℕ → AclRule
  pub nb_acl4 : ℕ
  pub acl6 : ℕ → AclRule
  pub nb_acl6 : ℕ

-- IPPROTO_IPIP and IPPROTO_IPV6, with the addresses and masks of the rule, or -EINVAL.
pub data SpiProto : Type 0 where
  ipip : Present ℕ → SpiProto
  ipv6 : Present (ℕ → ℕ) → SpiProto
  invalid : SpiProto

abbrev pub spi_proto : Option (Present ℕ) → Option (Present (ℕ → ℕ)) → SpiProto
spi_proto none none = invalid
spi_proto none (some p) = ipv6 p
spi_proto (some p) none = ipip p
spi_proto (some p) (some q) = invalid

unfoldable pub get_spi_proto : SpRules → ℕ → SpiProto
get_spi_proto r spi =
    spi_proto (sp4_spi_present r.acl4 r.nb_acl4 spi) (sp6_spi_present r.acl6 r.nb_acl6 spi)

-- The union of addresses: an IPv4 address as a number, or the octets of an IPv6 address.
pub data IpAddr : Type 0 where
  ip4 : ℕ → IpAddr
  ip6 : (ℕ → ℕ) → IpAddr

-- What is changed of the SA: the bits IP4_TRANSPORT and IP6_TRANSPORT of its flags, and its addresses.
pub record InlineSa : Type 0 where
  pub ip4_transport : Bool
  pub ip6_transport : Bool
  pub src : IpAddr
  pub dst : IpAddr

-- One of the first `n` octets is not 0.
abbrev pub any_octet : (ℕ → ℕ) → ℕ → Bool
any_octet ip zero = false
any_octet ip (suc n) = not (ip n == 0) || any_octet ip n

-- IP4_FULL_MASK is 32, and IP6_FULL_MASK 128.
abbrev pub valid4 : Present ℕ → Bool
valid4 p = (p.mask.0 == 32) && (p.mask.1 == 32) && not (p.ip_addr.0 == 0) && not (p.ip_addr.1 == 0)

abbrev pub valid6 : Present (ℕ → ℕ) → Bool
valid6 p =
    (p.mask.0 == 128)
    && (p.mask.1 == 128)
    && any_octet (p.ip_addr.0) 16
    && any_octet (p.ip_addr.1) 16

-- False for -EINVAL. The bit of the flags is set even where the addresses are refused.
abbrev pub add_address : SpiProto → InlineSa → Bool × InlineSa
add_address invalid sa = (false, sa)
add_address (ipip p) sa =
    if valid4 p
    then (
      true,
      record sa { ip4_transport = true; src = ip4 (p.ip_addr.0); dst = ip4 (p.ip_addr.1) },
    )
    else (false, record sa { ip4_transport = true })
add_address (ipv6 p) sa =
    if valid6 p
    then (
      true,
      record sa { ip6_transport = true; src = ip6 (p.ip_addr.0); dst = ip6 (p.ip_addr.1) },
    )
    else (false, record sa { ip6_transport = true })

unfoldable pub sa_add_address_inline_crypto : SpRules → ℕ → InlineSa → Bool × InlineSa
unfolding get_spi_proto
sa_add_address_inline_crypto r spi sa = add_address (get_spi_proto r spi) sa
