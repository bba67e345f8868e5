-- ===== src/Config/Inline/Taken.antt =====
-- The addresses that an SA takes from a policy for IPv6 are those of the configuration file.
use ipsec_secgw_old.Prelude.{
  ℕ, ◌^◌, ◌≤◌, ◌<◌, ◌≡◌, ◌≢◌, refl, true, Bool-cases, Option-cases, inl, inr, Option, some, arith,
}
use ipsec_secgw_old.Config.Token.{Token, parse_ipv6_addr}
use ipsec_secgw_old.Config.Search.{IsAscending, IsSmall}
use ipsec_secgw_old.Config.Policies.{words6}
use ipsec_secgw_old.Config.Present.{
  Present, IsAddress, IsWritten, GivesOctets, sp4_spi_present, sp4_spi_present-none,
  sp6_spi_present, sp6_spi_present-IsWritten,
}
use ipsec_secgw_old.Config.Inline.{
  SpRules, get_spi_proto, IpAddr, ip6, InlineSa, any_octet, valid6, sa_add_address_inline_crypto,
}

-- An address of the SA is the one of the token, which has a depth of 128 and is not zero.
pub record IsHost (inet_pton : Token → Option (ℕ → ℕ)) (t : Token) (a : IpAddr) : Type 0 where
  pub out : ℕ → ℕ
  pub same : a ≡ ip6 out
  pub ip : ℕ → ℕ
  pub depth : ℕ
  pub parsed : parse_ipv6_addr inet_pton t ≡ some (ip, depth)
  pub same_octets : (i : ℕ) → i < 16 → out i ≡ ip i
  pub whole : 128 ≤ depth
  pub not_zero : any_octet out 16 ≡ true

-- The SA has the addresses of the tokens, and no policy for IPv4 has its SPI.
pub record IsTaken (inet_pton : Token → Option (ℕ → ℕ)) (r : SpRules) (spi : ℕ)
    (src_t dst_t : Token) (sa : InlineSa) : Type 0 where
  pub no_rule4 : (i : ℕ) → i < r.nb_acl4 → (r.acl4 i).userdata ≢ spi
  pub transport : sa.ip6_transport ≡ true
  pub src_host : IsHost inet_pton src_t sa.src
  pub dst_host : IsHost inet_pton dst_t sa.dst

IsAddress-IsHost :
    (inet_pton : Token → Option (ℕ → ℕ)) (t : Token) (out : ℕ → ℕ) (mask : ℕ)
    → IsAddress inet_pton t out mask
    → mask ≡ 128
    → any_octet out 16 ≡ true
    → IsHost inet_pton t (ip6 out)
IsAddress-IsHost inet_pton t out mask address full not_zero = record {
  out = out;
  same = refl;
  ip = address.ip;
  depth = address.depth;
  parsed = address.parsed;
  same_octets = address.same_octets;
  whole = omega (arith, address.same_depth, full);
  not_zero = not_zero;
}

module _ (inet_pton : Token → Option (ℕ → ℕ)) (r : SpRules) (spi k : ℕ) (src_t dst_t : Token) where
  added-IsTaken :
      (p : Present (ℕ → ℕ)) (sa : InlineSa)
      → sp6_spi_present r.acl6 r.nb_acl6 spi ≡ some p
      → IsWritten inet_pton r.acl6 r.nb_acl6 spi k src_t dst_t p
      → IsAscending (λ i. (r.acl4 i).userdata) r.nb_acl4
      → IsSmall (λ i. (r.acl4 i).userdata) r.nb_acl4
      → spi < 2 ^ 31
      → (sa_add_address_inline_crypto r spi sa).0 ≡ true
      → IsTaken inet_pton r spi src_t dst_t ((sa_add_address_inline_crypto r spi sa).1)
  unfolding sa_add_address_inline_crypto get_spi_proto IsWritten
  added-IsTaken p sa found (same_index, src_a, dst_a) ascending4 small4 spi_small ok =
      elim (Option-cases (sp4_spi_present r.acl4 r.nb_acl4 spi)) [
        | inr (q, f) ↦
            absurd (cc (rw (f, found, sa_add_address_inline_crypto, get_spi_proto) at ok))
        | inl f ↦ elim (Bool-cases (valid6 p)) [
          | inr v ↦
              absurd (cc (rw (f, found, v, sa_add_address_inline_crypto, get_spi_proto) at ok))
          | inl v ↦
              let src_full : p.mask.0 ≡ 128 = ground arith in
              let dst_full : p.mask.1 ≡ 128 = ground arith in
              let src_some : any_octet (p.ip_addr.0) 16 ≡ true = ground arith in
              let dst_some : any_octet (p.ip_addr.1) 16 ≡ true = ground arith in
              rw (f, found, v, sa_add_address_inline_crypto, get_spi_proto)
                (record {
                  no_rule4 =
                      sp4_spi_present-none r.acl4 r.nb_acl4 spi ascending4 small4 spi_small f;
                  transport = refl;
                  src_host =
                      IsAddress-IsHost inet_pton src_t (p.ip_addr.0) (p.mask.0) src_a src_full
                        src_some;
                  dst_host =
                      IsAddress-IsHost inet_pton dst_t (p.ip_addr.1) (p.mask.1) dst_a dst_full
                        dst_some;
                })
        ]
      ]

  -- For rules for IPv4 and for IPv6, each in the order of their SPIs, all below 2 ^ 31, where one rule
  -- for IPv6 has the SPI and holds the addresses read from two tokens: where the SA is accepted, no
  -- rule for IPv4 has its SPI, and it has the octets of both addresses as inet_pton read them, which
  -- have a depth of at least 128 and are not zero.
  pub sa_add_address_inline_crypto-IsTaken :
      (sa : InlineSa)
      → GivesOctets inet_pton
      → IsAscending (λ i. (r.acl6 i).userdata) r.nb_acl6
      → IsSmall (λ i. (r.acl6 i).userdata) r.nb_acl6
      → IsAscending (λ i. (r.acl4 i).userdata) r.nb_acl4
      → IsSmall (λ i. (r.acl4 i).userdata) r.nb_acl4
      → spi < 2 ^ 31
      → k < r.nb_acl6
      → (r.acl6 k).userdata ≡ spi
      → ((i : ℕ) → i < r.nb_acl6 → (r.acl6 i).userdata ≡ spi → i ≡ k)
      → words6 inet_pton src_t ≡ some (r.acl6 k).src
      → words6 inet_pton dst_t ≡ some (r.acl6 k).dst
      → (sa_add_address_inline_crypto r spi sa).0 ≡ true
      → IsTaken inet_pton r spi src_t dst_t ((sa_add_address_inline_crypto r spi sa).1)
  sa_add_address_inline_crypto-IsTaken sa gives ascending small ascending4 small4 spi_small lt own
        only src_e dst_e ok =
      let (p, found, written) =
        sp6_spi_present-IsWritten inet_pton r.acl6 r.nb_acl6 spi k src_t dst_t gives ascending small
          spi_small lt own only src_e dst_e in
      added-IsTaken p sa found written ascending4 small4 spi_small ok
