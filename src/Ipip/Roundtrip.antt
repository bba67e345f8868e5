-- ===== src/Ipip/Roundtrip.antt =====
-- A packet that goes through a tunnel and out of it.
use ipsec_secgw_old.Prelude.{
  ℕ, ◌+◌, ◌-◌, ◌*◌, ◌/◌, ◌%◌, ◌^◌, ◌<◌, ◌≡◌, ◌≢◌, refl, ap, subst, ◌∙◌, arith, Bool, true, false,
  ◌==◌,
}
use ipsec_secgw_old.Ipip.{
  Ip, v4, decrement_ttl, forward_inner, ipip_outbound, outer_of, receive_inner, ipip_inbound,
}
use ipsec_secgw_old.Ipip.Checksum.{Valid, decrement_ttl-Valid}

-- The outer header carries the traffic class of the inner one.
tunnel_unmarked :
    (headroom : ℕ) (ip : Ip) (data_len offset : ℕ) (is_ipv6 : Bool) (src dst : ℕ)
    → ip.ip_tos % 4 ≢ 3
    → ipip_inbound (ipip_outbound headroom (v4 ip) data_len offset is_ipv6 src dst) offset
      ≡ (v4 (decrement_ttl (decrement_ttl ip)), data_len)
unfolding ipip_inbound ipip_outbound forward_inner outer_of receive_inner
tunnel_unmarked headroom ip data_len offset true src dst h =
    let unmarked : ((6 * 2 ^ 28 + ip.ip_tos * 2 ^ 20) / 2 ^ 20 % 4 == 3) ≡ false = ground arith in
    let len : data_len + (offset + 40) - (offset + 40) ≡ data_len = omega arith in
    rw (unmarked, len) refl
tunnel_unmarked headroom ip data_len offset false src dst h =
    let unmarked : (ip.ip_tos % 4 == 3) ≡ false = ground arith in
    let len : data_len + (offset + 20) - (offset + 20) ≡ data_len = omega arith in
    rw (unmarked, len) refl

-- An IPv4 packet with a right checksum, a time to live above 1 and no congestion mark comes out of
-- a tunnel, of either version, with its length, a time to live that is lower by two, a right
-- checksum, and every other field of its header as it was.
pub ipip-roundtrip :
    (headroom : ℕ) (ip : Ip) (data_len offset : ℕ) (is_ipv6 : Bool) (src dst : ℕ)
    → ip.ip_tos % 4 ≢ 3
    → 1 < ip.ip_ttl
    → ip.ip_ttl < 256
    → ip.ip_sum < 65536
    → Valid ip
    → (sum : ℕ) × (ipip_inbound
          (ipip_outbound headroom (v4 ip) data_len offset is_ipv6 src dst)
          offset
        ≡ (v4 (record ip { ip_ttl = ip.ip_ttl - 2; ip_sum = sum }), data_len))
      × Valid (record ip { ip_ttl = ip.ip_ttl - 2; ip_sum = sum })
unfolding decrement_ttl
ipip-roundtrip headroom ip data_len offset is_ipv6 src dst unmarked low high range valid =
    let once = decrement_ttl ip in
    let twice = decrement_ttl once in
    let ttl : twice.ip_ttl ≡ ip.ip_ttl - 2 = omega arith in
    let right =
      decrement_ttl-Valid once (omega arith) (omega arith) (ground arith)
        (decrement_ttl-Valid ip (omega arith) high range valid) in
    (
      twice.ip_sum,
      tunnel_unmarked headroom ip data_len offset is_ipv6 src dst unmarked
          ∙ ap (λ t. (v4 (record ip { ip_ttl = t; ip_sum = twice.ip_sum }), data_len)) ttl,
      subst (λ t. Valid (record ip { ip_ttl = t; ip_sum = twice.ip_sum })) ttl right,
    )
