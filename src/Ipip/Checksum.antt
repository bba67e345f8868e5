-- ===== src/Ipip/Checksum.antt =====
-- What the updates of an IPv4 header do to its checksum.
use ipsec_secgw_old.Prelude.{
  ℕ, ◌+◌, ◌*◌, ◌/◌, ◌%◌, ◌<◌, ◌≡◌, ◌≢◌, arith, ◌==◌, Bool-cases, inl, inr,
}
use ipsec_secgw_old.Ipip.{Ip, bswap16, decrement_ttl, ip4_ecn_setup}

-- The sum of the 16-bit words of a header, as they lie in memory.
abbrev pub words : Ip → ℕ
words ip =
    4 * 16
    + ip.ip_hl
    + 256 * ip.ip_tos
    + bswap16 ip.ip_len
    + bswap16 ip.ip_id
    + bswap16 ip.ip_off
    + ip.ip_ttl
    + 256 * ip.ip_p
    + ip.ip_sum
    + bswap16 (ip.ip_src / 65536)
    + bswap16 (ip.ip_src % 65536)
    + bswap16 (ip.ip_dst / 65536)
    + bswap16 (ip.ip_dst % 65536)

-- RFC 1071: the checksum is right when the sum is 0 in one's complement arithmetic.
abbrev pub Valid : Ip → Type 0
Valid ip = words ip % 65535 ≡ 0

-- Lowering the time to live of a header leaves its checksum right, if it was.
pub decrement_ttl-Valid :
    (ip : Ip)
    → 0 < ip.ip_ttl
    → ip.ip_ttl < 256
    → ip.ip_sum < 65536
    → Valid ip
    → Valid (decrement_ttl ip)
unfolding decrement_ttl
decrement_ttl-Valid ip a b c h = ground arith

-- Marking a header with ip4_ecn_setup makes a right checksum wrong.
pub ip4_ecn_setup-invalid :
    (ip : Ip)
    → ip.ip_tos < 256
    → ip.ip_tos % 4 ≢ 0
    → ip.ip_sum < 65536
    → Valid ip
    → ¬ Valid (ip4_ecn_setup ip)
unfolding ip4_ecn_setup
ip4_ecn_setup-invalid ip a b c h = elim (Bool-cases (ip.ip_tos % 4 == 0)) [
  | inl e ↦ absurd (ground arith)
  | inr e ↦ rw e (λ v. omega arith)
]
