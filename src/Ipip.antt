-- ===== src/Ipip.antt =====
-- ipip.h: IP in IP tunnel headers, with the congestion marks of RFC 4301 and the update of IPv4
-- checksums. A header is a record of its fields; a little-endian processor is assumed for the
-- arithmetic on `ip_sum`, which the code loads as it lies in memory.
pub mod Checksum
pub mod Roundtrip
mod Tests
use ipsec_secgw_old.Prelude.{
  ℕ, ◌+◌, ◌-◌, ◌*◌, ◌/◌, ◌%◌, ◌^◌, Option, none, some, Bool, true, false, ◌==◌, not, leb,
  if◌then◌else◌,
}
use ipsec_secgw_old.Packet.{u8, u16}

-- struct ip, of version IPVERSION: lengths and addresses as numbers, `ip_sum` as loaded.
pub record Ip : Type 0 where
  pub ip_hl : ℕ
  pub ip_tos : ℕ
  pub ip_len : ℕ
  pub ip_id : ℕ
  pub ip_off : ℕ
  pub ip_ttl : ℕ
  pub ip_p : ℕ
  pub ip_sum : ℕ
  pub ip_src : ℕ
  pub ip_dst : ℕ

-- struct ip6_hdr: `ip6_flow` in host order, with the version in its four upper bits.
pub record Ip6Hdr : Type 0 where
  pub ip6_flow : ℕ
  pub ip6_plen : ℕ
  pub ip6_nxt : ℕ
  pub ip6_hops : ℕ
  pub ip6_src : ℕ
  pub ip6_dst : ℕ

pub data IpHdr : Type 0 where
  v4 : Ip → IpHdr
  v6 : Ip6Hdr → IpHdr

-- A packet with an outer header, and the inner one `offset` octets behind it.
pub record Tunnelled : Type 0 where
  pub outer : IpHdr
  pub inner : IpHdr
  pub data_len : ℕ

-- rte_cpu_to_be_16 and rte_be_to_cpu_16 on a little-endian processor.
abbrev pub bswap16 : ℕ → ℕ
bswap16 n = n % 256 * 256 + n / 256

abbrev pub ipproto_esp : ℕ
ipproto_esp = 50

abbrev pub ipdefttl : ℕ
ipdefttl = 64

-- The time to live goes down by one, and the checksum is updated for it.
unfoldable pub decrement_ttl : Ip → Ip
decrement_ttl ip =
    let step = bswap16 0x100 in
    record ip {
      ip_ttl = u8 (ip.ip_ttl + 255);
      ip_sum =
          if leb (bswap16 (0xffff - 0x100)) ip.ip_sum
          then u16 (ip.ip_sum + step + 1)
          else u16 (ip.ip_sum + step);
    }

-- The traffic class of an IPv6 header: `ip6_flow >> 20`, in a variable of 8 bits.
abbrev pub traffic_class : Ip6Hdr → ℕ
traffic_class ip6 = u8 (ip6.ip6_flow / 2 ^ 20)

-- `ds_ecn`, and the inner header as it is sent.
unfoldable pub forward_inner : IpHdr → ℕ × IpHdr
unfolding decrement_ttl
forward_inner (v4 ip) = (ip.ip_tos, v4 (decrement_ttl ip))
forward_inner (v6 ip6) = (traffic_class ip6, v6 (record ip6 { ip6_hops = u8 (ip6.ip6_hops + 255) }))

-- `ip_sum` of the outer header is not written here; it is what the headroom holds.
unfoldable pub ipip_outbound : ℕ → IpHdr → ℕ → ℕ → Bool → ℕ → ℕ → Tunnelled
unfolding forward_inner
ipip_outbound headroom inner data_len offset is_ipv6 src dst =
    let (ds_ecn, inner') = forward_inner inner in
    if is_ipv6
    then record {
      outer = v6 (record {
        ip6_flow = 6 * 2 ^ 28 + ds_ecn * 2 ^ 20;
        ip6_plen = u16 (data_len + offset);
        ip6_nxt = ipproto_esp;
        ip6_hops = ipdefttl;
        ip6_src = src;
        ip6_dst = dst;
      });
      inner = inner';
      data_len = data_len + (offset + 40);
    }
    else record {
      outer = v4 (record {
        ip_hl = 5;
        ip_tos = ds_ecn;
        ip_len = u16 (data_len + (offset + 20));
        ip_id = 0;
        ip_off = 0;
        ip_ttl = ipdefttl;
        ip_p = ipproto_esp;
        ip_sum = headroom;
        ip_src = src;
        ip_dst = dst;
      });
      inner = inner';
      data_len = data_len + (offset + 20);
    }

-- The two low bits are set if one of them is. `sum` has more than 16 bits; both folds are done.
unfoldable pub ip4_ecn_setup : Ip → Ip
ip4_ecn_setup ip =
    let tos = ip.ip_tos - ip.ip_tos % 4 + 3 in
    let sum = ip.ip_tos + (255 - tos) + bswap16 ip.ip_sum in
    let folded = sum % 65536 + sum / 65536 in
    if ip.ip_tos % 4 == 0
    then ip
    else record ip { ip_tos = tos; ip_sum = bswap16 (u16 (folded + folded / 65536)) }

unfoldable pub ip6_ecn_setup : Ip6Hdr → Ip6Hdr
ip6_ecn_setup ip6 =
    let ecn = ip6.ip6_flow / 2 ^ 20 % 4 in
    if ecn == 0 then ip6 else record ip6 { ip6_flow = ip6.ip6_flow + (3 - ecn) * 2 ^ 20 }

-- `ip_len`, and whether the outer header is marked with IPTOS_ECN_CE.
unfoldable pub outer_of : IpHdr → ℕ × Bool
outer_of (v4 ip) = (20, ip.ip_tos % 4 == 3)
outer_of (v6 ip6) = (40, ip6.ip6_flow / 2 ^ 20 % 4 == 3)

unfoldable pub receive_inner : Bool → IpHdr → IpHdr
unfolding ip4_ecn_setup ip6_ecn_setup decrement_ttl
receive_inner set_ecn (v4 ip) = v4 (decrement_ttl (if set_ecn then ip4_ecn_setup ip else ip))
receive_inner set_ecn (v6 ip6) =
    let marked = if set_ecn then ip6_ecn_setup ip6 else ip6 in
    v6 (record marked { ip6_hops = u8 (marked.ip6_hops + 255) })

-- The inner header and the length of the packet that is left.
unfoldable pub ipip_inbound : Tunnelled → ℕ → IpHdr × ℕ
unfolding outer_of receive_inner
ipip_inbound t offset =
    let (ip_len, set_ecn) = outer_of t.outer in
    (receive_inner set_ecn t.inner, t.data_len - (offset + ip_len))
