-- ===== src/Worker/Classify.antt =====
-- enum pkt_type of ipsec_worker.h and process_ipsec_get_pkt_type of ipsec_worker.c.
use ipsec_secgw_old.Prelude.{ℕ, ◌+◌, Option, none, some, if◌then◌else◌}
use ipsec_secgw_old.Packet.{Mbuf}

pub data PktType : Type 0 where
  plain_ipv4 ipsec_ipv4 plain_ipv6 ipsec_ipv6 invalid : PktType

-- Offsets from the start of the frame: RTE_ETHER_HDR_LEN and the fields `ip_p` and `ip6_nxt`.
abbrev pub ether_hdr_len : ℕ
ether_hdr_len = 14

abbrev pub ip_p : ℕ
ip_p = 9

abbrev pub ip6_nxt : ℕ
ip6_nxt = 6

-- The type, and the offset that is written to `*nlp`; an unknown packet leaves it unwritten.
unfoldable pub process_ipsec_get_pkt_type : Mbuf → PktType × Option ℕ
process_ipsec_get_pkt_type pkt =
    if pkt.ipv4_hdr
    then (if pkt.tunnel_esp then ipsec_ipv4 else plain_ipv4, some (ether_hdr_len + ip_p))
    else if pkt.ipv6_hdr
    then (if pkt.tunnel_esp then ipsec_ipv6 else plain_ipv6, some (ether_hdr_len + ip6_nxt))
    else (invalid, none)
