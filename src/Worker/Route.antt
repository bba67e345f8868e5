-- ===== src/Worker/Route.antt =====
-- update_mac_addrs, ipsec_event_pre_forward, route4_pkt, route6_pkt and get_route of
-- ipsec_worker.c.
use ipsec_secgw_old.Prelude.{ℕ, ◌+◌, ◌-◌, Option, none, some, ltb, if◌then◌else◌}
use ipsec_secgw_old.Packet.{Mbuf, be32_at, u16}
use ipsec_secgw_old.Worker.Classify.{
  PktType, plain_ipv4, ipsec_ipv4, plain_ipv6, ipsec_ipv6, invalid, ether_hdr_len,
}

-- struct ethaddr_info, as the octets of each address
pub record EthaddrInfo : Type 0 where
  pub src : ℕ → ℕ
  pub dst : ℕ → ℕ

-- What the forwarding code reads and does not change: RTE_MAX_ETHPORTS, which is a constant of the
-- DPDK build, and the table of addresses by port.
pub record Ports : Type 0 where
  pub max_ethports : ℕ
  pub ethaddr_tbl : ℕ → EthaddrInfo

-- rte_lpm_lookup and rte_lpm6_lookup on the routing tables: the hop for an address, `none` for a
-- miss. An IPv6 address is given by its octets.
pub record RouteTable : Type 0 where
  pub rt4 : ℕ → Option ℕ
  pub rt6 : (ℕ → ℕ) → Option ℕ

-- The destination address comes first in an Ethernet header, then the source address.
unfoldable pub update_mac_addrs : Ports → Mbuf → ℕ → Mbuf
update_mac_addrs ports pkt portid =
    let eth = ports.ethaddr_tbl portid in
    record pkt {
      bytes = λ i. if ltb i 6 then eth.dst i else if ltb i 12 then eth.src (i - 6) else pkt.bytes i;
    }

unfoldable pub ipsec_event_pre_forward : Mbuf → ℕ → Mbuf
ipsec_event_pre_forward m port_id = record m { port = port_id; txq = 0 }

-- The offsets of `ip_dst` and `ip6_dst`.
abbrev pub ip_dst : ℕ
ip_dst = 16

abbrev pub ip6_dst : ℕ
ip6_dst = 24

-- The hop of a lookup, or RTE_MAX_ETHPORTS; the result has 16 bits.
abbrev hop_or_max : Ports → Option ℕ → ℕ
hop_or_max ports none = ports.max_ethports
hop_or_max ports (some hop) = u16 hop

unfoldable pub route4_pkt : Ports → Mbuf → RouteTable → ℕ
route4_pkt ports pkt rt = hop_or_max ports (rt.rt4 (be32_at pkt (ether_hdr_len + ip_dst)))

unfoldable pub route6_pkt : Ports → Mbuf → RouteTable → ℕ
route6_pkt ports pkt rt = hop_or_max ports (rt.rt6 (λ i. pkt.bytes (ether_hdr_len + ip6_dst + i)))

unfoldable pub get_route : Ports → Mbuf → RouteTable → PktType → ℕ
get_route ports pkt rt plain_ipv4 = route4_pkt ports pkt rt
get_route ports pkt rt ipsec_ipv4 = route4_pkt ports pkt rt
get_route ports pkt rt plain_ipv6 = route6_pkt ports pkt rt
get_route ports pkt rt ipsec_ipv6 = route6_pkt ports pkt rt
get_route ports pkt rt invalid = ports.max_ethports
