-- ===== src/Poll/Send.antt =====
-- Routing and sending in the poll mode of ipsec-secgw.c: prepare_tx_pkt, send_burst,
-- send_fragment_packet, send_single_packet, get_hop_for_offload_pkt, route4_pkts and route6_pkts.
-- The network devices and the fragmentation of packets are parameters.
pub mod Room
pub mod Conserve
use ipsec_secgw_old.Prelude.{
  ℕ, ◌+◌, ◌-◌, ◌%◌, ◌≤◌, ◌≡◌, List, [], ◌∷◌, ◌++◌, Option, none, some, Bool, true, false, ◌==◌,
  ◌&&◌, ◌||◌, leb, ltb, if◌then◌else◌, map, length, get_elem?, set, take, drop,
}
use ipsec_secgw_old.Packet.{Mbuf, Freed, free_pkts, be32_at, ip_version, max_pkt_burst}
use ipsec_secgw_old.Worker.Route.{EthaddrInfo, RouteTable}

-- rte_eth_tx_burst takes at most the packets that it is given, from the first on; the
-- fragmentation calls give at most as many fragments as there is room for, and `none` for an error.
-- The test is true for IPv4.
pub record Nic (E : Type 0) : Type 0 where
  pub tx_burst : E → ℕ → List Mbuf → ℕ × E
  pub fragment_packet : Bool → Mbuf → ℕ → Option (List Mbuf)
  pub fragment_le :
      (is_v4 : Bool) (m : Mbuf) (n : ℕ) (fs : List Mbuf)
      → fragment_packet is_v4 m n ≡ some fs
      → length fs ≤ n

-- What sending reads: the Ethernet addresses by port, whether the device computes the IPv4
-- checksum, rte_ipv4_cksum as two octets, `mtu_size`, `frag_tbl_sz`, and
-- RTE_LIBRTE_IP_FRAG_MAX_FRAG.
pub record TxConf : Type 0 where
  pub ethaddr_tbl : ℕ → EthaddrInfo
  pub ip_cksum_offload : Bool
  pub ipv4_cksum : (ℕ → ℕ) → ℕ × ℕ
  pub mtu_size : ℕ
  pub frag_tbl_sz : ℕ
  pub max_frag : ℕ

-- A core: the devices, the packets that wait for each port, the packets sent, those freed, and the
-- counts of lookups that missed.
pub record Lcore (E : Type 0) : Type 0 where
  pub nic : E
  pub tx_mbufs : List (List Mbuf)
  pub sent : List Mbuf
  pub freed : Freed
  pub lpm4_miss : ℕ
  pub lpm6_miss : ℕ

-- The octets of the packet with `ip_sum` set to 0.
abbrev without_sum : Mbuf → ℕ → ℕ
without_sum m i = if i == 10 || i == 11 then 0 else m.bytes i

abbrev sum_of : TxConf → Mbuf → ℕ × ℕ
sum_of conf m = if conf.ip_cksum_offload then (0, 0) else conf.ipv4_cksum (without_sum m)

-- An Ethernet header is put before the packet, and the checksum of an IPv4 header is written. The
-- offload flags of the port are not kept.
prepare_tx_pkt : TxConf → ℕ → Mbuf → Mbuf
prepare_tx_pkt conf port m =
    let is_v4 = ip_version m 0 == 4 in
    let eth = conf.ethaddr_tbl port in
    let (high, low) = sum_of conf m in
    record m {
      bytes = λ i.
          if ltb i 6
          then eth.dst i
          else if ltb i 12
          then eth.src (i - 6)
          else if i == 12
          then (if is_v4 then 0x08 else 0x86)
          else if i == 13
          then (if is_v4 then 0x00 else 0xdd)
          else if is_v4 && i == 24
          then high
          else if is_v4 && i == 25
          then low
          else m.bytes (i - 14);
      data_len = m.data_len + 14;
      pkt_len = m.pkt_len + 14;
      l2_len = 14;
      l3_len = if is_v4 then 20 else 40;
    }

frags_of : Option (List Mbuf) → List Mbuf
frags_of none = []
frags_of (some fs) = fs

module _ {E : Type 0} (nic : Nic E) (conf : TxConf) where
  -- The packets that wait are sent; those that the device does not take are freed.
  send_burst : Lcore E → ℕ → List Mbuf → Lcore E
  unfolding prepare_tx_pkt free_pkts
  send_burst c port m_table =
      let ready = map (prepare_tx_pkt conf port) m_table in
      let (ret, nic') = nic.tx_burst c.nic port ready in
      record c {
        nic = nic';
        sent = c.sent ++ take ret ready;
        freed = free_pkts (drop ret ready) c.freed;
      }

  free_one : Lcore E → Mbuf → Lcore E
  unfolding free_pkts
  free_one c m = record c { freed = free_pkts (m ∷ []) c.freed }

  -- The fragments wait, after those that waited are sent if there may be too many; the packet
  -- itself is freed. The result has the packets that wait now.
  send_fragment_packet : Lcore E → ℕ → Bool → List Mbuf → Mbuf → Lcore E × List Mbuf
  unfolding send_burst free_one frags_of
  send_fragment_packet c port is_v4 m_table m =
      let full = leb max_pkt_burst (length m_table + conf.max_frag) in
      let c' = if full then send_burst c port m_table else c in
      let table = if full then [] else m_table in
      let frags = frags_of (nic.fragment_packet is_v4 m (max_pkt_burst - length table)) in
      (free_one c' m, table ++ frags)

  -- How a packet is queued, by its length.
  queue_packet : Lcore E → ℕ → Bool → List Mbuf → Mbuf → Lcore E × List Mbuf
  unfolding send_fragment_packet free_one
  queue_packet c port is_v4 m_table m =
      if leb m.pkt_len conf.mtu_size
      then (c, m_table ++ (m ∷ []))
      else if ltb 0 conf.frag_tbl_sz
      then send_fragment_packet c port is_v4 m_table m
      else (free_one c m, m_table)

  -- The burst is sent when it is full.
  flush_full : Lcore E → ℕ → List Mbuf → Lcore E
  unfolding send_burst
  flush_full c port m_table =
      if length m_table == max_pkt_burst
      then (let c' = send_burst c port m_table in record c' { tx_mbufs = set c'.tx_mbufs port [] })
      else record c { tx_mbufs = set c.tx_mbufs port m_table }

  -- `tx_mbufs[port]` is used with no test; without such a port the model frees the packet.
  pub send_single_packet : Lcore E → Mbuf → ℕ → Bool → Lcore E
  unfolding queue_packet flush_full free_one
  send_single_packet c m port is_v4 = elim (get_elem? c.tx_mbufs port) [
    | none ↦ free_one c m
    | some m_table ↦
        let (c', table) = queue_packet c port is_v4 m_table m in flush_full c' port table
  ]

  -- The hop in the SA of a packet that leaves by inline processing: `none` stands for the value
  -- that the caller takes for a miss.
  get_hop_for_offload_pkt : Mbuf → Option ℕ
  get_hop_for_offload_pkt pkt = elim pkt.priv_sa [ none ↦ none | some sa ↦ some sa.portid ]

  pub hop4 : RouteTable → Mbuf → Option ℕ
  unfolding get_hop_for_offload_pkt
  hop4 rt pkt = if pkt.tx_sec_offload then get_hop_for_offload_pkt pkt else rt.rt4 (be32_at pkt 16)

  pub hop6 : RouteTable → Mbuf → Option ℕ
  unfolding get_hop_for_offload_pkt
  hop6 rt pkt =
      if pkt.tx_sec_offload then get_hop_for_offload_pkt pkt else rt.rt6 (λ i. pkt.bytes (24 + i))

  -- A packet with no hop is counted and freed.
  miss : Bool → Lcore E → Lcore E
  miss true c = record c { lpm4_miss = c.lpm4_miss + 1 }
  miss false c = record c { lpm6_miss = c.lpm6_miss + 1 }

  route_one : Bool → Option ℕ → Lcore E → Mbuf → Lcore E
  unfolding miss free_one
  route_one is_v4 none c pkt = free_one (miss is_v4 c) pkt
  route_one is_v4 (some hop) c pkt = send_single_packet c pkt (hop % 256) is_v4

  pub route4_pkts : RouteTable → List Mbuf → Lcore E → Lcore E
  unfolding route_one
  route4_pkts rt [] c = c
  route4_pkts rt (pkt ∷ pkts) c = route4_pkts rt pkts (route_one true (hop4 rt pkt) c pkt)

  pub route6_pkts : RouteTable → List Mbuf → Lcore E → Lcore E
  unfolding route_one
  route6_pkts rt [] c = c
  route6_pkts rt (pkt ∷ pkts) c = route6_pkts rt pkts (route_one false (hop6 rt pkt) c pkt)
