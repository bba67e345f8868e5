-- ===== src/Packet.antt =====
-- The structures that the components share: struct ipsec_sa and struct sa_ctx of ipsec.h, and what
-- the code reads and writes of struct rte_mbuf, with free_pkts of ipsec-secgw.h.
pub mod Tally
use ipsec_secgw_old.Prelude.{ℕ, ◌+◌, ◌*◌, ◌/◌, ◌%◌, ◌^◌, Bool, Option, List, ◌++◌, length}

-- enum rte_security_session_action_type
pub data Action : Type 0 where
  action_none inline_crypto inline_protocol lookaside_protocol cpu_crypto : Action

-- What a session holds: its type, and the security session or crypto session handle, `none` for
-- NULL.
pub record Session : Type 0 where
  pub action : Action
  pub ses : Option ℕ
  pub ctx : ℕ
  pub need_mdata : Bool  -- ol_flags & RTE_SECURITY_TX_OLOAD_NEED_MDATA

-- `src` and `dst` are the address as one number, of 4 or of 16 octets. `addr` is the address of
-- the structure itself.
pub record Sa : Type 0 where
  pub addr : ℕ
  pub primary : Session
  pub fallback : Session
  pub spi : ℕ
  pub cdev_id_qp : ℕ
  pub fallback_sessions : ℕ
  pub flags : ℕ
  pub src : ℕ
  pub dst : ℕ
  pub portid : ℕ
  pub udp_encap : ℕ
  pub mss : ℕ

-- `sa` is the array `sa[]`, of which the first `nb_sa` entries are in use.
pub record SaCtx : Type 0 where
  pub nb_sa : ℕ
  pub sa : List Sa

-- IP4_TUNNEL, IP6_TUNNEL and TRANSPORT, as bits of `flags`
abbrev pub ip4_tunnel : ℕ
ip4_tunnel = 1

abbrev pub ip6_tunnel : ℕ
ip6_tunnel = 2

abbrev pub transport : ℕ
transport = 4

-- WITHOUT_TRANSPORT_VERSION keeps the three low bits of the flags.
abbrev pub without_transport_version : ℕ → ℕ
without_transport_version flags = flags % 8

-- The TCP segmentation fields of an mbuf, and its RTE_MBUF_F_TX flags for it.
pub record Tso : Type 0 where
  pub tso_segsz : ℕ
  pub outer_l2_len : ℕ
  pub outer_l3_len : ℕ
  pub l4_len : ℕ
  pub tunnel_esp : Bool
  pub outer_ip_cksum : Bool
  pub tcp_seg : Bool
  pub tcp_cksum : Bool
  pub outer_ipv4 : Bool
  pub outer_ipv6 : Bool

-- A packet. `bytes i` is the octet at offset `i` from the data pointer; the tests of
-- `packet_type` and `ol_flags` against DPDK's masks are Booleans. A pointer to an SA is `none` or
-- the SA that it points to.
pub record Mbuf : Type 0 where
  pub id : ℕ
  pub port : ℕ
  pub bytes : ℕ → ℕ
  pub data_len : ℕ
  pub l2_len : ℕ
  pub l3_len : ℕ
  pub ipv4_hdr : Bool  -- RTE_ETH_IS_IPV4_HDR
  pub ipv6_hdr : Bool  -- RTE_ETH_IS_IPV6_HDR
  pub tunnel_esp : Bool  -- (ptype & RTE_PTYPE_TUNNEL_MASK) == RTE_PTYPE_TUNNEL_ESP
  pub l4_udp : Bool  -- (ptype & RTE_PTYPE_L4_MASK) == RTE_PTYPE_L4_UDP
  pub l4_tcp : Bool  -- (ptype & RTE_PTYPE_L4_MASK) == RTE_PTYPE_L4_TCP
  pub rx_sec_offload : Bool  -- RTE_MBUF_F_RX_SEC_OFFLOAD
  pub rx_sec_offload_failed : Bool  -- RTE_MBUF_F_RX_SEC_OFFLOAD_FAILED
  pub tx_sec_offload : Bool  -- RTE_MBUF_F_TX_SEC_OFFLOAD
  pub sec_sa : Option Sa  -- *rte_security_dynfield(m)
  pub priv_sa : Option Sa  -- get_priv(m)->sa
  pub sec_session : Option ℕ  -- the session set by rte_security_set_pkt_metadata
  pub tso : Tso
  pub pkt_len : ℕ
  pub txq : ℕ  -- the queue set by rte_event_eth_tx_adapter_txq_set

-- Two and four octets in network order, as rte_be_to_cpu_16 and rte_be_to_cpu_32 give them.
abbrev pub be16_at : Mbuf → ℕ → ℕ
be16_at m o = m.bytes o * 256 + m.bytes (o + 1)

abbrev pub be32_at : Mbuf → ℕ → ℕ
be32_at m o = be16_at m o * 65536 + be16_at m (o + 2)

abbrev pub ip_version : Mbuf → ℕ → ℕ
ip_version m o = m.bytes o / 16

-- The packets given back to the pool, in order, and the core's count of dropped packets.
pub record Freed : Type 0 where
  pub mbufs : List Mbuf
  pub dropped : ℕ

-- free_pkts frees each packet and adds their number to the statistics.
unfoldable pub free_pkts : List Mbuf → Freed → Freed
free_pkts ms f = record { mbufs = f.mbufs ++ ms; dropped = f.dropped + length ms }

-- rte_pktmbuf_free alone leaves the statistics as they are.
unfoldable pub free_mbufs : List Mbuf → Freed → Freed
free_mbufs ms f = record f { mbufs = f.mbufs ++ ms }

-- Fixed-width unsigned arithmetic.
abbrev pub u8 : ℕ → ℕ
u8 n = n % 256

abbrev pub u16 : ℕ → ℕ
u16 n = n % 65536

abbrev pub u32 : ℕ → ℕ
u32 n = n % 2 ^ 32

abbrev pub max_pkt_burst : ℕ
max_pkt_burst = 32
