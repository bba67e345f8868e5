-- ===== src/Tests/Fixtures.antt =====
-- The packets, SAs, tables and device that the tests use.
use ipsec_secgw_old.Prelude.{
  ℕ, ◌+◌, min, [], ◌∷◌, none, some, true, false, ◌==◌, if◌then◌else◌, length, arith,
}
use ipsec_secgw_old.Packet.{
  action_none, inline_protocol, Session, Sa, SaCtx, Tso, Mbuf, Freed, transport,
}
use ipsec_secgw_old.CryptoQueue.{Pmd, Cqp, World}
use ipsec_secgw_old.Worker.Policy.{Acl, bypass}
use ipsec_secgw_old.Worker.Route.{Ports, RouteTable}
use ipsec_secgw_old.Worker.Event.{IpsecCtx}
use ipsec_secgw_old.Sad.{IpsecSad, IpsecSadCache, SadLookup}

abbrev pub inline_session : Session
inline_session = record { action = inline_protocol; ses = some 77; ctx = 1; need_mdata = true }

abbrev pub no_session : Session
no_session = record { action = action_none; ses = none; ctx = 0; need_mdata = false }

-- An inline protocol SA in transport mode with SPI 5, on port 1.
abbrev pub sa5 : Sa
sa5 = record {
  addr = 1000;
  primary = inline_session;
  fallback = no_session;
  spi = 5;
  cdev_id_qp = 0;
  fallback_sessions = 0;
  flags = transport;
  src = 0;
  dst = 0;
  portid = 1;
  udp_encap = 0;
  mss = 0;
}

abbrev pub sa_table : SaCtx
sa_table = record { nb_sa = 1; sa = sa5 ∷ [] }

abbrev pub no_tso : Tso
no_tso = record {
  tso_segsz = 0;
  outer_l2_len = 0;
  outer_l3_len = 0;
  l4_len = 0;
  tunnel_esp = false;
  outer_ip_cksum = false;
  tcp_seg = false;
  tcp_cksum = false;
  outer_ipv4 = false;
  outer_ipv6 = false;
}

-- A plain IPv4 packet at address `id`, of zero octets but for the two that are given.
abbrev pub plain4 : ℕ → Mbuf
plain4 id = record {
  id = id;
  port = 0;
  bytes = λ i. if i == 30 then 10 else if i == 23 then 5 else 0;
  data_len = 60;
  l2_len = 0;
  l3_len = 20;
  ipv4_hdr = true;
  ipv6_hdr = false;
  tunnel_esp = false;
  l4_udp = false;
  l4_tcp = false;
  rx_sec_offload = false;
  rx_sec_offload_failed = false;
  tx_sec_offload = false;
  sec_sa = none;
  priv_sa = none;
  sec_session = none;
  tso = no_tso;
  pkt_len = 60;
  txq = 3;
}

-- One that was processed inline by the SA with SPI 5.
abbrev pub decrypted4 : ℕ → Mbuf
decrypted4 id = record (plain4 id) { rx_sec_offload = true; sec_sa = some sa5 }

abbrev pub esp_in_udp : ℕ → Mbuf
esp_in_udp id = record (plain4 id) { tunnel_esp = true; l4_udp = true }

-- Rules that protect everything by SA 0, and rules that bypass everything.
abbrev pub protect_all : Acl
protect_all = λ m nlp. 1

abbrev pub bypass_all : Acl
bypass_all = λ m nlp. bypass

abbrev pub with_policy : Acl → IpsecCtx
with_policy acl = record { sp4_ctx = some acl; sp6_ctx = none; sa_ctx = sa_table }

abbrev pub ports : Ports
ports = record { max_ethports = 32; ethaddr_tbl = λ p. record { src = λ i. 2; dst = λ i. p } }

abbrev pub routes : RouteTable
routes = record { rt4 = λ ip. some 3; rt6 = λ ip. none }

abbrev pub nothing_freed : Freed
nothing_freed = record { mbufs = []; dropped = 0 }

-- A device that takes two ops of each burst, and returns none.
abbrev pub two_at_a_time : Pmd ℕ
two_at_a_time = record {
  enqueue = λ d id qp ops. (min 2 (length ops), d + 1);
  enqueue_le = λ d id qp ops. omega arith;
  dequeue = λ d id qp num. ([], d);
  dequeue_le = λ d id qp num. omega arith;
}

abbrev pub idle_queue : Cqp
idle_queue = record { id = 0; qp = 0; in_flight = 0; buf = [] }

abbrev pub fresh_device : World ℕ
fresh_device = record { dev = 0; accepted = []; freed = nothing_freed }

-- A database that has the SA for SPI 5 only.
abbrev pub only_sa5 : SadLookup
only_sa5 = λ k. if k.spi == 5 then some sa5 else none

abbrev pub sad5 : IpsecSad
sad5 = record { sad_v4 = only_sa5; sad_v6 = λ k. none }

abbrev pub empty_cache : IpsecSadCache
empty_cache = record { v4 = none ∷ none ∷ []; v6 = none ∷ none ∷ []; mask = 1 }
