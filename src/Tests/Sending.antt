-- ===== src/Tests/Sending.antt =====
-- Routing and sending in the poll mode.
use ipsec_secgw_old.Prelude.{ℕ, ◌+◌, refl, List, [], ◌∷◌, none, Bool, true, ◌==◌, arith}
use ipsec_secgw_old.Packet.{Mbuf}
use ipsec_secgw_old.Poll.Send.{Nic, TxConf, Lcore, hop4, hop6, route4_pkts, route6_pkts}
use ipsec_secgw_old.Poll.Send.Room.{AllShort}
use ipsec_secgw_old.Poll.Send.Conserve.{Routed, route_pkts-conserves}
use ipsec_secgw_old.Tests.Fixtures.{plain4, routes, nothing_freed}

-- A device that takes one packet of each burst, and no fragmentation.
abbrev one_each : Nic ℕ
one_each = record {
  tx_burst = λ e port ms. (1, e + 1);
  fragment_packet = λ is_v4 m n. none;
  fragment_le = λ is_v4 m n fs h. absurd (ground arith);
}

abbrev conf : TxConf
conf = record {
  ethaddr_tbl = λ p. record { src = λ i. 2; dst = λ i. p };
  ip_cksum_offload = true;
  ipv4_cksum = λ bytes. (0, 0);
  mtu_size = 1500;
  frag_tbl_sz = 0;
  max_frag = 8;
}

abbrev core : Lcore ℕ
core = record {
  nic = 0;
  tx_mbufs = [] ∷ [] ∷ [] ∷ [] ∷ [];
  sent = [];
  freed = nothing_freed;
  lpm4_miss = 0;
  lpm6_miss = 0;
}

core-AllShort : AllShort core.tx_mbufs
core-AllShort = (omega arith, (omega arith, (omega arith, (omega arith, tt))))

abbrev is_first : ℕ → Bool
is_first i = i == 1

abbrev burst : List Mbuf
burst = plain4 1 ∷ plain4 2 ∷ []

route_pkts-conserves_example :
    Routed one_each conf is_first refl
      (hop4 one_each conf routes)
      burst
      core
      (route4_pkts one_each conf routes burst core)
    × Routed one_each conf is_first refl
        (hop6 one_each conf routes)
        burst
        core
        (route6_pkts one_each conf routes burst core)
route_pkts-conserves_example =
    route_pkts-conserves one_each conf is_first refl routes burst core core-AllShort
