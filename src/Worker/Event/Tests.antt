-- ===== src/Worker/Event/Tests.antt =====
-- Outbound events on concrete packets.
use ipsec_secgw_old.Prelude.{◌≡◌, refl, some, true, ltb, if◌then◌else◌}
use ipsec_secgw_old.Packet.{Mbuf, free_mbufs}
use ipsec_secgw_old.Worker.Classify.{process_ipsec_get_pkt_type}
use ipsec_secgw_old.Worker.Policy.{check_sp}
use ipsec_secgw_old.Worker.Route.{get_route, route4_pkt, update_mac_addrs, ipsec_event_pre_forward}
use ipsec_secgw_old.Worker.Event.{
  pkt_dropped, policy_of, outbound_protect, outbound_route, forward, drop_pkt_and_exit,
  process_ipsec_ev_outbound, process_ipsec_ev_inbound, inbound_admits, inbound_sa_matches,
}
use ipsec_secgw_old.Worker.Event.Outbound.{Sent, outbound-sends}
use ipsec_secgw_old.Tests.Fixtures.{plain4, protect_all, with_policy, ports, routes, nothing_freed}

-- Marked for SA 0, with its session 77, from the addresses and to the number of port 1.
abbrev sent : Mbuf
sent = record (plain4 1) {
  port = 1;
  txq = 0;
  l2_len = 14;
  tx_sec_offload = true;
  sec_session = some 77;
  bytes = λ i. if ltb i 6 then 1 else if ltb i 12 then 2 else (plain4 1).bytes i;
}

outbound-sends_example : Sent ports (with_policy protect_all) routes (plain4 1) sent
unfolding process_ipsec_ev_outbound outbound_route outbound_protect policy_of check_sp forward
    process_ipsec_get_pkt_type get_route route4_pkt update_mac_addrs ipsec_event_pre_forward
outbound-sends_example =
    outbound-sends ports (with_policy protect_all) routes (plain4 1) sent nothing_freed refl

-- The same packet from an unprotected port is dropped: it is not protected.
inbound_unprotected :
    (process_ipsec_ev_inbound ports (with_policy protect_all) routes (plain4 1) nothing_freed).code
    ≡ pkt_dropped
unfolding process_ipsec_ev_inbound inbound_admits inbound_sa_matches policy_of check_sp
    drop_pkt_and_exit process_ipsec_get_pkt_type free_mbufs
inbound_unprotected = refl
