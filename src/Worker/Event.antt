-- ===== src/Worker/Event.antt =====
-- process_ipsec_ev_inbound and process_ipsec_ev_outbound of ipsec_worker.c, for one event. A jump
-- to `drop_pkt_and_exit` is `none` in the helpers.
pub mod Policies
pub mod Inbound
pub mod Outbound
mod Tests
use ipsec_secgw_old.Prelude.{
  ℕ, Bool, true, false, ◌&&◌, List, [], ◌∷◌, Option, none, some, get_elem?, leb, ◌==◌,
  if◌then◌else◌,
}
use ipsec_secgw_old.Packet.{Action, inline_protocol, Mbuf, Sa, SaCtx, Freed, free_mbufs}
use ipsec_secgw_old.Worker.Classify.{
  PktType, plain_ipv4, plain_ipv6, process_ipsec_get_pkt_type, ether_hdr_len,
}
use ipsec_secgw_old.Worker.Policy.{Acl, check_sp, bypass}
use ipsec_secgw_old.Worker.Route.{
  Ports, RouteTable, get_route, update_mac_addrs, ipsec_event_pre_forward,
}

-- The parts of struct ipsec_ctx that an event uses.
pub record IpsecCtx : Type 0 where
  pub sp4_ctx : Option Acl
  pub sp6_ctx : Option Acl
  pub sa_ctx : SaCtx

pub data Code : Type 0 where
  pkt_dropped pkt_forwarded : Code

-- The result, `ev->mbuf` after the call (`none` for NULL), and the packets freed.
pub record Outcome : Type 0 where
  pub code : Code
  pub mbuf : Option Mbuf
  pub freed : Freed

-- rte_pktmbuf_free(pkt), ev->mbuf = NULL
drop_pkt_and_exit : Mbuf → Freed → Outcome
unfolding free_mbufs
drop_pkt_and_exit pkt freed = record {
  code = pkt_dropped;
  mbuf = none;
  freed = free_mbufs (pkt ∷ []) freed;
}

-- update_mac_addrs and ipsec_event_pre_forward
forward : Ports → Mbuf → ℕ → Freed → Outcome
unfolding update_mac_addrs ipsec_event_pre_forward
forward ports pkt port_id freed = record {
  code = pkt_forwarded;
  mbuf = some (ipsec_event_pre_forward (update_mac_addrs ports pkt port_id) port_id);
  freed = freed;
}

-- The policy for a packet type: only plain packets have one.
unfoldable pub policy_of : IpsecCtx → Mbuf → PktType × Option ℕ → Option ℕ
unfolding check_sp
policy_of ctx pkt (plain_ipv4, some nlp) = check_sp ctx.sp4_ctx pkt nlp
policy_of ctx pkt (plain_ipv6, some nlp) = check_sp ctx.sp6_ctx pkt nlp
policy_of ctx pkt _ = none

-- The checks of an inbound packet that has the policy `sa_idx`, and the SA `sa` by which it was
-- processed (`none` for NULL). `sa[sa_idx]` is read only below `nb_sa`.
unfoldable pub inbound_sa_matches : SaCtx → Option Sa → ℕ → Bool
inbound_sa_matches sa_ctx none sa_idx = false
inbound_sa_matches sa_ctx (some sa) sa_idx =
    if leb sa_ctx.nb_sa sa_idx
    then false
    else elim (get_elem? sa_ctx.sa sa_idx) [ none ↦ false | some rule ↦ sa.spi == rule.spi ]

unfoldable pub inbound_admits : IpsecCtx → Mbuf → Bool
inbound_admits ctx pkt =
    if pkt.rx_sec_offload && pkt.rx_sec_offload_failed
    then false
    else elim (policy_of ctx pkt (process_ipsec_get_pkt_type pkt)) [
      | none ↦ false
      | some sa_idx ↦
          if sa_idx == bypass
          then true
          else inbound_sa_matches ctx.sa_ctx (if pkt.rx_sec_offload then pkt.sec_sa else none)
              sa_idx
    ]

pub process_ipsec_ev_inbound : Ports → IpsecCtx → RouteTable → Mbuf → Freed → Outcome
process_ipsec_ev_inbound ports ctx rt pkt freed =
    let port_id = get_route ports pkt rt (process_ipsec_get_pkt_type pkt).0 in
    if inbound_admits ctx pkt
    then if port_id == ports.max_ethports
      then drop_pkt_and_exit pkt freed
      else forward ports pkt port_id freed
    else drop_pkt_and_exit pkt freed

-- What an outbound packet that is admitted is sent with: the packet, and the port.
outbound_protect : SaCtx → Mbuf → ℕ → Option (Mbuf × ℕ)
outbound_protect sa_ctx pkt sa_idx =
    if leb sa_ctx.nb_sa sa_idx then none else elim (get_elem? sa_ctx.sa sa_idx) [
      | none ↦ none
      | some sa ↦ elim sa.primary.action [
        | inline_protocol ↦
            some (record pkt { sec_session = sa.primary.ses; tx_sec_offload = true }, sa.portid)
        | _ ↦ none
      ]
    ]

outbound_route : Ports → IpsecCtx → RouteTable → Mbuf → Option (Mbuf × ℕ)
outbound_route ports ctx rt pkt = elim (policy_of ctx pkt (process_ipsec_get_pkt_type pkt)) [
  | none ↦ none
  | some sa_idx ↦
      let port_id = get_route ports pkt rt (process_ipsec_get_pkt_type pkt).0 in
      if sa_idx == bypass
      then if port_id == ports.max_ethports then none else some (pkt, port_id)
      else outbound_protect ctx.sa_ctx pkt sa_idx
]

pub process_ipsec_ev_outbound : Ports → IpsecCtx → RouteTable → Mbuf → Freed → Outcome
process_ipsec_ev_outbound ports ctx rt pkt freed = elim (outbound_route ports ctx rt pkt) [
  | none ↦ drop_pkt_and_exit pkt freed
  | some (out, port_id) ↦ forward ports (record out { l2_len = ether_hdr_len }) port_id freed
]
