-- ===== src/Worker/Vector.antt =====
-- Event vectors in ipsec_worker.c: the attributes of a vector, ipsec_ev_route_pkts, classify_pkt,
-- the handlers of inbound, outbound and driver mode vectors, and ipsec_ev_vector_process.
pub mod Routes
pub mod Handlers
use ipsec_secgw_old.Prelude.{
  ℕ, ◌+◌, List, [], ◌∷◌, ◌++◌, Option, none, some, Bool, true, false, ◌==◌, ◌&&◌, not,
  if◌then◌else◌, leb, length, get_elem?,
}
use ipsec_secgw_old.Packet.{Action, inline_protocol, Mbuf, Sa, SaCtx, Freed, free_pkts}
use ipsec_secgw_old.Unprotected.{tests_unprotected}
use ipsec_secgw_old.Worker.Classify.{
  PktType, plain_ipv4, plain_ipv6, process_ipsec_get_pkt_type, ether_hdr_len,
}
use ipsec_secgw_old.Worker.Route.{
  Ports, RouteTable, route4_pkt, route6_pkt, update_mac_addrs, ipsec_event_pre_forward,
}
use ipsec_secgw_old.Worker.Event.{IpsecCtx}
use ipsec_secgw_old.Worker.Bulk.{Split, check_sp_bulk, check_sp_sa_bulk}

-- struct rte_event_vector: `mbufs` are the first `nb_elem` entries of its array.
pub record EventVector : Type 0 where
  pub attr_valid : ℕ
  pub port : ℕ
  pub queue : ℕ
  pub mbufs : List Mbuf

unfoldable pub ev_vector_attr_init : EventVector → EventVector
ev_vector_attr_init vec = record vec { attr_valid = 1; port = 0xFFFF; queue = 0 }

unfoldable pub ev_vector_attr_update : EventVector → Mbuf → EventVector
ev_vector_attr_update vec pkt =
    if vec.port == 0xFFFF
    then record vec { port = pkt.port }
    else if not (vec.attr_valid == 0) && not (vec.port == pkt.port)
    then record vec { attr_valid = 0 }
    else vec

-- update_mac_addrs, ipsec_event_pre_forward, ev_vector_attr_update, vec->mbufs[j++] = pkt
emit : Ports → Mbuf → ℕ → EventVector → EventVector
unfolding update_mac_addrs ipsec_event_pre_forward ev_vector_attr_update
emit ports pkt port_id vec =
    let pkt' = ipsec_event_pre_forward (update_mac_addrs ports pkt port_id) port_id in
    let vec' = ev_vector_attr_update vec pkt' in record vec' { mbufs = vec'.mbufs ++ (pkt' ∷ []) }

-- The loops over the IPv4 and over the IPv6 packets, by the route of each packet.
emit_or_free : Ports → (Mbuf → ℕ) → Mbuf → EventVector × Freed → EventVector × Freed
emit_or_free ports route pkt (vec, freed) =
    if route pkt == ports.max_ethports
    then (vec, free_pkts (pkt ∷ []) freed)
    else (emit ports pkt (route pkt) vec, freed)

route_ip : Ports → (Mbuf → ℕ) → List Mbuf → EventVector × Freed → EventVector × Freed
route_ip ports route [] s = s
route_ip ports route (pkt ∷ pkts) s = route_ip ports route pkts (emit_or_free ports route pkt s)

-- One packet of the loop over the ESP packets, by the action of its SA: only inline protocol
-- processing is allowed.
emit_for : Action → Ports → Sa → Mbuf → EventVector × Freed → EventVector × Freed
emit_for inline_protocol ports sa pkt (vec, freed) =
    let out = record pkt { sec_session = sa.primary.ses; tx_sec_offload = true } in
    (emit ports out sa.portid vec, freed)
emit_for _ ports sa pkt (vec, freed) = (vec, free_pkts (pkt ∷ []) freed)

-- `sa[sa_idx]` is read only below `nb_sa`.
emit_protected : Ports → SaCtx → Mbuf → ℕ → EventVector × Freed → EventVector × Freed
emit_protected ports sa_ctx pkt sa_idx (vec, freed) =
    if leb sa_ctx.nb_sa sa_idx
    then (vec, free_pkts (pkt ∷ []) freed)
    else elim (get_elem? sa_ctx.sa sa_idx) [
      | none ↦ (vec, free_pkts (pkt ∷ []) freed)
      | some sa ↦ emit_for sa.primary.action ports sa pkt (vec, freed)
    ]

route_esp : Ports → SaCtx → List (Mbuf × ℕ) → EventVector × Freed → EventVector × Freed
route_esp ports sa_ctx [] s = s
route_esp ports sa_ctx ((pkt, sa_idx) ∷ rest) s =
    route_esp ports sa_ctx rest (emit_protected ports sa_ctx pkt sa_idx s)

-- `vec.mbufs` is written from its start: the packets of the traffic are held elsewhere by then.
pub ipsec_ev_route_pkts :
    Ports
    → RouteTable
    → SaCtx
    → List Mbuf
    → List Mbuf
    → List (Mbuf × ℕ)
    → EventVector
    → Freed
    → EventVector × Freed
ipsec_ev_route_pkts ports rt sa_ctx ip4 ip6 ipsec vec freed =
    let start : EventVector × Freed = (record vec { mbufs = [] }, freed) in
    let after4 = route_ip ports (λ m. route4_pkt ports m rt) ip4 start in
    let after6 = route_ip ports (λ m. route6_pkt ports m rt) ip6 after4 in
    route_esp ports sa_ctx ipsec after6

-- The plain packets of a vector with the offsets of their next protocol fields.
pub record Traffic : Type 0 where
  pub ip4 : List (Mbuf × ℕ)
  pub ip6 : List (Mbuf × ℕ)
  pub freed : Freed

classify_as : PktType × Option ℕ → Mbuf → Traffic → Traffic
classify_as (plain_ipv4, some nlp) pkt t = record t { ip4 = t.ip4 ++ ((pkt, nlp) ∷ []) }
classify_as (plain_ipv6, some nlp) pkt t = record t { ip6 = t.ip6 ++ ((pkt, nlp) ∷ []) }
classify_as _ pkt t = record t { freed = free_pkts (pkt ∷ []) t.freed }

pub classify_pkt : Mbuf → Traffic → Traffic
classify_pkt pkt t = classify_as (process_ipsec_get_pkt_type pkt) pkt t

-- The loop of the inbound handler: packets whose inline processing failed are freed.
receive : Mbuf → Traffic → Traffic
receive pkt t =
    if pkt.rx_sec_offload && pkt.rx_sec_offload_failed
    then record t { freed = free_pkts (pkt ∷ []) t.freed }
    else classify_pkt pkt t

classify_inbound : List Mbuf → Traffic → Traffic
classify_inbound [] t = t
classify_inbound (pkt ∷ pkts) t = classify_inbound pkts (receive pkt t)

pub process_ipsec_ev_inbound_vector :
    Ports → IpsecCtx → RouteTable → EventVector → Freed → EventVector × Freed
process_ipsec_ev_inbound_vector ports ctx rt vec freed =
    let t = classify_inbound vec.mbufs (record { ip4 = []; ip6 = []; freed = freed }) in
    let s4 = check_sp_sa_bulk ctx.sp4_ctx ctx.sa_ctx t.ip4 t.freed in
    let s6 = check_sp_sa_bulk ctx.sp6_ctx ctx.sa_ctx t.ip6 s4.freed in
    ipsec_ev_route_pkts ports rt ctx.sa_ctx s4.ip s6.ip [] vec s6.freed

-- The loop of the outbound handler. The code sets `l2_len` after the packet was classified, on
-- the same mbuf; nothing between reads it.
classify_outbound : List Mbuf → Traffic → Traffic
classify_outbound [] t = t
classify_outbound (pkt ∷ pkts) t =
    classify_outbound pkts (classify_pkt (record pkt { l2_len = ether_hdr_len }) t)

pub process_ipsec_ev_outbound_vector :
    Ports → IpsecCtx → RouteTable → EventVector → Freed → EventVector × Freed
process_ipsec_ev_outbound_vector ports ctx rt vec freed =
    let t = classify_outbound vec.mbufs (record { ip4 = []; ip6 = []; freed = freed }) in
    let s4 = check_sp_bulk ctx.sp4_ctx t.ip4 [] t.freed in
    let s6 = check_sp_bulk ctx.sp6_ctx t.ip6 s4.ipsec s4.freed in
    ipsec_ev_route_pkts ports rt ctx.sa_ctx s4.ip s6.ip s6.ipsec vec s6.freed

-- struct port_drv_mode_data: the session and its context, if the port has one
pub record DrvModeData : Type 0 where
  pub sess : Option ℕ
  pub ctx : ℕ

-- One packet, by the session of its port.
drv_mode_send : Option ℕ → Mbuf → List Mbuf × Freed → List Mbuf × Freed
drv_mode_send none pkt (out, freed) = (out, free_pkts (pkt ∷ []) freed)
drv_mode_send (some sess) pkt (out, freed) =
    let m = ipsec_event_pre_forward pkt pkt.port in
    let marked = record m {
      sec_session = some sess;
      tx_sec_offload = true;
      l2_len = ether_hdr_len;
    } in
    (out ++ (marked ∷ []), freed)

drv_mode_loop : (ℕ → DrvModeData) → List Mbuf → List Mbuf × Freed → List Mbuf × Freed
drv_mode_loop data_of [] s = s
drv_mode_loop data_of (pkt ∷ pkts) s =
    drv_mode_loop data_of pkts (drv_mode_send (data_of pkt.port).sess pkt s)

pub process_ipsec_ev_drv_mode_outbound_vector :
    (ℕ → DrvModeData) → EventVector → Freed → EventVector × Freed
process_ipsec_ev_drv_mode_outbound_vector data_of vec freed =
    let (out, freed') = drv_mode_loop data_of vec.mbufs ([], freed) in
    (record vec { mbufs = out }, freed')

-- The vector is passed to the Tx adapter, or goes back to its pool.
pub data Passed : Type 0 where
  enqueued : EventVector → Passed
  put_back : Passed

pass_on : EventVector → Passed
pass_on vec = if length vec.mbufs == 0 then put_back else enqueued vec

-- `mask` is unprotected_port_mask, and `port` the port of the first packet of the vector.
pub ipsec_ev_vector_process :
    Ports → ℕ → IpsecCtx → IpsecCtx → RouteTable → ℕ → EventVector → Freed → Passed × Freed
ipsec_ev_vector_process ports mask inbound outbound rt port vec freed =
    let init = ev_vector_attr_init vec in
    let (vec', freed') =
      if tests_unprotected mask port
      then process_ipsec_ev_inbound_vector ports inbound rt init freed
      else process_ipsec_ev_outbound_vector ports outbound rt init freed in
    (pass_on vec', freed')

pub ipsec_ev_vector_drv_mode_process :
    ℕ → (ℕ → DrvModeData) → ℕ → EventVector → Freed → Passed × Freed
ipsec_ev_vector_drv_mode_process mask data_of port vec freed =
    let (vec', freed') =
      if tests_unprotected mask port
      then (vec, freed)
      else process_ipsec_ev_drv_mode_outbound_vector data_of vec freed in
    (pass_on vec', freed')
