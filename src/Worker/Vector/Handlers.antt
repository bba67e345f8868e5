-- ===== src/Worker/Vector/Handlers.antt =====
-- The handlers of inbound and outbound vectors lose no packet.
use ipsec_secgw_old.Prelude.{
  ℕ, ◌+◌, ◌≡◌, ap, List, [], ◌∷◌, Option, none, some, Bool, true, ◌&&◌, count_if, count_if-append,
  arith, Bool-cases, inl, inr,
}
use ipsec_secgw_old.Packet.{Mbuf, Freed, free_pkts}
use ipsec_secgw_old.Worker.Classify.{PktType, plain_ipv4, plain_ipv6, process_ipsec_get_pkt_type}
use ipsec_secgw_old.Worker.Route.{Ports, RouteTable, ipsec_event_pre_forward}
use ipsec_secgw_old.Worker.Policy.{Acl}
use ipsec_secgw_old.Worker.Event.{IpsecCtx}
use ipsec_secgw_old.Worker.Bulk.{check_sp_bulk, check_sp_sa_bulk}
use ipsec_secgw_old.Packet.Tally.{by_id, packets, count_if-packets}
use ipsec_secgw_old.Worker.Bulk.Agree.{check_sp_bulk-conserves, check_sp_sa_bulk-ipsec}
use ipsec_secgw_old.Worker.Vector.{
  EventVector, Traffic, classify_as, classify_pkt, receive, classify_inbound, classify_outbound,
  process_ipsec_ev_inbound_vector, process_ipsec_ev_outbound_vector, DrvModeData, drv_mode_send,
  drv_mode_loop, process_ipsec_ev_drv_mode_outbound_vector,
}
use ipsec_secgw_old.Worker.Vector.Routes.{vec_tally, ipsec_ev_route_pkts-tally}

abbrev traffic_tally : (ℕ → Bool) → Traffic → ℕ
traffic_tally q t =
    count_if (by_id q) (packets t.ip4)
    + count_if (by_id q) (packets t.ip6)
    + count_if (by_id q) t.freed.mbufs

module _ (q : ℕ → Bool) where
  classify_as-tally :
      (c : PktType × Option ℕ) (pkt : Mbuf) (t : Traffic)
      → traffic_tally q (classify_as c pkt t) ≡ traffic_tally q t + count_if (by_id q) (pkt ∷ [])
  unfolding classify_as free_pkts
  classify_as-tally (plain_ipv4, some nlp) pkt t =
      omega (arith, count_if-packets (by_id q) t.ip4 ((pkt, nlp) ∷ []))
  classify_as-tally (plain_ipv6, some nlp) pkt t =
      omega (arith, count_if-packets (by_id q) t.ip6 ((pkt, nlp) ∷ []))
  classify_as-tally _ pkt t = omega (arith, count_if-append (by_id q) t.freed.mbufs (pkt ∷ []))

  receive-tally :
      (pkt : Mbuf) (t : Traffic)
      → traffic_tally q (receive pkt t) ≡ traffic_tally q t + count_if (by_id q) (pkt ∷ [])
  unfolding receive classify_pkt free_pkts
  receive-tally pkt t = elim (Bool-cases (pkt.rx_sec_offload && pkt.rx_sec_offload_failed)) [
    | inl e ↦ rw (e, receive) (omega (arith, count_if-append (by_id q) t.freed.mbufs (pkt ∷ [])))
    | inr e ↦ rw (e, receive) (classify_as-tally (process_ipsec_get_pkt_type pkt) pkt t)
  ]

  classify_inbound-tally :
      (pkts : List Mbuf) (t : Traffic)
      → traffic_tally q (classify_inbound pkts t) ≡ traffic_tally q t + count_if (by_id q) pkts
  unfolding classify_inbound
  classify_inbound-tally [] t = omega arith
  classify_inbound-tally (pkt ∷ pkts) t =
      omega (arith, classify_inbound-tally pkts (receive pkt t), receive-tally pkt t)

  classify_outbound-tally :
      (pkts : List Mbuf) (t : Traffic)
      → traffic_tally q (classify_outbound pkts t) ≡ traffic_tally q t + count_if (by_id q) pkts
  unfolding classify_outbound classify_pkt
  classify_outbound-tally [] t = omega arith
  classify_outbound-tally (pkt ∷ pkts) t =
      let m = record pkt { l2_len = 14 } in
      omega (
        arith,
        classify_outbound-tally pkts (classify_pkt m t),
        classify_as-tally (process_ipsec_get_pkt_type m) m t,
      )

  drv_mode_send-tally :
      (sess : Option ℕ) (pkt : Mbuf) (s : List Mbuf × Freed)
      → let (out, freed) = drv_mode_send sess pkt s in
        count_if (by_id q) out + count_if (by_id q) freed.mbufs
        ≡ count_if (by_id q) s.0 + count_if (by_id q) s.1.mbufs + count_if (by_id q) (pkt ∷ [])
  unfolding drv_mode_send ipsec_event_pre_forward free_pkts
  drv_mode_send-tally none pkt (out, freed) =
      omega (arith, count_if-append (by_id q) freed.mbufs (pkt ∷ []))
  drv_mode_send-tally (some sess) pkt (out, freed) =
      let m = ipsec_event_pre_forward pkt pkt.port in
      let marked = record m { sec_session = some sess; tx_sec_offload = true; l2_len = 14 } in
      omega (arith, count_if-append (by_id q) out (marked ∷ []))

  drv_mode_loop-tally :
      (data_of : ℕ → DrvModeData) (pkts : List Mbuf) (s : List Mbuf × Freed)
      → let (out, freed) = drv_mode_loop data_of pkts s in
        count_if (by_id q) out + count_if (by_id q) freed.mbufs
        ≡ count_if (by_id q) s.0 + count_if (by_id q) s.1.mbufs + count_if (by_id q) pkts
  unfolding drv_mode_loop
  drv_mode_loop-tally data_of [] s = omega arith
  drv_mode_loop-tally data_of (pkt ∷ pkts) s = omega (
    arith,
    drv_mode_loop-tally data_of pkts (drv_mode_send (data_of pkt.port).sess pkt s),
    drv_mode_send-tally (data_of pkt.port).sess pkt s,
  )

  -- The inbound, the outbound and the driver mode handler of a vector account for every packet:
  -- each packet of the vector that they are given is in the vector that they leave, or freed, and
  -- never both.
  pub vector-conserves :
      (ports : Ports) (ctx : IpsecCtx) (rt : RouteTable) (data_of : ℕ → DrvModeData)
      (vec : EventVector) (freed : Freed)
      → (vec_tally q (process_ipsec_ev_inbound_vector ports ctx rt vec freed)
          ≡ vec_tally q (vec, freed))
        × (vec_tally q (process_ipsec_ev_outbound_vector ports ctx rt vec freed)
            ≡ vec_tally q (vec, freed))
        × (vec_tally q (process_ipsec_ev_drv_mode_outbound_vector data_of vec freed)
            ≡ vec_tally q (vec, freed))
  unfolding process_ipsec_ev_inbound_vector process_ipsec_ev_outbound_vector
      process_ipsec_ev_drv_mode_outbound_vector
  vector-conserves ports ctx rt data_of vec freed =
      let empty : Traffic = record { ip4 = []; ip6 = []; freed = freed } in
      let no_esp = λ (sp : Option Acl) (ip : List (Mbuf × ℕ)) (f : Freed).
        ap (λ l. count_if (by_id q) (packets l)) (check_sp_sa_bulk-ipsec sp ctx.sa_ctx ip f) in
      let i = classify_inbound vec.mbufs empty in
      let i4 = check_sp_sa_bulk ctx.sp4_ctx ctx.sa_ctx i.ip4 i.freed in
      let i6 = check_sp_sa_bulk ctx.sp6_ctx ctx.sa_ctx i.ip6 i4.freed in
      let o = classify_outbound vec.mbufs empty in
      let o4 = check_sp_bulk ctx.sp4_ctx o.ip4 [] o.freed in
      let o6 = check_sp_bulk ctx.sp6_ctx o.ip6 o4.ipsec o4.freed in
      (
        omega (
          arith,
          classify_inbound-tally vec.mbufs empty,
          (check_sp_bulk-conserves (by_id q) ctx.sp4_ctx ctx.sa_ctx i.ip4 [] i.freed).1,
          (check_sp_bulk-conserves (by_id q) ctx.sp6_ctx ctx.sa_ctx i.ip6 [] i4.freed).1,
          no_esp ctx.sp4_ctx i.ip4 i.freed,
          no_esp ctx.sp6_ctx i.ip6 i4.freed,
          ipsec_ev_route_pkts-tally q ports rt ctx.sa_ctx i4.ip i6.ip [] vec i6.freed,
        ),
        omega (
          arith,
          classify_outbound-tally vec.mbufs empty,
          (check_sp_bulk-conserves (by_id q) ctx.sp4_ctx ctx.sa_ctx o.ip4 [] o.freed).0,
          (check_sp_bulk-conserves (by_id q) ctx.sp6_ctx ctx.sa_ctx o.ip6 o4.ipsec o4.freed).0,
          ipsec_ev_route_pkts-tally q ports rt ctx.sa_ctx o4.ip o6.ip o6.ipsec vec o6.freed,
        ),
        omega (arith, drv_mode_loop-tally data_of vec.mbufs ([], freed)),
      )
