-- ===== src/Worker/Vector/Routes.antt =====
-- ipsec_ev_route_pkts sends or frees each packet that it is given.
use ipsec_secgw_old.Prelude.{
  ℕ, ◌+◌, ◌≡◌, List, [], ◌∷◌, Bool, true, ◌==◌, leb, get_elem?, count_if, count_if-append, arith,
  Bool-cases, Option-cases, inl, inr,
}
use ipsec_secgw_old.Packet.{Action, inline_protocol, Mbuf, Sa, SaCtx, Freed, free_pkts}
use ipsec_secgw_old.Worker.Route.{
  Ports, RouteTable, route4_pkt, route6_pkt, update_mac_addrs, ipsec_event_pre_forward,
}
use ipsec_secgw_old.Packet.Tally.{by_id, packets}
use ipsec_secgw_old.Worker.Vector.{
  EventVector, ev_vector_attr_update, emit, emit_or_free, route_ip, emit_protected, emit_for,
  route_esp, ipsec_ev_route_pkts,
}

-- Those in a vector or freed.
abbrev pub vec_tally : (ℕ → Bool) → EventVector × Freed → ℕ
vec_tally q s = count_if (by_id q) s.0.mbufs + count_if (by_id q) s.1.mbufs

module _ (q : ℕ → Bool) (ports : Ports) where
  ev_vector_attr_update-mbufs :
      (vec : EventVector) (m : Mbuf) → (ev_vector_attr_update vec m).mbufs ≡ vec.mbufs
  unfolding ev_vector_attr_update
  ev_vector_attr_update-mbufs vec m = ground arith

  emit-tally :
      (pkt : Mbuf) (port_id : ℕ) (vec : EventVector) (freed : Freed)
      → vec_tally q (emit ports pkt port_id vec, freed)
        ≡ vec_tally q (vec, freed) + count_if (by_id q) (pkt ∷ [])
  unfolding emit update_mac_addrs ipsec_event_pre_forward
  emit-tally pkt port_id vec freed =
      let pkt' = ipsec_event_pre_forward (update_mac_addrs ports pkt port_id) port_id in
      rw (ev_vector_attr_update-mbufs vec pkt')
        (omega (arith, count_if-append (by_id q) vec.mbufs (pkt' ∷ [])))

  free-tally :
      (pkt : Mbuf) (vec : EventVector) (freed : Freed)
      → vec_tally q (vec, free_pkts (pkt ∷ []) freed)
        ≡ vec_tally q (vec, freed) + count_if (by_id q) (pkt ∷ [])
  unfolding free_pkts
  free-tally pkt vec freed = omega (arith, count_if-append (by_id q) freed.mbufs (pkt ∷ []))

  emit_or_free-tally :
      (route : Mbuf → ℕ) (pkt : Mbuf) (s : EventVector × Freed)
      → vec_tally q (emit_or_free ports route pkt s) ≡ vec_tally q s + count_if (by_id q) (pkt ∷ [])
  unfolding emit_or_free
  emit_or_free-tally route pkt (vec, freed) = elim (Bool-cases (route pkt == ports.max_ethports)) [
    | inl e ↦ rw e (free-tally pkt vec freed)
    | inr e ↦ rw e (emit-tally pkt (route pkt) vec freed)
  ]

  route_ip-tally :
      (route : Mbuf → ℕ) (pkts : List Mbuf) (s : EventVector × Freed)
      → vec_tally q (route_ip ports route pkts s) ≡ vec_tally q s + count_if (by_id q) pkts
  unfolding route_ip
  route_ip-tally route [] s = omega arith
  route_ip-tally route (pkt ∷ pkts) s = omega (
    arith,
    route_ip-tally route pkts (emit_or_free ports route pkt s),
    emit_or_free-tally route pkt s,
  )

  emit_for-tally :
      (action : Action) (sa : Sa) (pkt : Mbuf) (s : EventVector × Freed)
      → vec_tally q (emit_for action ports sa pkt s) ≡ vec_tally q s + count_if (by_id q) (pkt ∷ [])
  unfolding emit_for
  emit_for-tally inline_protocol sa pkt (vec, freed) =
      emit-tally (record pkt { sec_session = sa.primary.ses; tx_sec_offload = true }) sa.portid vec
        freed
  emit_for-tally _ sa pkt (vec, freed) = free-tally pkt vec freed

  emit_protected-tally :
      (sa_ctx : SaCtx) (pkt : Mbuf) (i : ℕ) (s : EventVector × Freed)
      → vec_tally q (emit_protected ports sa_ctx pkt i s)
        ≡ vec_tally q s + count_if (by_id q) (pkt ∷ [])
  unfolding emit_protected
  emit_protected-tally sa_ctx pkt i (vec, freed) = elim (Bool-cases (leb sa_ctx.nb_sa i)) [
    | inl e ↦ rw e (free-tally pkt vec freed)
    | inr e ↦ elim (Option-cases (get_elem? sa_ctx.sa i)) [
      | inl absent ↦ rw (e, absent, emit_protected) (free-tally pkt vec freed)
      | inr (sa, at_i) ↦
          rw (e, at_i, emit_protected) (emit_for-tally sa.primary.action sa pkt (vec, freed))
    ]
  ]

  route_esp-tally :
      (sa_ctx : SaCtx) (esp : List (Mbuf × ℕ)) (s : EventVector × Freed)
      → vec_tally q (route_esp ports sa_ctx esp s)
        ≡ vec_tally q s + count_if (by_id q) (packets esp)
  unfolding route_esp
  route_esp-tally sa_ctx [] s = omega arith
  route_esp-tally sa_ctx ((pkt, i) ∷ rest) s = omega (
    arith,
    route_esp-tally sa_ctx rest (emit_protected ports sa_ctx pkt i s),
    emit_protected-tally sa_ctx pkt i s,
  )

  -- Each packet given to ipsec_ev_route_pkts is in the vector that it leaves, or freed, and
  -- nothing else is in the vector.
  pub ipsec_ev_route_pkts-tally :
      (rt : RouteTable) (sa_ctx : SaCtx) (ip4 ip6 : List Mbuf) (esp : List (Mbuf × ℕ))
      (vec : EventVector) (freed : Freed)
      → vec_tally q (ipsec_ev_route_pkts ports rt sa_ctx ip4 ip6 esp vec freed)
        ≡ count_if (by_id q) ip4
          + count_if (by_id q) ip6
          + count_if (by_id q) (packets esp)
          + count_if (by_id q) freed.mbufs
  unfolding ipsec_ev_route_pkts
  ipsec_ev_route_pkts-tally rt sa_ctx ip4 ip6 esp vec freed =
      let start : EventVector × Freed = (record vec { mbufs = [] }, freed) in
      let after4 = route_ip ports (λ m. route4_pkt ports m rt) ip4 start in
      let after6 = route_ip ports (λ m. route6_pkt ports m rt) ip6 after4 in
      omega (
        arith,
        route_ip-tally (λ m. route4_pkt ports m rt) ip4 start,
        route_ip-tally (λ m. route6_pkt ports m rt) ip6 after4,
        route_esp-tally sa_ctx esp after6,
      )
