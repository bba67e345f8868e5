-- ===== src/Poll/Send/Conserve.antt =====
-- Routing loses no packet, where packets are not fragmented.
use ipsec_secgw_old.Prelude.{
  ℕ, zero, suc, ◌+◌, ◌%◌, ◌≡◌, refl, ap, ◌∙◌, List, [], ◌∷◌, Option, none, some, Bool, true, false,
  arith, map, length, take, drop, get_elem?, set, leb, ltb, ◌==◌, count_if, count_if-append,
  count_if-take-drop, Bool-cases, Option-cases, inl, inr,
}
use ipsec_secgw_old.Packet.{Mbuf, free_pkts, max_pkt_burst}
use ipsec_secgw_old.Packet.Tally.{by_id, count_if-by_id-map}
use ipsec_secgw_old.Worker.Route.{RouteTable}
use ipsec_secgw_old.Poll.Send.{
  Nic, TxConf, Lcore, prepare_tx_pkt, send_burst, free_one, queue_packet, flush_full,
  send_single_packet, hop4, hop6, miss, route_one, route4_pkts, route6_pkts,
}
use ipsec_secgw_old.Poll.Send.Room.{AllShort, send_single_packet-AllShort}

-- The packets that wait for the ports.
abbrev pub queued : (Mbuf → Bool) → List (List Mbuf) → ℕ
queued p [] = 0
queued p (t ∷ ts) = count_if p t + queued p ts

queued-set :
    (p : Mbuf → Bool) (ts : List (List Mbuf)) (i : ℕ) (old t : List Mbuf)
    → get_elem? ts i ≡ some old
    → queued p (set ts i t) + count_if p old ≡ queued p ts + count_if p t
queued-set p [] i old t e = absurd (ground arith)
queued-set p (u ∷ ts) zero old t e = ground arith
queued-set p (u ∷ ts) (suc i) old t e = omega (arith, queued-set p ts i old t e)

-- The packets of a core: sent, waiting for a port, or freed.
abbrev pub lcore_held : {E : Type 0} → (ℕ → Bool) → Lcore E → ℕ
lcore_held q c =
    count_if (by_id q) c.sent + queued (by_id q) c.tx_mbufs + count_if (by_id q) c.freed.mbufs

-- The lookups that missed.
abbrev pub misses : {E : Type 0} → Lcore E → ℕ
misses c = c.lpm4_miss + c.lpm6_miss

-- The packets that have no hop.
abbrev pub unrouted : (Mbuf → Option ℕ) → List Mbuf → ℕ
unrouted hop [] = 0
unrouted hop (m ∷ ms) = elim (hop m) [ none ↦ 1 | some h ↦ 0 ] + unrouted hop ms

module _ {E : Type 0} (nic : Nic E) (conf : TxConf) (q : ℕ → Bool)
    (no_frag : conf.frag_tbl_sz ≡ 0) where
  send_burst-held :
      (c : Lcore E) (port : ℕ) (table : List Mbuf)
      → let c' = send_burst nic conf c port table in
        (c'.tx_mbufs ≡ c.tx_mbufs)
        × (misses c' ≡ misses c)
        × (count_if (by_id q) c'.sent + count_if (by_id q) c'.freed.mbufs
            ≡ count_if (by_id q) c.sent
              + count_if (by_id q) c.freed.mbufs
              + count_if (by_id q) table)
  unfolding send_burst free_pkts prepare_tx_pkt
  send_burst-held c port table =
      let ready = map (prepare_tx_pkt conf port) table in
      let n = (nic.tx_burst c.nic port ready).0 in
      (
        refl,
        refl,
        omega (
          arith,
          count_if-append (by_id q) c.sent (take n ready),
          count_if-append (by_id q) c.freed.mbufs (drop n ready),
          count_if-take-drop (by_id q) n ready,
          count_if-by_id-map q (prepare_tx_pkt conf port) table (λ m. refl),
        ),
      )

  -- The packet is queued behind those of the table, or freed.
  queue_packet-held :
      (c : Lcore E) (port : ℕ) (is_v4 : Bool) (table : List Mbuf) (m : Mbuf)
      → let (c', table') = queue_packet nic conf c port is_v4 table m in
        (c'.tx_mbufs ≡ c.tx_mbufs)
        × (misses c' ≡ misses c)
        × (lcore_held q c' + count_if (by_id q) table'
            ≡ lcore_held q c + count_if (by_id q) table + count_if (by_id q) (m ∷ []))
  unfolding queue_packet free_one free_pkts
  queue_packet-held c port is_v4 table m = elim (Bool-cases (leb m.pkt_len conf.mtu_size)) [
    | inl e ↦
        rw (e, queue_packet) (refl, refl, omega (arith, count_if-append (by_id q) table (m ∷ [])))
    | inr e ↦
        let none_left : ltb 0 conf.frag_tbl_sz ≡ false = ground (arith, no_frag) in
        rw (e, none_left, queue_packet)
          (refl, refl, omega (arith, count_if-append (by_id q) c.freed.mbufs (m ∷ [])))
  ]

  flush_full-held :
      (c : Lcore E) (port : ℕ) (old table : List Mbuf)
      → get_elem? c.tx_mbufs port ≡ some old
      → let c' = flush_full nic conf c port table in
        (misses c' ≡ misses c)
        × (lcore_held q c' + count_if (by_id q) old ≡ lcore_held q c + count_if (by_id q) table)
  unfolding flush_full
  flush_full-held c port old table e = elim (Bool-cases (length table == max_pkt_burst)) [
    | inl f ↦
        let (same, miss, kept) = send_burst-held c port table in
        rw (f, flush_full)
          (
            miss,
            omega (
              arith,
              kept,
              queued-set (by_id q) c.tx_mbufs port old [] e,
              ap (λ ts. queued (by_id q) (set ts port [])) same,
            ),
          )
    | inr f ↦
        rw (f, flush_full) (refl, omega (arith, queued-set (by_id q) c.tx_mbufs port old table e))
  ]

  send_single_packet-held :
      (c : Lcore E) (m : Mbuf) (port : ℕ) (is_v4 : Bool)
      → let c' = send_single_packet nic conf c m port is_v4 in
        (misses c' ≡ misses c) × (lcore_held q c' ≡ lcore_held q c + count_if (by_id q) (m ∷ []))
  unfolding send_single_packet free_one free_pkts
  send_single_packet-held c m port is_v4 = elim (Option-cases (get_elem? c.tx_mbufs port)) [
    | inl e ↦
        rw (e, send_single_packet)
          (refl, omega (arith, count_if-append (by_id q) c.freed.mbufs (m ∷ [])))
    | inr (t, e) ↦
        let (c', table) = queue_packet nic conf c port is_v4 t m in
        let (same, missed, kept) = queue_packet-held c port is_v4 t m in
        let (missed', kept') =
          flush_full-held c' port t table (ap (λ ts. get_elem? ts port) same ∙ e) in
        rw (e, send_single_packet) (missed' ∙ missed, omega (arith, kept, kept'))
  ]

  -- One packet, by its hop.
  route_one-held :
      (is_v4 : Bool) (hop : Option ℕ) (c : Lcore E) (m : Mbuf)
      → AllShort c.tx_mbufs
      → let c' = route_one nic conf is_v4 hop c m in
        AllShort c'.tx_mbufs
        × (misses c' ≡ misses c + elim hop [ none ↦ 1 | some h ↦ 0 ])
        × (lcore_held q c' ≡ lcore_held q c + count_if (by_id q) (m ∷ []))
  unfolding route_one miss free_one free_pkts
  route_one-held true none c m h =
      (h, omega arith, omega (arith, count_if-append (by_id q) c.freed.mbufs (m ∷ [])))
  route_one-held false none c m h =
      (h, omega arith, omega (arith, count_if-append (by_id q) c.freed.mbufs (m ∷ [])))
  route_one-held is_v4 (some hop) c m h =
      let (missed, kept) = send_single_packet-held c m (hop % 256) is_v4 in
      (
        (send_single_packet-AllShort nic conf c m (hop % 256) is_v4 h).0,
        omega (arith, missed),
        kept,
      )

  -- What routing the packets `ms` by `hop` comes to.
  abbrev pub Routed : (Mbuf → Option ℕ) → List Mbuf → Lcore E → Lcore E → Type 0
  Routed hop ms c c' =
      AllShort c'.tx_mbufs
      × (misses c' ≡ misses c + unrouted hop ms)
      × (lcore_held q c' ≡ lcore_held q c + count_if (by_id q) ms)

  route4_pkts-Routed :
      (rt : RouteTable) (ms : List Mbuf) (c : Lcore E)
      → AllShort c.tx_mbufs
      → Routed (hop4 nic conf rt) ms c (route4_pkts nic conf rt ms c)
  unfolding route4_pkts
  route4_pkts-Routed rt [] c h = (h, omega arith, omega arith)
  route4_pkts-Routed rt (m ∷ ms) c h =
      let hop = hop4 nic conf rt m in
      let (short, missed, kept) = route_one-held true hop c m h in
      let (short', missed', kept') =
        route4_pkts-Routed rt ms (route_one nic conf true hop c m) short in
      (short', omega (arith, missed, missed'), omega (arith, kept, kept'))

  route6_pkts-Routed :
      (rt : RouteTable) (ms : List Mbuf) (c : Lcore E)
      → AllShort c.tx_mbufs
      → Routed (hop6 nic conf rt) ms c (route6_pkts nic conf rt ms c)
  unfolding route6_pkts
  route6_pkts-Routed rt [] c h = (h, omega arith, omega arith)
  route6_pkts-Routed rt (m ∷ ms) c h =
      let hop = hop6 nic conf rt m in
      let (short, missed, kept) = route_one-held false hop c m h in
      let (short', missed', kept') =
        route6_pkts-Routed rt ms (route_one nic conf false hop c m) short in
      (short', omega (arith, missed, missed'), omega (arith, kept, kept'))

  -- Where packets are not fragmented and every buffer has room, route4_pkts and route6_pkts leave
  -- room in every buffer, count one miss for each packet that has no hop, and every packet is then
  -- sent, waiting for a port, or freed, exactly once, whatever the devices take.
  pub route_pkts-conserves :
      (rt : RouteTable) (ms : List Mbuf) (c : Lcore E)
      → AllShort c.tx_mbufs
      → Routed (hop4 nic conf rt) ms c (route4_pkts nic conf rt ms c)
        × Routed (hop6 nic conf rt) ms c (route6_pkts nic conf rt ms c)
  route_pkts-conserves rt ms c h = (route4_pkts-Routed rt ms c h, route6_pkts-Routed rt ms c h)
