-- ===== src/Poll/Send/Room.antt =====
-- The buffers of the ports never overflow.
use ipsec_secgw_old.Prelude.{
  ℕ, zero, suc, ◌+◌, ◌-◌, ◌≤◌, ◌<◌, ◌≡◌, refl, ap, sym, subst, ◌∙◌, List, [], ◌∷◌, some, Bool,
  arith, length, length-append, length-set, get_elem?, set, leb, ltb, ◌==◌, Bool-cases,
  Option-cases, inl, inr,
}
use ipsec_secgw_old.Packet.{Mbuf, max_pkt_burst}
use ipsec_secgw_old.Poll.Send.{
  Nic, TxConf, Lcore, send_burst, free_one, frags_of, send_fragment_packet, queue_packet,
  flush_full, send_single_packet,
}

-- Every buffer has room for one more packet.
abbrev pub AllShort : List (List Mbuf) → Type 0
AllShort [] = Unit {0}
AllShort (t ∷ ts) = (length t < max_pkt_burst) × AllShort ts

AllShort-get :
    (ts : List (List Mbuf)) (i : ℕ) (t : List Mbuf)
    → AllShort ts
    → get_elem? ts i ≡ some t
    → length t < max_pkt_burst
AllShort-get [] i t h e = absurd (ground arith)
AllShort-get (u ∷ ts) zero t h e = ground (arith, h.0)
AllShort-get (u ∷ ts) (suc i) t h e = AllShort-get ts i t h.1 e

AllShort-set :
    (ts : List (List Mbuf)) (i : ℕ) (t : List Mbuf)
    → AllShort ts
    → length t < max_pkt_burst
    → AllShort (set ts i t)
AllShort-set [] i t h r = tt
AllShort-set (u ∷ ts) zero t h r = (r, h.1)
AllShort-set (u ∷ ts) (suc i) t h r = (h.0, AllShort-set ts i t h.1 r)

module _ {E : Type 0} (nic : Nic E) (conf : TxConf) where
  frags_of-le :
      (is_v4 : Bool) (m : Mbuf) (n : ℕ) → length (frags_of (nic.fragment_packet is_v4 m n)) ≤ n
  unfolding frags_of
  frags_of-le is_v4 m n = elim (Option-cases (nic.fragment_packet is_v4 m n)) [
    | inl e ↦ rw (e, frags_of) (omega arith)
    | inr (fs, e) ↦ rw (e, frags_of) (nic.fragment_le is_v4 m n fs e)
  ]

  -- Queueing a packet fills a buffer at most, and leaves those of the core as they are.
  abbrev Fits : Lcore E → Lcore E × List Mbuf → Type 0
  Fits c r = (r.0.tx_mbufs ≡ c.tx_mbufs) × (length r.1 ≤ max_pkt_burst)

  send_fragment_packet-Fits :
      (c : Lcore E) (port : ℕ) (is_v4 : Bool) (m_table : List Mbuf) (m : Mbuf)
      → length m_table < max_pkt_burst
      → Fits c (send_fragment_packet nic conf c port is_v4 m_table m)
  unfolding send_fragment_packet send_burst free_one
  send_fragment_packet-Fits c port is_v4 m_table m h =
      elim (Bool-cases (leb max_pkt_burst (length m_table + conf.max_frag))) [
        | inl e ↦
            let fs = frags_of (nic.fragment_packet is_v4 m 32) in
            rw (e, send_fragment_packet) (refl, omega (arith, frags_of-le is_v4 m 32))
        | inr e ↦
            let n = max_pkt_burst - length m_table in
            let fs = frags_of (nic.fragment_packet is_v4 m n) in
            rw (e, send_fragment_packet)
              (refl, omega (arith, frags_of-le is_v4 m n, length-append m_table fs))
      ]

  queue_packet-Fits :
      (c : Lcore E) (port : ℕ) (is_v4 : Bool) (m_table : List Mbuf) (m : Mbuf)
      → length m_table < max_pkt_burst
      → Fits c (queue_packet nic conf c port is_v4 m_table m)
  unfolding queue_packet free_one
  queue_packet-Fits c port is_v4 m_table m h = elim (Bool-cases (leb m.pkt_len conf.mtu_size)) [
    | inl e ↦ rw (e, queue_packet) (refl, omega (arith, length-append m_table (m ∷ [])))
    | inr e ↦ elim (Bool-cases (ltb 0 conf.frag_tbl_sz)) [
      | inl f ↦ rw (e, f, queue_packet) (send_fragment_packet-Fits c port is_v4 m_table m h)
      | inr f ↦ rw (e, f, queue_packet) (refl, omega arith)
    ]
  ]

  -- The buffers keep room, and there are as many as before.
  abbrev Keeps : Lcore E → Lcore E → Type 0
  Keeps c c' = AllShort c'.tx_mbufs × (length c'.tx_mbufs ≡ length c.tx_mbufs)

  flush_full-Keeps :
      (c : Lcore E) (port : ℕ) (table : List Mbuf)
      → AllShort c.tx_mbufs
      → length table ≤ max_pkt_burst
      → Keeps c (flush_full nic conf c port table)
  unfolding flush_full send_burst
  flush_full-Keeps c port table h le = elim (Bool-cases (length table == max_pkt_burst)) [
    | inl e ↦
        rw (e, flush_full)
          (AllShort-set c.tx_mbufs port [] h (omega arith), length-set c.tx_mbufs port [])
    | inr e ↦
        rw (e, flush_full)
          (AllShort-set c.tx_mbufs port table h (ground arith), length-set c.tx_mbufs port table)
  ]

  -- Sending a packet keeps room for one more packet in the buffer of every port, with
  -- fragmentation too.
  pub send_single_packet-AllShort :
      (c : Lcore E) (m : Mbuf) (port : ℕ) (is_v4 : Bool)
      → AllShort c.tx_mbufs
      → let c' = send_single_packet nic conf c m port is_v4 in
        AllShort c'.tx_mbufs × (length c'.tx_mbufs ≡ length c.tx_mbufs)
  unfolding send_single_packet free_one
  send_single_packet-AllShort c m port is_v4 h = elim (Option-cases (get_elem? c.tx_mbufs port)) [
    | inl e ↦ rw (e, send_single_packet) (h, refl)
    | inr (t, e) ↦
        let (c', table) = queue_packet nic conf c port is_v4 t m in
        let (same, le) = queue_packet-Fits c port is_v4 t m (AllShort-get c.tx_mbufs port t h e) in
        let (short, len) = flush_full-Keeps c' port table (subst AllShort (sym same) h) le in
        rw (e, send_single_packet) (short, len ∙ ap length same)
  ]
