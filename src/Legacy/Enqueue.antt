-- ===== src/Legacy/Enqueue.antt =====
-- ipsec_enqueue loses no packet.
use ipsec_secgw_old.Prelude.{
  ℕ, ◌+◌, ◌≤◌, ◌≡◌, List, [], ◌∷◌, Bool, not, ◌&&◌, ◌==◌, arith, length, get_elem?, count_if,
  count_if-append, Bool-cases, Option-cases, inl, inr,
}
use ipsec_secgw_old.Packet.{
  Action, action_none, inline_crypto, inline_protocol, lookaside_protocol, cpu_crypto, Session, Sa,
  Mbuf, free_pkts,
}
use ipsec_secgw_old.Packet.Tally.{by_id, count_if-one}
use ipsec_secgw_old.CryptoQueue.{Pmd, enqueue_cop}
use ipsec_secgw_old.CryptoQueue.Bulk.{enqueue_cop-conserves}
use ipsec_secgw_old.CryptoQueue.Table.{waiting, AllRoom, AllRoom-get, AllRoom-set, waiting-set}
use ipsec_secgw_old.SaLookup.{ipsec_mask_saptr}
use ipsec_secgw_old.Legacy.{
  Ctx, XformFn, CreateSession, free_one, keep_inline, enqueue_at, ready, after_xform, enqueue_by,
  enqueue_one, ipsec_enqueue, with_sa,
}

-- The packets that the context holds: accepted by the device, waiting, freed, or kept for inline
-- processing.
abbrev pub ctx_held : {D : Type 0} → (ℕ → Bool) → Ctx D → ℕ
ctx_held q c =
    count_if (by_id q) c.w.accepted
    + waiting (by_id q) c.qs.tbl
    + count_if (by_id q) c.w.freed.mbufs
    + count_if (by_id q) c.ol_pkts

module _ {D : Type 0} (pmd : Pmd D) (create_session : CreateSession) (fn : XformFn)
    (q : ℕ → Bool) where
  -- From `c`, a packet was put where the context holds it; at most one more is kept for inline
  -- processing.
  abbrev pub Takes : Ctx D → Mbuf → Ctx D → Type 0
  Takes c m c' =
      AllRoom c'.qs.tbl
      × (length c'.ol_pkts ≤ length c.ol_pkts + 1)
      × (ctx_held q c' ≡ ctx_held q c + count_if (by_id q) (m ∷ []))

  free_one-Takes : (c : Ctx D) (m : Mbuf) → AllRoom c.qs.tbl → Takes c m (free_one c m)
  unfolding free_one free_pkts
  free_one-Takes c m h =
      (h, omega arith, omega (arith, count_if-append (by_id q) c.w.freed.mbufs (m ∷ [])))

  keep_inline-Takes :
      (c : Ctx D) (ips : Session) (m : Mbuf) → AllRoom c.qs.tbl → Takes c m (keep_inline c ips m)
  unfolding keep_inline
  keep_inline-Takes c ips m h = (h, omega arith, omega arith)

  enqueue_at-Takes :
      (c : Ctx D) (i : ℕ) (m : Mbuf)
      → AllRoom c.qs.tbl
      → Takes c m (enqueue_at pmd create_session fn c i m)
  unfolding enqueue_at
  enqueue_at-Takes c i m h = elim (Option-cases (get_elem? c.qs.tbl i)) [
    | inl e ↦ rw (e, enqueue_at) (free_one-Takes c m h)
    | inr (cqp, e) ↦
        let (cqp', w') = enqueue_cop pmd cqp c.w m in
        let (room, kept) =
          enqueue_cop-conserves pmd (by_id q) cqp c.w m (AllRoom-get c.qs.tbl i cqp h e) in
        rw (e, enqueue_at)
          (
            AllRoom-set c.qs.tbl i cqp' h room,
            omega arith,
            omega (arith, kept, waiting-set (by_id q) c.qs.tbl i cqp cqp' e),
          )
  ]

  after_xform-Takes :
      (c : Ctx D) (m : Mbuf) (next : Mbuf → Ctx D)
      → AllRoom c.qs.tbl
      → ((m' : Mbuf) → Takes c m' (next m'))
      → Takes c m (after_xform pmd create_session fn c m next)
  unfolding after_xform
  after_xform-Takes c m next h k = elim (Option-cases (fn.xform m)) [
    | inl e ↦ rw (e, after_xform) (free_one-Takes c m h)
    | inr (m', e) ↦
        let (room, few, kept) = k m' in
        let same = count_if-one q m m' (fn.xform_id m m' e) in
        rw (e, after_xform) (room, few, omega (arith, kept, same))
  ]

  -- Creating a session changes the SAs only.
  ready-Takes :
      (c : Ctx D) (addr : ℕ) (ips : Session) (m : Mbuf) (r : Ctx D)
      → let c' = (ready pmd create_session fn c addr ips).1 in
        (AllRoom c.qs.tbl → AllRoom c'.qs.tbl) × (Takes c' m r → Takes c m r)
  unfolding ready
  ready-Takes c addr ips m r = elim (Option-cases ips.ses) [
    | inl e ↦ rw (e, ready) (λ h. h, λ t. t)
    | inr (h, e) ↦ rw (e, ready) (λ h. h, λ t. t)
  ]

  enqueue_by-Takes :
      (a : Action) (c : Ctx D) (addr : ℕ) (sa : Sa) (m : Mbuf)
      → AllRoom c.qs.tbl
      → Takes c m (enqueue_by pmd create_session fn a c addr sa m)
  unfolding enqueue_by
  enqueue_by-Takes lookaside_protocol c addr sa m h =
      let (ok, c') = ready pmd create_session fn c addr sa.primary in
      let sa' = c'.store addr in
      let m' = with_sa sa' m in
      let back = λ (r : Ctx D). ready-Takes c addr sa.primary m r in
      let h' = (back c).0 h in
      elim (Bool-cases (not ok)) [
        | inl e ↦ rw (e, enqueue_by) ((back (free_one c' m')).1 (free_one-Takes c' m' h'))
        | inr e ↦ elim (Bool-cases (m.tunnel_esp && m.l4_udp && not (sa'.udp_encap == 1))) [
          | inl f ↦ rw (e, f, enqueue_by) ((back (free_one c' m')).1 (free_one-Takes c' m' h'))
          | inr f ↦
              rw (e, f, enqueue_by)
                ((back (enqueue_at pmd create_session fn c' sa'.cdev_id_qp m')).1
                  (enqueue_at-Takes c' sa'.cdev_id_qp m' h'))
        ]
      ]
  enqueue_by-Takes cpu_crypto c addr sa m h = free_one-Takes c m h
  enqueue_by-Takes action_none c addr sa m h =
      let (ok, c') = ready pmd create_session fn c addr sa.primary in
      let sa' = c'.store addr in
      let m' = with_sa sa' m in
      let back = λ (r : Ctx D). ready-Takes c addr sa.primary m r in
      let h' = (back c).0 h in
      let next = enqueue_at pmd create_session fn c' sa'.cdev_id_qp in
      elim (Bool-cases (not ok)) [
        | inl e ↦ rw (e, enqueue_by) ((back (free_one c' m')).1 (free_one-Takes c' m' h'))
        | inr e ↦
            rw (e, enqueue_by)
              ((back (after_xform pmd create_session fn c' m' next)).1
                (after_xform-Takes c' m' next h' (λ n. enqueue_at-Takes c' sa'.cdev_id_qp n h')))
      ]
  enqueue_by-Takes inline_protocol c addr sa m h = keep_inline-Takes c sa.primary m h
  enqueue_by-Takes inline_crypto c addr sa m h =
      after_xform-Takes c m (keep_inline c sa.primary) h (λ m'. keep_inline-Takes c sa.primary m' h)

  enqueue_one-Takes :
      (c : Ctx D) (ptr : ℕ) (m : Mbuf)
      → AllRoom c.qs.tbl
      → Takes c m (enqueue_one pmd create_session fn c ptr m)
  unfolding enqueue_one
  enqueue_one-Takes c ptr m h =
      let addr = ipsec_mask_saptr ptr in
      let sa = c.store addr in
      elim (Bool-cases (ptr == 0)) [
        | inl e ↦ rw (e, enqueue_one) (free_one-Takes c m h)
        | inr e ↦
            rw (e, enqueue_one) (enqueue_by-Takes sa.primary.action c addr sa (with_sa sa m) h)
      ]

  -- With a pointer for each packet and room in every buffer, ipsec_enqueue leaves room in every
  -- buffer, and every packet is then accepted by a device, waiting for one, freed, or kept for
  -- inline processing, exactly once; it keeps at most one more for each packet.
  pub ipsec_enqueue-conserves :
      (c : Ctx D) (pkts : List Mbuf) (sas : List ℕ)
      → length sas ≡ length pkts
      → AllRoom c.qs.tbl
      → let c' = ipsec_enqueue pmd create_session fn c pkts sas in
        AllRoom c'.qs.tbl
        × (length c'.ol_pkts ≤ length c.ol_pkts + length pkts)
        × (ctx_held q c' ≡ ctx_held q c + count_if (by_id q) pkts)
  unfolding ipsec_enqueue
  ipsec_enqueue-conserves c [] [] e h = (h, omega arith, omega arith)
  ipsec_enqueue-conserves c [] (ptr ∷ ptrs) e h = absurd (omega arith)
  ipsec_enqueue-conserves c (m ∷ ms) [] e h = absurd (omega arith)
  ipsec_enqueue-conserves c (m ∷ ms) (ptr ∷ ptrs) e h =
      let (room, few, kept) = enqueue_one-Takes c ptr m h in
      let (room', few', kept') =
        ipsec_enqueue-conserves (enqueue_one pmd create_session fn c ptr m) ms ptrs (omega arith)
          room in
      (room', omega arith, omega arith)
