-- ===== src/Legacy/Inline.antt =====
-- ipsec_inbound and ipsec_outbound hand back what they keep for inline processing.
use ipsec_secgw_old.Prelude.{
  ℕ, ◌+◌, ◌≤◌, ◌≡◌, refl, ap, sym, subst, ◌∙◌, List, [], ◌∷◌, ◌++◌, Bool, false, arith, length,
  length-append, leb, count_if, count_if-append, Option-cases, inl, inr,
}
use ipsec_secgw_old.Packet.{SaCtx, Mbuf, Freed, free_pkts}
use ipsec_secgw_old.Packet.Tally.{by_id, count_if-one}
use ipsec_secgw_old.CryptoQueue.{Pmd}
use ipsec_secgw_old.CryptoQueue.Table.{AllRoom}
use ipsec_secgw_old.Sad.{IpsecSad, IpsecSadCache}
use ipsec_secgw_old.SaLookup.{inbound_sa_lookup, outbound_sa_lookup}
use ipsec_secgw_old.SaLookup.Pointers.{length-inbound_sa_lookup, length-outbound_sa_lookup}
use ipsec_secgw_old.Legacy.{
  Ctx, XformFn, CreateSession, inline_loop, ipsec_inline_dequeue, ipsec_enqueue, ipsec_outbound,
  ipsec_inbound,
}
use ipsec_secgw_old.Legacy.Enqueue.{ctx_held, ipsec_enqueue-conserves}

module _ (fn : XformFn) (q : ℕ → Bool) where
  -- What the loop has finished, what is left, and what was freed.
  inline_loop-keeps :
      (max_pkts : ℕ) (ol pkts : List Mbuf) (freed : Freed)
      → length pkts + length ol ≤ max_pkts
      → let (pkts', ol', freed') = inline_loop fn max_pkts ol pkts freed in
        (ol' ≡ [])
        × (length pkts' ≤ max_pkts)
        × (count_if (by_id q) pkts' + count_if (by_id q) freed'.mbufs
            ≡ count_if (by_id q) pkts + count_if (by_id q) ol + count_if (by_id q) freed.mbufs)
  unfolding inline_loop free_pkts
  inline_loop-keeps max_pkts [] pkts freed h = (refl, omega arith, omega arith)
  inline_loop-keeps max_pkts (m ∷ ol) pkts freed h =
      let full : leb max_pkts (length pkts) ≡ false = ground arith in
      elim (Option-cases (fn.xform m)) [
        | inl e ↦
            let (none_left, few, kept) =
              inline_loop-keeps max_pkts ol pkts (free_pkts (m ∷ []) freed) (omega arith) in
            rw (full, e, inline_loop)
              (none_left, few, omega (arith, kept, count_if-append (by_id q) freed.mbufs (m ∷ [])))
        | inr (m', e) ↦
            let (none_left, few, kept) =
              inline_loop-keeps max_pkts ol (pkts ++ (m' ∷ [])) freed
                (omega (arith, length-append pkts (m' ∷ []))) in
            let same = count_if-one q m m' (fn.xform_id m m' e) in
            rw (full, e, inline_loop)
              (none_left, few, omega (arith, kept, same, count_if-append (by_id q) pkts (m' ∷ [])))
      ]

  pub ipsec_inline_dequeue-drains :
      {D : Type 0} (c : Ctx D) (max_pkts : ℕ)
      → length c.ol_pkts ≤ max_pkts
      → let (pkts, c') = ipsec_inline_dequeue fn c max_pkts in
        (c'.ol_pkts ≡ [])
        × (c'.qs ≡ c.qs)
        × (length pkts ≤ max_pkts)
        × (ctx_held q c' + count_if (by_id q) pkts ≡ ctx_held q c)
  unfolding ipsec_inline_dequeue
  ipsec_inline_dequeue-drains c max_pkts h =
      let (drained, few, kept) = inline_loop-keeps max_pkts c.ol_pkts [] c.w.freed (omega arith) in
      (drained, refl, few, omega (arith, kept, ap (count_if (by_id q)) drained))

module _ {D : Type 0} (pmd : Pmd D) (create_session : CreateSession) (fn post : XformFn)
    (q : ℕ → Bool) where
  enqueue_dequeue :
      (c : Ctx D) (pkts : List Mbuf) (sas : List ℕ) (len : ℕ)
      → c.ol_pkts ≡ []
      → length sas ≡ length pkts
      → AllRoom c.qs.tbl
      → length pkts ≤ len
      → let c₁ = ipsec_enqueue pmd create_session fn c pkts sas in
        let (out, c') = ipsec_inline_dequeue post c₁ len in
        (length c₁.ol_pkts ≤ length pkts)
        × (c'.ol_pkts ≡ [])
        × AllRoom c'.qs.tbl
        × (length out ≤ len)
        × (ctx_held q c' + count_if (by_id q) out ≡ ctx_held q c + count_if (by_id q) pkts)
  enqueue_dequeue c pkts sas len e n h le =
      let (room, few, kept) = ipsec_enqueue-conserves pmd create_session fn q c pkts sas n h in
      let none_before = ap length e in
      let c₁ = ipsec_enqueue pmd create_session fn c pkts sas in
      let (drained, same, few', kept') =
        ipsec_inline_dequeue-drains post q c₁ len (omega (arith, few, none_before)) in
      (
        omega (arith, few, none_before),
        drained,
        subst (λ qs. AllRoom qs.tbl) (sym same) room,
        few',
        omega (arith, kept, kept'),
      )

  -- With no packet kept from before, an index for each packet, room in every buffer and room for
  -- the packets that come back, ipsec_outbound never keeps more packets than it is given, keeps
  -- none when it ends, and every packet is then accepted by a device, waiting for one, freed, or
  -- handed back, exactly once.
  pub ipsec_outbound-conserves :
      (sa_ctx : SaCtx) (c : Ctx D) (pkts : List Mbuf) (sa_idx : List ℕ) (len : ℕ)
      → c.ol_pkts ≡ []
      → length sa_idx ≡ length pkts
      → AllRoom c.qs.tbl
      → length pkts ≤ len
      → let sas = outbound_sa_lookup sa_ctx sa_idx in
        let (out, c') = ipsec_outbound pmd create_session fn post sa_ctx c pkts sa_idx len in
        (length (ipsec_enqueue pmd create_session fn c pkts sas).ol_pkts ≤ length pkts)
        × (c'.ol_pkts ≡ [])
        × AllRoom c'.qs.tbl
        × (length out ≤ len)
        × (ctx_held q c' + count_if (by_id q) out ≡ ctx_held q c + count_if (by_id q) pkts)
  unfolding ipsec_outbound
  ipsec_outbound-conserves sa_ctx c pkts sa_idx len e n h le =
      enqueue_dequeue c pkts (outbound_sa_lookup sa_ctx sa_idx) len e
        (length-outbound_sa_lookup sa_ctx sa_idx ∙ n) h le

  -- The same of ipsec_inbound, which finds the SAs of the packets in the SA database.
  pub ipsec_inbound-conserves :
      (sad : IpsecSad) (cache : IpsecSadCache) (c : Ctx D) (pkts : List Mbuf) (len : ℕ)
      → c.ol_pkts ≡ []
      → AllRoom c.qs.tbl
      → length pkts ≤ len
      → let sas = (inbound_sa_lookup sad cache pkts).0 in
        let (out, c', _) = ipsec_inbound pmd create_session fn post sad cache c pkts len in
        (length (ipsec_enqueue pmd create_session fn c pkts sas).ol_pkts ≤ length pkts)
        × (c'.ol_pkts ≡ [])
        × AllRoom c'.qs.tbl
        × (length out ≤ len)
        × (ctx_held q c' + count_if (by_id q) out ≡ ctx_held q c + count_if (by_id q) pkts)
  unfolding ipsec_inbound
  ipsec_inbound-conserves sad cache c pkts len e h le =
      enqueue_dequeue c pkts (inbound_sa_lookup sad cache pkts).0 len e
        (length-inbound_sa_lookup sad cache pkts) h le
