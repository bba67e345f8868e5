-- ===== src/Legacy/Dequeue.antt =====
-- ipsec_dequeue: how many packets it returns, and how it goes round the queues.
use ipsec_secgw_old.Prelude.{
  ℕ, zero, suc, ◌+◌, ◌-◌, ◌≤◌, ◌<◌, ◌≡◌, refl, List, [], ◌∷◌, ◌++◌, Bool, arith, length,
  length-append, length-set, leb, ◌==◌, get_elem?, Bool-cases, Option-cases, inl, inr,
}
use ipsec_secgw_old.Packet.{Mbuf, Freed, free_pkts}
use ipsec_secgw_old.CryptoQueue.{Pmd, Queues}
use ipsec_secgw_old.Legacy.{
  Ctx, XformFn, finish, finish_all, serve, advance, dequeue_loop, ipsec_dequeue,
}

module _ {D : Type 0} (pmd : Pmd D) (fn : XformFn) (status : Mbuf → Bool) where
  finish_all-le :
      (ops pkts : List Mbuf) (freed : Freed)
      → length (finish_all pmd fn status ops pkts freed).0 ≤ length pkts + length ops
  unfolding finish_all
  finish_all-le [] pkts freed = omega arith
  finish_all-le (m ∷ ms) pkts freed = elim (Option-cases (finish pmd fn status m)) [
    | inl e ↦ rw (e, finish_all) (omega (arith, finish_all-le ms pkts (free_pkts (m ∷ []) freed)))
    | inr (m', e) ↦
        rw (e, finish_all)
          (omega (arith, finish_all-le ms (pkts ++ (m' ∷ [])) freed, length-append pkts (m' ∷ [])))
  ]

  -- Serving a queue keeps which queue is next, and the number of queues.
  serve-keeps :
      (c : Ctx D) (i max_pkts : ℕ) (pkts : List Mbuf)
      → length pkts ≤ max_pkts
      → let (pkts', c') = serve pmd fn status c i max_pkts pkts in
        (length pkts' ≤ max_pkts)
        × (c'.qs.nb_qps ≡ c.qs.nb_qps)
        × (c'.qs.last_qp ≡ c.qs.last_qp)
        × (length c'.qs.tbl ≡ length c.qs.tbl)
  unfolding serve
  serve-keeps c i max_pkts pkts h = elim (Option-cases (get_elem? c.qs.tbl i)) [
    | inl e ↦ rw (e, serve) (h, refl, refl, refl)
    | inr (cqp, e) ↦ elim (Bool-cases (cqp.in_flight == 0)) [
      | inl z ↦ rw (e, z, serve) (h, refl, refl, refl)
      | inr z ↦
          let want = max_pkts - length pkts in
          let ops = (pmd.dequeue c.w.dev cqp.id cqp.qp want).0 in
          rw (e, z, serve)
            (
              omega (
                arith,
                finish_all-le ops pkts c.w.freed,
                pmd.dequeue_le c.w.dev cqp.id cqp.qp want,
              ),
              refl,
              refl,
              length-set c.qs.tbl i _,
            )
    ]
  ]

  advance-lt :
      (qs : Queues)
      → qs.last_qp < qs.nb_qps
      → ((advance qs).last_qp < qs.nb_qps) × ((advance qs).nb_qps ≡ qs.nb_qps)
  unfolding advance
  advance-lt qs h = (ground arith, refl)

  dequeue_loop-keeps :
      (n max_pkts : ℕ) (c : Ctx D) (pkts : List Mbuf)
      → c.qs.last_qp < c.qs.nb_qps
      → length pkts ≤ max_pkts
      → let (pkts', c') = dequeue_loop pmd fn status n max_pkts c pkts in
        (length pkts' ≤ max_pkts)
        × (c'.qs.last_qp < c.qs.nb_qps)
        × (c'.qs.nb_qps ≡ c.qs.nb_qps)
        × (length c'.qs.tbl ≡ length c.qs.tbl)
  unfolding dequeue_loop
  dequeue_loop-keeps zero max_pkts c pkts lt h = (h, lt, refl, refl)
  dequeue_loop-keeps (suc n) max_pkts c pkts lt h = elim (Bool-cases (leb max_pkts (length pkts))) [
    | inl e ↦ rw (e, dequeue_loop) (h, lt, refl, refl)
    | inr e ↦
        let c₁ : Ctx D = record c { qs = advance c.qs } in
        let (pkts₂, c₂) = serve pmd fn status c₁ c.qs.last_qp max_pkts pkts in
        let next = advance-lt c.qs lt in
        let served = serve-keeps c₁ c.qs.last_qp max_pkts pkts h in
        let ih = dequeue_loop-keeps n max_pkts c₂ pkts₂ (omega (arith, next, served)) served.0 in
        rw (e, dequeue_loop) (omega (arith, ih, served, next))
  ]

  -- With a queue that is next, ipsec_dequeue returns at most `max_pkts` packets and keeps the table
  -- of queues and a queue that is next.
  pub ipsec_dequeue-last_qp-lt :
      (c : Ctx D) (max_pkts : ℕ)
      → c.qs.last_qp < c.qs.nb_qps
      → let (pkts, c') = ipsec_dequeue pmd fn status c max_pkts in
        (length pkts ≤ max_pkts)
        × (c'.qs.last_qp < c.qs.nb_qps)
        × (c'.qs.nb_qps ≡ c.qs.nb_qps)
        × (length c'.qs.tbl ≡ length c.qs.tbl)
  unfolding ipsec_dequeue
  ipsec_dequeue-last_qp-lt c max_pkts lt =
      dequeue_loop-keeps c.qs.nb_qps max_pkts c [] lt (omega arith)
