-- ===== src/CryptoQueue/Bulk.antt =====
-- enqueue_cop, enqueue_cop_burst and enqueue_cop_bulk lose no packet and keep room in the buffer.
use ipsec_secgw_old.Prelude.{
  ℕ, zero, suc, ◌+◌, ◌-◌, ◌<◌, min, ◌≡◌, refl, List, [], ◌∷◌, ◌++◌, some, Bool, arith, length,
  length-append, length-take, length-drop, count_if, count_if-append, count_if-empty,
  count_if-take-drop, take, drop, ◌==◌, ◌&&◌, leb, ◌*◌, ◌/◌, Bool-cases, inl, inr,
}
use ipsec_secgw_old.Packet.{Mbuf, Freed, free_pkts, free_mbufs, max_pkt_burst}
use ipsec_secgw_old.CryptoQueue.{
  Pmd, Cqp, World, burst, enqueue_cop_burst, enqueue_cop, fill_round, fill_loop, enqueue_cop_bulk,
}

-- The packets that pass the test `p`: accepted by the device, waiting in the buffer, or freed.
abbrev pub tally : {D : Type 0} → (Mbuf → Bool) → Cqp → World D → ℕ
tally p cqp w = count_if p w.accepted + count_if p cqp.buf + count_if p w.freed.mbufs

-- A release appends the packets to those freed.
abbrev Releases : (List Mbuf → Freed → Freed) → Type 0
Releases release = (ms : List Mbuf) (f : Freed) → (release ms f).mbufs ≡ f.mbufs ++ ms

module _ {D : Type 0} (pmd : Pmd D) (p : Mbuf → Bool) where
  burst-tally :
      (release : List Mbuf → Freed → Freed) (cqp : Cqp) (w : World D) (ops : List Mbuf)
      → Releases release
      → let (cqp', w') = burst pmd release cqp w ops in
        count_if p w'.accepted + count_if p w'.freed.mbufs
        ≡ count_if p w.accepted + count_if p w.freed.mbufs + count_if p ops
  unfolding burst
  burst-tally release cqp w ops h =
      let n = (pmd.enqueue w.dev cqp.id cqp.qp ops).0 in
      rw (h (drop n ops) w.freed) (
        omega (
          arith,
          count_if-append p w.accepted (take n ops),
          count_if-append p w.freed.mbufs (drop n ops),
          count_if-take-drop p n ops,
        ))

  fill_round-tally :
      (cqp : Cqp) (w : World D) (ops : List Mbuf)
      → length cqp.buf < max_pkt_burst
      → let (cqp', w', rest) = fill_round pmd cqp w ops in
        (length cqp'.buf < max_pkt_burst)
        × (tally p cqp' w' + count_if p rest ≡ tally p cqp w + count_if p ops)
        × (length rest ≡ length ops - (max_pkt_burst - length cqp.buf))
  unfolding fill_round free_mbufs
  fill_round-tally cqp w ops h =
      let n = min (length ops) (max_pkt_burst - length cqp.buf) in
      let filled = cqp.buf ++ take n ops in
      ground (
        arith,
        burst-tally free_mbufs (record cqp { buf = filled }) w filled (λ ms f. refl),
        count_if-append p cqp.buf (take n ops),
        count_if-take-drop p n ops,
        length-append cqp.buf (take n ops),
        length-take n ops,
        length-drop n ops,
      )

  fill_loop-tally :
      (fuel : ℕ) (cqp : Cqp) (w : World D) (ops : List Mbuf)
      → length cqp.buf < max_pkt_burst
      → length ops < fuel
      → (r : Cqp × World D) × (fill_loop pmd fuel cqp w ops ≡ some r)
        × (length r.0.buf < max_pkt_burst)
        × (tally p r.0 r.1 ≡ tally p cqp w + count_if p ops)
  unfolding fill_loop
  fill_loop-tally zero cqp w ops h f = absurd (omega arith)
  fill_loop-tally (suc fuel) cqp w ops h f =
      let (cqp', w', rest) = fill_round pmd cqp w ops in
      let (room, kept, shorter) = fill_round-tally cqp w ops h in
      elim (Bool-cases (length rest == 0)) [
        | inl done ↦ ((cqp', w'), rw done, room, grind (arith, count_if-empty p rest))
        | inr more ↦
            let (r, e, r_room, r_kept) = fill_loop-tally fuel cqp' w' rest room (ground arith) in
            (r, rw more e, r_room, omega arith)
      ]

  -- enqueue_cop_bulk ends, whatever the device takes; from a buffer with room it leaves one with
  -- room, and every op that it is given, or that waited, is then accepted by the device, waiting
  -- in the buffer, or freed, exactly once.
  pub enqueue_cop_bulk-conserves :
      (cqp : Cqp) (w : World D) (cops : List Mbuf)
      → length cqp.buf < max_pkt_burst
      → (r : Cqp × World D) × (enqueue_cop_bulk pmd cqp w cops ≡ some r)
        × (length r.0.buf < max_pkt_burst)
        × (tally p r.0 r.1 ≡ tally p cqp w + count_if p cops)
  unfolding enqueue_cop_bulk free_mbufs
  enqueue_cop_bulk-conserves cqp w cops h =
      elim (Bool-cases (leb (max_pkt_burst * 3 / 4) (length cops) && (length cqp.buf == 0))) [
        | inl direct ↦ (
          burst pmd free_mbufs cqp w cops,
          rw direct,
          h,
          omega (arith, burst-tally free_mbufs cqp w cops (λ ms f. refl)),
        )
        | inr buffered ↦
            rw buffered (fill_loop-tally (suc (length cops)) cqp w cops h (omega arith))
      ]

  -- enqueue_cop keeps room in the buffer, and loses no op.
  pub enqueue_cop-conserves :
      (cqp : Cqp) (w : World D) (cop : Mbuf)
      → length cqp.buf < max_pkt_burst
      → let (cqp', w') = enqueue_cop pmd cqp w cop in
        (length cqp'.buf < max_pkt_burst)
        × (tally p cqp' w' ≡ tally p cqp w + count_if p (cop ∷ []))
  unfolding enqueue_cop enqueue_cop_burst free_pkts
  enqueue_cop-conserves cqp w cop h =
      let filled = cqp.buf ++ (cop ∷ []) in
      ground (
        arith,
        burst-tally free_pkts (record cqp { buf = filled }) w filled (λ ms f. refl),
        count_if-append p cqp.buf (cop ∷ []),
        length-append cqp.buf (cop ∷ []),
      )
