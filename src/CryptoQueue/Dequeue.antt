-- ===== src/CryptoQueue/Dequeue.antt =====
-- ctx_dequeue: how many ops it returns, and from which queue the next call starts.
use ipsec_secgw_old.Prelude.{
  ℕ, zero, suc, ◌+◌, ◌-◌, ◌≤◌, ◌≡◌, ◌==◌, refl, sym, ap, ◌∙◌, some, set, map, Bool-cases, List, [],
  ◌∷◌, ◌++◌, arith, length, length-append, Option-cases, get_elem?, inl, inr,
}
use ipsec_secgw_old.Packet.{Mbuf}
use ipsec_secgw_old.CryptoQueue.{
  Pmd, Cqp, Queues, World, cqp_dequeue, dequeue_at, scan, ctx_dequeue,
}

-- A queue but for its counter of ops that the device has.
abbrev pub fixed : Cqp → ℕ × ℕ × List Mbuf
fixed cqp = (cqp.id, cqp.qp, cqp.buf)

map-set {ℓ κ} :
    {A : Type ℓ} {B : Type κ} (f : A → B) (xs : List A) (i : ℕ) (x y : A)
    → get_elem? xs i ≡ some x
    → f y ≡ f x
    → map f (set xs i y) ≡ map f xs
map-set f [] i x y e same = refl
map-set f (z ∷ zs) zero x y e same =
    let first : z ≡ x = cc e in ap (λ b. b ∷ map f zs) (same ∙ ap f (sym first))
map-set f (z ∷ zs) (suc i) x y e same = ap (λ bs. f z ∷ bs) (map-set f zs i x y e same)

module _ {D : Type 0} (pmd : Pmd D) where
  cqp_dequeue-fixed :
      (cqp : Cqp) (w : World D) (num : ℕ) → fixed ((cqp_dequeue pmd cqp w num).1) ≡ fixed cqp
  unfolding cqp_dequeue
  cqp_dequeue-fixed cqp w num = elim (Bool-cases (cqp.in_flight == 0)) [
    | inl e ↦ rw (e) refl
    | inr e ↦ rw (e) refl
  ]

  cqp_dequeue-le : (cqp : Cqp) (w : World D) (num : ℕ) → length (cqp_dequeue pmd cqp w num).0 ≤ num
  unfolding cqp_dequeue
  cqp_dequeue-le cqp w num = ground (arith, pmd.dequeue_le w.dev cqp.id cqp.qp num)

  -- A call at one queue changes that queue only.
  dequeue_at-keeps :
      (qs : Queues) (i : ℕ) (w : World D) (num : ℕ)
      → let (ops, qs', w') = dequeue_at pmd qs i w num in
        (length ops ≤ num)
        × (qs'.nb_qps ≡ qs.nb_qps)
        × (qs'.last_qp ≡ qs.last_qp)
        × (map fixed qs'.tbl ≡ map fixed qs.tbl)
  unfolding dequeue_at
  dequeue_at-keeps qs i w num = elim (Option-cases (get_elem? qs.tbl i)) [
    | inl e ↦ rw (e, dequeue_at) (omega arith, refl, refl, refl)
    | inr (cqp, e) ↦
        rw (e, dequeue_at)
          (
            cqp_dequeue-le cqp w num,
            refl,
            refl,
            map-set fixed qs.tbl i cqp ((cqp_dequeue pmd cqp w num).1) e
                (cqp_dequeue-fixed cqp w num),
          )
  ]

  scan-keeps :
      (fuel num bound i : ℕ) (qs : Queues) (w : World D) (cop : List Mbuf)
      → length cop ≤ num
      → let (i', qs', w', cop') = scan pmd fuel num bound i qs w cop in
        (length cop' ≤ num)
        × (i' ≤ i + fuel)
        × (qs'.nb_qps ≡ qs.nb_qps)
        × (map fixed qs'.tbl ≡ map fixed qs.tbl)
  unfolding scan
  scan-keeps zero num bound i qs w cop h = (h, omega arith, refl, refl)
  scan-keeps (suc fuel) num bound i qs w cop h =
      let (ops, qs', w') = dequeue_at pmd qs i w (num - length cop) in
      ground (
        arith,
        dequeue_at-keeps qs i w (num - length cop),
        length-append cop ops,
        scan-keeps fuel num bound (i + 1) qs' w' (cop ++ ops),
      )

  -- ctx_dequeue returns at most the number of ops asked for, keeps the queues but for their counters
  -- in_flight, with their devices, numbers and buffers, and leaves `last_qp` where it was or nearer to 0, whatever the device does.
  pub ctx_dequeue-last_qp-le :
      (qs : Queues) (w : World D) (num : ℕ)
      → let (cop, qs', w') = ctx_dequeue pmd qs w num in
        (length cop ≤ num)
        × (map fixed qs'.tbl ≡ map fixed qs.tbl)
        × (qs'.nb_qps ≡ qs.nb_qps)
        × (qs'.last_qp ≤ qs.last_qp)
  unfolding ctx_dequeue
  ctx_dequeue-last_qp-le qs w num =
      let (_, qs₁, w₁, cop₁) = scan pmd (qs.nb_qps - qs.last_qp) num qs.nb_qps qs.last_qp qs w [] in
      let first =
        scan-keeps (qs.nb_qps - qs.last_qp) num qs.nb_qps qs.last_qp qs w [] (omega arith) in
      let second = scan-keeps qs.last_qp num qs.last_qp 0 qs₁ w₁ cop₁ first.0 in
      (
        omega (arith, second),
        second.3 ∙ first.3,
        omega (arith, first, second),
        omega (arith, first, second),
      )
