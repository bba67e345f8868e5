-- ===== src/CryptoQueue.antt =====
-- The crypto device queues: struct cdev_qp of ipsec.h, enqueue_cop_burst and enqueue_cop of
-- ipsec.c, enqueue_cop_bulk, cqp_dequeue and ctx_dequeue of ipsec_process.c.
-- A crypto op stands for the packet that it belongs to (`cop->sym->m_src`): each mbuf carries its
-- own op. The device is a parameter: its state, and what its two burst calls answer.
pub mod Bulk
pub mod Dequeue
pub mod Table
use ipsec_secgw_old.Prelude.{
  ℕ, zero, suc, ◌+◌, ◌-◌, ◌*◌, ◌/◌, ◌≤◌, min, List, [], ◌∷◌, ◌++◌, Option, none, some, Bool, true,
  false, ◌&&◌, length, take, drop, ◌==◌, leb, get_elem?, set, if◌then◌else◌, not,
}
use ipsec_secgw_old.Packet.{Mbuf, Freed, free_pkts, free_mbufs, u16, max_pkt_burst}

-- rte_cryptodev_enqueue_burst takes at most the ops that it is given, from the first on, and
-- rte_cryptodev_dequeue_burst returns at most the number asked for.
pub record Pmd (D : Type 0) : Type 0 where
  pub enqueue : D → ℕ → ℕ → List Mbuf → ℕ × D
  pub enqueue_le : (d : D) (id qp : ℕ) (ops : List Mbuf) → (enqueue d id qp ops).0 ≤ length ops
  pub dequeue : D → ℕ → ℕ → ℕ → List Mbuf × D
  pub dequeue_le : (d : D) (id qp num : ℕ) → length (dequeue d id qp num).0 ≤ num

-- `buf` is `buf[0 .. len)`, so `len` is its length.
pub record Cqp : Type 0 where
  pub id : ℕ
  pub qp : ℕ
  pub in_flight : ℕ
  pub buf : List Mbuf

-- The queues of struct ipsec_ctx.
pub record Queues : Type 0 where
  pub nb_qps : ℕ
  pub last_qp : ℕ
  pub tbl : List Cqp

-- The device, the ops that it has accepted so far, and the packets freed.
pub record World (D : Type 0) : Type 0 where
  pub dev : D
  pub accepted : List Mbuf
  pub freed : Freed

module _ {D : Type 0} (pmd : Pmd D) where
  -- A burst of `ops`, with `release` for the packets that the device did not take.
  burst : (List Mbuf → Freed → Freed) → Cqp → World D → List Mbuf → Cqp × World D
  burst release cqp w ops =
      let (n, dev') = pmd.enqueue w.dev cqp.id cqp.qp ops in
      (
        record cqp { in_flight = u16 (cqp.in_flight + n) },
        record w {
          dev = dev';
          accepted = w.accepted ++ take n ops;
          freed = release (drop n ops) w.freed;
        },
      )

  pub enqueue_cop_burst : Cqp → World D → Cqp × World D
  unfolding burst free_pkts
  enqueue_cop_burst cqp w =
      let (cqp', w') = burst free_pkts cqp w cqp.buf in (record cqp' { buf = [] }, w')

  pub enqueue_cop : Cqp → World D → Mbuf → Cqp × World D
  enqueue_cop cqp w cop =
      let cqp' = record cqp { buf = cqp.buf ++ (cop ∷ []) } in
      if length cqp'.buf == max_pkt_burst then enqueue_cop_burst cqp' w else (cqp', w)

  -- One round of the loop: fill the buffer, and pass it on to the device when it is full.
  fill_round : Cqp → World D → List Mbuf → Cqp × World D × List Mbuf
  unfolding burst free_mbufs
  fill_round cqp w ops =
      let n = min (length ops) (max_pkt_burst - length cqp.buf) in
      let filled = record cqp { buf = cqp.buf ++ take n ops } in
      let (cqp', w') = burst free_mbufs filled w filled.buf in
      if length filled.buf == max_pkt_burst
      then (record cqp' { buf = [] }, w', drop n ops)
      else (filled, w, drop n ops)

  -- The loop `do … while (k != num)`; `ops` are those from `k` on. `none`: the fuel ran out.
  fill_loop : ℕ → Cqp → World D → List Mbuf → Option (Cqp × World D)
  fill_loop zero cqp w ops = none
  fill_loop (suc fuel) cqp w ops =
      let (cqp', w', rest) = fill_round cqp w ops in
      let more = fill_loop fuel cqp' w' rest in if length rest == 0 then some (cqp', w') else more

  pub enqueue_cop_bulk : Cqp → World D → List Mbuf → Option (Cqp × World D)
  unfolding burst free_mbufs
  enqueue_cop_bulk cqp w cops =
      if leb (max_pkt_burst * 3 / 4) (length cops) && (length cqp.buf == 0)
      then some (burst free_mbufs cqp w cops)
      else fill_loop (suc (length cops)) cqp w cops

  -- `dequeued` are the ops from the queue.
  pub cqp_dequeue : Cqp → World D → ℕ → List Mbuf × Cqp × World D
  cqp_dequeue cqp w num =
      let (ops, dev') = pmd.dequeue w.dev cqp.id cqp.qp num in
      if cqp.in_flight == 0 then ([], cqp, w) else (
        ops,
        record cqp { in_flight = u16 (cqp.in_flight + 65536 - u16 (length ops)) },
        record w { dev = dev' },
      )

  -- The call `cqp_dequeue(ctx->tbl + i, …)`.
  dequeue_at : Queues → ℕ → World D → ℕ → List Mbuf × Queues × World D
  unfolding cqp_dequeue
  dequeue_at qs i w num = elim (get_elem? qs.tbl i) [
    | none ↦ ([], qs, w)
    | some cqp ↦
        let (ops, cqp', w') = cqp_dequeue cqp w num in
        (ops, record qs { tbl = set qs.tbl i cqp' }, w')
  ]

  -- One of the two loops of ctx_dequeue, from queue `i` up to `bound`; `cop` are the ops found so
  -- far. It runs while more are wanted and `i != bound`, so `bound - i` rounds are enough.
  scan : ℕ → ℕ → ℕ → ℕ → Queues → World D → List Mbuf → ℕ × Queues × World D × List Mbuf
  scan zero num bound i qs w cop = (i, qs, w, cop)
  scan (suc fuel) num bound i qs w cop =
      let (ops, qs', w') = dequeue_at qs i w (num - length cop) in
      let rest = scan fuel num bound (i + 1) qs' w' (cop ++ ops) in
      if not (length cop == num) && not (i == bound) then rest else (i, qs, w, cop)

  pub ctx_dequeue : Queues → World D → ℕ → List Mbuf × Queues × World D
  unfolding scan
  ctx_dequeue qs w num =
      let (_, qs₁, w₁, cop₁) = scan (qs.nb_qps - qs.last_qp) num qs.nb_qps qs.last_qp qs w [] in
      let (i, qs₂, w₂, cop₂) = scan qs.last_qp num qs.last_qp 0 qs₁ w₁ cop₁ in
      (cop₂, record qs₂ { last_qp = i }, w₂)
