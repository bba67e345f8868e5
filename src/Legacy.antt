-- ===== src/Legacy.antt =====
-- The legacy path of ipsec.c: ipsec_enqueue, ipsec_inline_dequeue, ipsec_dequeue, and the inbound
-- and outbound calls made of them. The transforms of esp.c are parameters, as the function
-- pointers that the code passes; so are the creation of sessions and the status of an op.
pub mod Enqueue
pub mod Inline
pub mod Dequeue
use ipsec_secgw_old.Prelude.{
  ℕ, zero, suc, ◌+◌, ◌-◌, ◌≡◌, List, [], ◌∷◌, ◌++◌, Option, none, some, Bool, true, false, ◌==◌,
  ◌&&◌, not, if◌then◌else◌, length, get_elem?, set, leb,
}
use ipsec_secgw_old.Packet.{
  Action, action_none, inline_crypto, inline_protocol, lookaside_protocol, cpu_crypto, Session, Sa,
  SaCtx, Mbuf, Freed, free_pkts, u16,
}
use ipsec_secgw_old.CryptoQueue.{Pmd, Cqp, Queues, World, enqueue_cop}
use ipsec_secgw_old.Sad.{IpsecSad, IpsecSadCache}
use ipsec_secgw_old.SaLookup.{ipsec_mask_saptr, inbound_sa_lookup, outbound_sa_lookup}
use ipsec_secgw_old.IpsecLib.{Store}

-- `ol_pkts` is the array of the first `ol_pkts_cnt` packets, from the last to the first.
pub record Ctx (D : Type 0) : Type 0 where
  pub qs : Queues
  pub w : World D
  pub store : Store
  pub ol_pkts : List Mbuf

-- A transform of a packet, which finds its SA in `priv_sa`: `none` for an error. It keeps the mbuf
-- where it is.
pub record XformFn : Type 0 where
  pub xform : Mbuf → Option Mbuf
  pub xform_id : (m m' : Mbuf) → xform m ≡ some m' → m'.id ≡ m.id

-- create_lookaside_session for the SA at an address: whether it succeeded, and the SAs after it.
abbrev pub CreateSession : Type 0
CreateSession = ℕ → Store → Bool × Store

-- The packet points to the SA.
abbrev pub with_sa : Sa → Mbuf → Mbuf
with_sa sa m = record m { priv_sa = some sa }

module _ {D : Type 0} where
  -- free_pkts(&pkts[i], 1)
  pub free_one : Ctx D → Mbuf → Ctx D
  unfolding free_pkts
  free_one c m = record c { w = record c.w { freed = free_pkts (m ∷ []) c.w.freed } }

  -- The packet is kept for inline processing, with its session if the device needs it there.
  pub keep_inline : Ctx D → Session → Mbuf → Ctx D
  keep_inline c ips m =
      let m' = record m { sec_session = if ips.need_mdata then ips.ses else m.sec_session } in
      record c { ol_pkts = m' ∷ c.ol_pkts }

module _ {D : Type 0} (pmd : Pmd D) (create_session : CreateSession) (fn : XformFn) where
  -- `ipsec_ctx->tbl[sa->cdev_id_qp]`, which an assertion keeps in range; without such a queue the
  -- model frees the packet.
  enqueue_at : Ctx D → ℕ → Mbuf → Ctx D
  unfolding free_one
  enqueue_at c i m = elim (get_elem? c.qs.tbl i) [
    | none ↦ free_one c m
    | some cqp ↦
        let (cqp', w') = enqueue_cop pmd cqp c.w m in
        record c { qs = record c.qs { tbl = set c.qs.tbl i cqp' }; w = w' }
  ]

  -- A session that has no handle yet is created.
  ready : Ctx D → ℕ → Session → Bool × Ctx D
  ready c addr ips = elim ips.ses [
    | some h ↦ (true, c)
    | none ↦ let (ok, store') = create_session addr c.store in (ok, record c { store = store' })
  ]

  -- The transform, and what is done with its result.
  after_xform : Ctx D → Mbuf → (Mbuf → Ctx D) → Ctx D
  unfolding free_one
  after_xform c m next = elim (fn.xform m) [ none ↦ free_one c m | some m' ↦ next m' ]

  -- The switch on the type of the session. Creating a session sets the session and the queue of the SA
  -- that the packet points to, which is read again.
  enqueue_by : Action → Ctx D → ℕ → Sa → Mbuf → Ctx D
  unfolding free_one keep_inline enqueue_at ready after_xform
  enqueue_by lookaside_protocol c addr sa m =
      let (ok, c') = ready c addr sa.primary in
      let sa' = c'.store addr in
      let m' = with_sa sa' m in
      if not ok
      then free_one c' m'
      else if m.tunnel_esp && m.l4_udp && not (sa'.udp_encap == 1)
      then free_one c' m'
      else enqueue_at c' sa'.cdev_id_qp m'
  enqueue_by cpu_crypto c addr sa m = free_one c m
  enqueue_by action_none c addr sa m =
      let (ok, c') = ready c addr sa.primary in
      let sa' = c'.store addr in
      let m' = with_sa sa' m in
      if not ok then free_one c' m' else after_xform c' m' (enqueue_at c' sa'.cdev_id_qp)
  enqueue_by inline_protocol c addr sa m = keep_inline c sa.primary m
  enqueue_by inline_crypto c addr sa m = after_xform c m (keep_inline c sa.primary)

  enqueue_one : Ctx D → ℕ → Mbuf → Ctx D
  unfolding free_one enqueue_by
  enqueue_one c ptr m =
      let addr = ipsec_mask_saptr ptr in
      let sa = c.store addr in
      if ptr == 0 then free_one c m else enqueue_by sa.primary.action c addr sa (with_sa sa m)

  pub ipsec_enqueue : Ctx D → List Mbuf → List ℕ → Ctx D
  unfolding enqueue_one
  ipsec_enqueue c (m ∷ ms) (ptr ∷ ptrs) = ipsec_enqueue (enqueue_one c ptr m) ms ptrs
  ipsec_enqueue c _ _ = c

module _ (fn : XformFn) where
  -- The loop, over the packets of `ol_pkts`; `pkts` are those finished.
  inline_loop : ℕ → List Mbuf → List Mbuf → Freed → List Mbuf × List Mbuf × Freed
  unfolding free_pkts
  inline_loop max_pkts [] pkts freed = (pkts, [], freed)
  inline_loop max_pkts (pkt ∷ ol) pkts freed =
      let failed = inline_loop max_pkts ol pkts (free_pkts (pkt ∷ []) freed) in
      if leb max_pkts (length pkts) then (pkts, pkt ∷ ol, freed) else elim (fn.xform pkt) [
        | none ↦ failed
        | some m ↦ inline_loop max_pkts ol (pkts ++ (m ∷ [])) freed
      ]

  pub ipsec_inline_dequeue : {D : Type 0} → Ctx D → ℕ → List Mbuf × Ctx D
  unfolding inline_loop
  ipsec_inline_dequeue c max_pkts =
      let (pkts, ol, freed) = inline_loop max_pkts c.ol_pkts [] c.w.freed in
      (pkts, record c { ol_pkts = ol; w = record c.w { freed = freed } })

-- `last_qp++`, and back to 0 at `nb_qps`.
advance : Queues → Queues
advance qs =
    let next = qs.last_qp + 1 in record qs { last_qp = if next == qs.nb_qps then 0 else next }

module _ {D : Type 0} (pmd : Pmd D) (fn : XformFn) (status : Mbuf → Bool) where
  -- What becomes of an op that comes back, by the type of the session of its SA; `status` is true
  -- for an op that failed.
  finish_by : Action → Mbuf → Option Mbuf
  finish_by action_none m = fn.xform m
  finish_by lookaside_protocol m = if status m then none else some m
  finish_by _ m = some m

  finish : Mbuf → Option Mbuf
  unfolding finish_by
  finish m = elim m.priv_sa [ none ↦ some m | some sa ↦ finish_by sa.primary.action m ]

  finish_all : List Mbuf → List Mbuf → Freed → List Mbuf × Freed
  unfolding finish free_pkts
  finish_all [] pkts freed = (pkts, freed)
  finish_all (m ∷ ms) pkts freed =
      let failed = finish_all ms pkts (free_pkts (m ∷ []) freed) in
      elim (finish m) [ none ↦ failed | some m' ↦ finish_all ms (pkts ++ (m' ∷ [])) freed ]

  -- One queue: the ops of its burst, finished.
  serve : Ctx D → ℕ → ℕ → List Mbuf → List Mbuf × Ctx D
  unfolding finish_all
  serve c i max_pkts pkts = elim (get_elem? c.qs.tbl i) [
    | none ↦ (pkts, c)
    | some cqp ↦
        let (ops, dev') = pmd.dequeue c.w.dev cqp.id cqp.qp (max_pkts - length pkts) in
        let cqp' = record cqp { in_flight = u16 (cqp.in_flight + 65536 - u16 (length ops)) } in
        let (pkts', freed') = finish_all ops pkts c.w.freed in
        if cqp.in_flight == 0 then (pkts, c) else (
          pkts',
          record c {
            qs = record c.qs { tbl = set c.qs.tbl i cqp' };
            w = record c.w { dev = dev'; freed = freed' };
          },
        )
  ]

  -- `n` rounds are left.
  dequeue_loop : ℕ → ℕ → Ctx D → List Mbuf → List Mbuf × Ctx D
  unfolding serve advance
  dequeue_loop zero max_pkts c pkts = (pkts, c)
  dequeue_loop (suc n) max_pkts c pkts =
      let c' = record c { qs = advance c.qs } in
      let (pkts', c'') = serve c' c.qs.last_qp max_pkts pkts in
      let rest = dequeue_loop n max_pkts c'' pkts' in
      if leb max_pkts (length pkts) then (pkts, c) else rest

  pub ipsec_dequeue : Ctx D → ℕ → List Mbuf × Ctx D
  unfolding dequeue_loop
  ipsec_dequeue c max_pkts = dequeue_loop c.qs.nb_qps max_pkts c []

module _ {D : Type 0} (pmd : Pmd D) (create_session : CreateSession) (fn post : XformFn) where
  -- `len` is the room for the packets that come back.
  pub ipsec_inbound :
      IpsecSad → IpsecSadCache → Ctx D → List Mbuf → ℕ → List Mbuf × Ctx D × IpsecSadCache
  ipsec_inbound sad cache c pkts len =
      let (sas, cache') = inbound_sa_lookup sad cache pkts in
      let (out, c') =
        ipsec_inline_dequeue post (ipsec_enqueue pmd create_session fn c pkts sas) len in
      (out, c', cache')

  pub ipsec_outbound : SaCtx → Ctx D → List Mbuf → List ℕ → ℕ → List Mbuf × Ctx D
  ipsec_outbound sa_ctx c pkts sa_idx len =
      let sas = outbound_sa_lookup sa_ctx sa_idx in
      ipsec_inline_dequeue post (ipsec_enqueue pmd create_session fn c pkts sas) len
