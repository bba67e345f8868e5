-- ===== src/Process.antt =====
-- ipsec_process and ipsec_cqp_process of ipsec_process.c: the packets of a burst are grouped by
-- SA, and each group is processed inline or queued for a crypto device; packets that come back are
-- processed by session. librte_ipsec, the creation of sessions, and the memory that holds the SAs
-- are parameters.
pub mod Groups
pub mod Held
pub mod Steps
pub mod Conserve
use ipsec_secgw_old.Prelude.{
  ℕ, ◌+◌, ◌%◌, ◌≡◌, List, [], ◌∷◌, ◌++◌, Option, none, some, Bool, true, false, ◌==◌, ◌&&◌, ◌||◌,
  not, if◌then◌else◌, map, length, get_elem?, set, take, drop, count_if,
}
use ipsec_secgw_old.Packet.{
  Action, action_none, inline_crypto, inline_protocol, lookaside_protocol, cpu_crypto, Session, Sa,
  Tso, Mbuf, Freed, free_pkts, max_pkt_burst,
}
use ipsec_secgw_old.Packet.Tally.{by_id}
use ipsec_secgw_old.IpsecLib.{SaType, satp_out_ipv4, Sorted, RteIpsec, Store, FillSession, grouped}
use ipsec_secgw_old.CryptoQueue.{Pmd, Cqp, Queues, World, enqueue_cop_bulk, ctx_dequeue}
use ipsec_secgw_old.SaGroup.{Group, sa_group}
use ipsec_secgw_old.SaLookup.{ipsec_mask_saptr, has_fallback_flag}

-- The context and the two kinds of traffic that packets are handed to, each packet with the offset
-- of its `data`.
pub record State (D : Type 0) : Type 0 where
  pub qs : Queues
  pub w : World D
  pub store : Store
  pub ip4 : List (Mbuf × ℕ)
  pub ip6 : List (Mbuf × ℕ)

-- The offsets of `ip_p` and `ip6_nxt` in the IP headers.
abbrev pub ip_p_ofs : ℕ
ip_p_ofs = 9

abbrev pub ip6_nxt_ofs : ℕ
ip6_nxt_ofs = 6

abbrev with_ofs : ℕ → List Mbuf → List (Mbuf × ℕ)
with_ofs ofs = map (λ m. (m, ofs))

-- Whether the packets of an SA are IPv4 packets after processing.
abbrev pub to_ip4 : SaType → Bool
to_ip4 t = if t.inbound then t.ipv4 else satp_out_ipv4 t

-- IS_TUNNEL: one of the two low bits is set.
abbrev is_tunnel : ℕ → Bool
is_tunnel flags = not (flags % 4 == 0)

-- What prep_process_group does to one packet: the SA is noted, and a TCP packet of an SA with a
-- segment size is prepared for segmentation.
prep_tso : Sa → Mbuf → Tso
prep_tso sa m =
    let t = m.tso in
    let inner = record t {
      tso_segsz = sa.mss;
      l4_len = 20;
      tcp_seg = true;
      tcp_cksum = true;
      outer_ipv4 = t.outer_ipv4 || m.ipv4_hdr;
      outer_ipv6 = t.outer_ipv6 || not m.ipv4_hdr;
    } in
    if is_tunnel sa.flags
    then record inner {
      outer_l3_len = m.l3_len;
      outer_l2_len = m.l2_len;
      tunnel_esp = true;
      outer_ip_cksum = t.outer_ip_cksum || m.ipv4_hdr;
    }
    else inner

prep_process : Sa → Mbuf → Mbuf
prep_process sa m = record m {
  priv_sa = some sa;
  tso = if not (sa.mss == 0) && m.l4_tcp then prep_tso sa m else m.tso;
}

abbrev prep_process_group : Sa → List Mbuf → List Mbuf
prep_process_group sa = map (prep_process sa)

-- `priv->sa = sa`
note_sa : Sa → Mbuf → Mbuf
note_sa sa m = record m { priv_sa = some sa }

module _ {D : Type 0} (pmd : Pmd D) (lib : RteIpsec) where
  pub copy_to_trf : State D → SaType → List Mbuf → State D
  copy_to_trf s satp mb =
      if to_ip4 satp
      then record s { ip4 = s.ip4 ++ with_ofs ip_p_ofs mb }
      else record s { ip6 = s.ip6 ++ with_ofs ip6_nxt_ofs mb }

  -- The helpers give the state, and the packets from `m[k]` on, which the caller frees.
  --
  -- `ctx->tbl[sa->cdev_id_qp]` is used with no test; without such a queue the model queues
  -- nothing. `none`: enqueue_cop_bulk ran out of fuel.
  pub enqueue_prepared : State D → ℕ → Sorted → Option (State D × List Mbuf)
  enqueue_prepared s i (good, bad) = elim (get_elem? s.qs.tbl i) [
    | none ↦ some (s, good ++ bad)
    | some cqp ↦
        if length good == 0 then some (s, bad) else elim (enqueue_cop_bulk pmd cqp s.w good) [
          | none ↦ none
          | some (cqp', w') ↦
              some (record s { qs = record s.qs { tbl = set s.qs.tbl i cqp' }; w = w' }, bad)
        ]
  ]

  ipsec_prepare_crypto_group : State D → Sa → Session → List Mbuf → Option (State D × List Mbuf)
  unfolding enqueue_prepared note_sa
  ipsec_prepare_crypto_group s sa ips m =
      enqueue_prepared s sa.cdev_id_qp (lib.crypto_prepare ips (map (note_sa sa) m))

  ipsec_process_inline_group : State D → Sa → Session → List Mbuf → State D × List Mbuf
  unfolding copy_to_trf prep_process
  ipsec_process_inline_group s sa ips mb =
      let (good, bad) = lib.process ips (prep_process_group sa mb) in
      (copy_to_trf s (lib.sa_type ips) good, bad)

  -- The packets that were prepared are processed; `mb` then holds those processed, those not
  -- processed, and those not prepared.
  ipsec_process_cpu_group : State D → Sa → Session → List Mbuf → State D × List Mbuf
  unfolding copy_to_trf prep_process
  ipsec_process_cpu_group s sa ips mb =
      let (ready, unready) = lib.cpu_prepare ips (prep_process_group sa mb) in
      let (good, bad) = lib.process ips ready in
      (copy_to_trf s (lib.sa_type ips) good, bad ++ unready)

  -- The switch on the type of the session.
  pub process_by : Action → State D → Sa → Session → List Mbuf → Option (State D × List Mbuf)
  unfolding ipsec_prepare_crypto_group ipsec_process_inline_group ipsec_process_cpu_group
  process_by action_none s sa ips m = ipsec_prepare_crypto_group s sa ips m
  process_by lookaside_protocol s sa ips m = ipsec_prepare_crypto_group s sa ips m
  process_by inline_crypto s sa ips m = some (ipsec_process_inline_group s sa ips m)
  process_by inline_protocol s sa ips m = some (ipsec_process_inline_group s sa ips m)
  process_by cpu_crypto s sa ips m = some (ipsec_process_cpu_group s sa ips m)

  -- `free_pkts(pg->m + k, pg->cnt - k)`, if there are such packets.
  free_rest : State D × List Mbuf → State D
  unfolding free_pkts
  free_rest (s, rest) =
      if length rest == 0
      then s
      else record s { w = record s.w { freed = free_pkts rest s.w.freed } }

  module _ (fill_ipsec_session : FillSession) where
    session_of : Store → ℕ → Session
    session_of store ptr =
        let sa = store (ipsec_mask_saptr ptr) in
        if has_fallback_flag ptr then sa.fallback else sa.primary

    -- A session that has no handle yet is created first.
    ensure_session : Store → ℕ → Bool × Store
    unfolding session_of
    ensure_session store ptr = elim (session_of store ptr).ses [
      | some h ↦ (true, store)
      | none ↦ fill_ipsec_session (ipsec_mask_saptr ptr) (has_fallback_flag ptr) store
    ]

    process_group : State D → ℕ → List Mbuf → Option (State D × List Mbuf)
    unfolding session_of ensure_session process_by
    process_group s ptr m =
        let addr = ipsec_mask_saptr ptr in
        let (ok, store') = ensure_session s.store ptr in
        let s' = record s { store = store' } in
        let ips = session_of store' ptr in
        if addr == 0
        then some (s, m)
        else if not ok
        then some (s', m)
        else process_by ips.action s' (store' addr) ips m

    -- The loop over the groups of `pkts`.
    process_groups : List Mbuf → List Group → State D → Option (State D)
    unfolding process_group free_rest
    process_groups pkts [] s = some s
    process_groups pkts (g ∷ gs) s = elim (process_group s g.id (take g.cnt (drop g.m pkts))) [
      | none ↦ none
      | some r ↦ process_groups pkts gs (free_rest r)
    ]

    -- `saptr` and `pkts` are the arrays of `trf->ipsec`.
    pub ipsec_process : State D → List ℕ → List Mbuf → Option (State D)
    unfolding process_groups
    ipsec_process s saptr pkts = process_groups pkts (sa_group saptr) s

  -- The loop of ipsec_cqp_process, over the groups of one session each.
  cqp_group : State D → Session × List Mbuf → State D
  unfolding copy_to_trf
  cqp_group s (ss, m) =
      let (good, bad) = lib.process ss m in
      let s' = copy_to_trf s (lib.sa_type ss) good in
      record s' { w = record s'.w { freed = free_pkts bad s'.w.freed } }

  cqp_groups : List (Session × List Mbuf) → State D → State D
  unfolding cqp_group
  cqp_groups [] s = s
  cqp_groups (g ∷ gs) s = cqp_groups gs (cqp_group s g)

  -- `none`: RTE_VERIFY(n == 0) fails, because an op has no session. `n` is unsigned and counts
  -- down by the lengths of the groups.
  pub ipsec_cqp_process : State D → Option (State D)
  unfolding cqp_groups
  ipsec_cqp_process s =
      let (cop, qs', w') = ctx_dequeue pmd s.qs s.w (max_pkt_burst + max_pkt_burst) in
      let s' = record s { qs = qs'; w = w'; ip4 = []; ip6 = [] } in
      let groups = (lib.crypto_group cop).0 in
      if length cop == 0
      then some s'
      else if length (grouped groups) == length cop
      then some (cqp_groups groups s')
      else none
