-- ===== src/Process/Conserve.antt =====
-- ipsec_process and ipsec_cqp_process lose no packet.
use ipsec_secgw_old.Prelude.{
  ℕ, ◌+◌, ◌≡◌, refl, ap, ◌∙◌, sym, subst, List, [], ◌∷◌, some, Bool, true, not, ◌==◌, arith, length,
  take, drop, count_if, count_if-append, count_if-empty, Bool-cases, inl, inr,
}
use ipsec_secgw_old.Packet.{Session, Mbuf, free_pkts}
use ipsec_secgw_old.Packet.Tally.{by_id, count_if-all}
use ipsec_secgw_old.CryptoQueue.{Pmd, ctx_dequeue}
use ipsec_secgw_old.CryptoQueue.Table.{AllRoom}
use ipsec_secgw_old.SaGroup.{Group, sa_group}
use ipsec_secgw_old.SaLookup.{ipsec_mask_saptr}
use ipsec_secgw_old.IpsecLib.{RteIpsec, FillSession, grouped}
use ipsec_secgw_old.Process.{
  State, copy_to_trf, free_rest, session_of, ensure_session, process_group, process_groups,
  ipsec_process, cqp_group, cqp_groups, ipsec_cqp_process,
}
use ipsec_secgw_old.Process.Groups.{in_groups, sa_group-in_groups}
use ipsec_secgw_old.Process.Held.{held_by, Steps, copy_to_trf-held_by}
use ipsec_secgw_old.Process.Steps.{process_by-Steps}

module _ {D : Type 0} (pmd : Pmd D) (lib : RteIpsec) (q : ℕ → Bool) where
  free_rest-held_by :
      (s : State D) (rest : List Mbuf)
      → (held_by q (free_rest pmd lib (s, rest)) ≡ held_by q s + count_if (by_id q) rest)
        × ((free_rest pmd lib (s, rest)).qs ≡ s.qs)
  unfolding free_rest free_pkts
  free_rest-held_by s rest =
      grind (arith, count_if-append (by_id q) s.w.freed.mbufs rest, count_if-empty (by_id q) rest)

  module _ (fill_ipsec_session : FillSession) where
    process_group-Steps :
        (s : State D) (ptr : ℕ) (ms : List Mbuf)
        → AllRoom s.qs.tbl
        → Steps pmd lib q s ms (process_group pmd lib fill_ipsec_session s ptr ms)
    unfolding process_group
    process_group-Steps s ptr ms h =
        let addr = ipsec_mask_saptr ptr in
        let (ok, store') = ensure_session pmd lib fill_ipsec_session s.store ptr in
        let s' : State D = record s { store = store' } in
        let ips = session_of pmd lib fill_ipsec_session store' ptr in
        elim (Bool-cases (addr == 0)) [
          | inl e ↦ rw (e, process_group) ((s, ms), refl, h, refl)
          | inr e ↦ elim (Bool-cases (not ok)) [
            | inl f ↦ rw (e, f, process_group) ((s', ms), refl, h, refl)
            | inr f ↦
                rw (e, f, process_group)
                  (process_by-Steps pmd lib q ips.action s' (store' addr) ips ms h)
          ]
        ]

    process_groups-held_by :
        (pkts : List Mbuf) (gs : List Group) (s : State D)
        → AllRoom s.qs.tbl
        → (r : State D) × (process_groups pmd lib fill_ipsec_session pkts gs s ≡ some r)
          × AllRoom r.qs.tbl
          × (held_by q r ≡ held_by q s + in_groups (by_id q) pkts gs)
    unfolding process_groups
    process_groups-held_by pkts [] s h = (s, refl, h, omega arith)
    process_groups-held_by pkts (g ∷ gs) s h =
        let ms = take g.cnt (drop g.m pkts) in
        let ((s', rest), e, room, kept) = process_group-Steps s g.id ms h in
        let (freed, same) = free_rest-held_by s' rest in
        let (r, e', room', kept') =
          process_groups-held_by pkts gs (free_rest pmd lib (s', rest))
            (subst (λ qs. AllRoom qs.tbl) (sym same) room) in
        rw (e, process_groups) (r, e', room', omega (arith, kept, kept', freed))

    -- With a pointer for each packet and room in every buffer, ipsec_process ends, leaves room in
    -- every buffer, and every packet of the burst is then accepted by a device, waiting for one,
    -- freed, or handed on, exactly once, whatever sessions can be created and whatever the devices
    -- take.
    pub ipsec_process-conserves :
        (s : State D) (saptr : List ℕ) (pkts : List Mbuf)
        → length saptr ≡ length pkts
        → AllRoom s.qs.tbl
        → (r : State D) × (ipsec_process pmd lib fill_ipsec_session s saptr pkts ≡ some r)
          × AllRoom r.qs.tbl
          × (held_by q r ≡ held_by q s + count_if (by_id q) pkts)
    unfolding ipsec_process
    ipsec_process-conserves s saptr pkts e h =
        let (r, done, room, kept) = process_groups-held_by pkts (sa_group saptr) s h in
        (
          r,
          done,
          room,
          kept ∙ ap (λ n. held_by q s + n) (sa_group-in_groups (by_id q) pkts saptr e),
        )

  cqp_groups-held_by :
      (gs : List (Session × List Mbuf)) (s : State D)
      → held_by q (cqp_groups pmd lib gs s) ≡ held_by q s + count_if (by_id q) (grouped gs)
  unfolding cqp_groups cqp_group free_pkts
  cqp_groups-held_by [] s = omega arith
  cqp_groups-held_by ((ss, m) ∷ gs) s =
      let (good, bad) = lib.process ss m in
      let handed = copy_to_trf pmd lib s (lib.sa_type ss) good in
      omega (
        arith,
        cqp_groups-held_by gs (cqp_group pmd lib s (ss, m)),
        copy_to_trf-held_by pmd lib q s (lib.sa_type ss) good,
        count_if-append (by_id q) handed.w.freed.mbufs bad,
        count_if-append (by_id q) m (grouped gs),
        lib.process_lem ss q m,
      )

  -- Where every op that comes back has a session, ipsec_cqp_process does not stop, and the packets
  -- that came back are added, each exactly once, to those that the context holds after the dequeue
  -- and to the traffic, which starts empty.
  pub ipsec_cqp_process-conserves :
      (s : State D)
      → (lib.crypto_group (ctx_dequeue pmd s.qs s.w 64).0).1 ≡ []
      → let (cop, qs', w') = ctx_dequeue pmd s.qs s.w 64 in
        (r : State D) × (ipsec_cqp_process pmd lib s ≡ some r)
        × (held_by q r
            ≡ held_by q (record s { qs = qs'; w = w'; ip4 = []; ip6 = [] })
              + count_if (by_id q) cop)
  unfolding ipsec_cqp_process
  ipsec_cqp_process-conserves s h =
      let (cop, qs', w') = ctx_dequeue pmd s.qs s.w 64 in
      let s' : State D = record s { qs = qs'; w = w'; ip4 = []; ip6 = [] } in
      let groups = (lib.crypto_group cop).0 in
      let all = ap (count_if (by_id (λ i. true))) h in
      let mine = ap (count_if (by_id q)) h in
      elim (Bool-cases (length cop == 0)) [
        | inl e ↦ rw (e, ipsec_cqp_process) (s', refl, grind (arith, count_if-empty (by_id q) cop))
        | inr e ↦
            let lengths : (length (grouped groups) == length cop) ≡ true = ground (
              arith,
              lib.crypto_group_lem (λ i. true) cop,
              all,
              count_if-all (grouped groups),
              count_if-all cop,
            ) in
            rw (e, lengths, ipsec_cqp_process)
              (
                cqp_groups pmd lib groups s',
                refl,
                omega (arith, cqp_groups-held_by groups s', lib.crypto_group_lem q cop, mine),
              )
      ]
