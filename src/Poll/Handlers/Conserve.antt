-- ===== src/Poll/Handlers/Conserve.antt =====
-- The handlers of the poll mode lose no packet, with ipsec_process and with the legacy path.
use ipsec_secgw_old.Prelude.{
  ℕ, suc, ◌+◌, ◌≤◌, ◌≡◌, refl, ap, ◌∙◌, List, [], ◌∷◌, ◌++◌, Option, some, Bool, true, false, map,
  arith, length, length-append, count_if, count_if-append,
}
use ipsec_secgw_old.Packet.{Mbuf, SaCtx, Freed, free_pkts}
use ipsec_secgw_old.Packet.Tally.{by_id, packets}
use ipsec_secgw_old.CryptoQueue.Table.{AllRoom}
use ipsec_secgw_old.Sad.{IpsecSad, IpsecSadCache}
use ipsec_secgw_old.SaLookup.{inbound_sa_lookup, outbound_sa_lookup}
use ipsec_secgw_old.SaLookup.Pointers.{length-inbound_sa_lookup, length-outbound_sa_lookup}
use ipsec_secgw_old.Process.{State}
use ipsec_secgw_old.Process.Conserve.{ipsec_process-conserves}
use ipsec_secgw_old.Legacy.{Ctx, ipsec_inbound, ipsec_outbound}
use ipsec_secgw_old.Legacy.Inline.{ipsec_inbound-conserves, ipsec_outbound-conserves}
use ipsec_secgw_old.Worker.Policy.{Acl}
use ipsec_secgw_old.Worker.Bulk.Agree.{check_sp_bulk-conserves}
use ipsec_secgw_old.Poll.{
  SpdStats, Poll, Engine, freed_of, with_freed, split46_traffic, sort_by_version, sort_by_first,
  outbound_spd_lookup, process_with, inbound_ipsec, outbound_ipsec, inbound_policies,
}
use ipsec_secgw_old.Poll.Handlers.{
  process_pkts_inbound, process_pkts_inbound_nosp, drop_esp, process_pkts_outbound,
  process_pkts_outbound_nosp,
}
use ipsec_secgw_old.Poll.Agree.{outbound_spd_lookup-check_sp_bulk, outbound_spd_lookup-le}
use ipsec_secgw_old.Poll.Sorting.{
  poll_held, Sorts, split46_traffic-Sorts, sort_by_version-Sorts, sort_by_first-Sorts,
  inbound_policies-held,
}

-- Room in every buffer, and no packet kept for inline processing: the state between bursts.
abbrev pub Idle : {D : Type 0} → Poll D → Type 0
Idle p = AllRoom p.ctx.qs.tbl × (p.ctx.ol_pkts ≡ [])

length-snds : (xs : List (Mbuf × ℕ)) → length (map (λ x. x.1) xs) ≡ length (packets xs)
length-snds [] = refl
length-snds (x ∷ xs) = ap suc (length-snds xs)

length-constant : (i : ℕ) (ms : List Mbuf) → length (map (λ m. i) ms) ≡ length ms
length-constant i [] = refl
length-constant i (m ∷ ms) = ap suc (length-constant i ms)

outbound_spd_lookup-held :
    (q : ℕ → Bool) (sp : Option Acl) (ip ipsec : List (Mbuf × ℕ)) (freed : Freed) (stats : SpdStats)
    → let c = outbound_spd_lookup sp ip ipsec freed stats in
      count_if (by_id q) (packets c.ip)
        + count_if (by_id q) (packets c.ipsec)
        + count_if (by_id q) c.freed.mbufs
      ≡ count_if (by_id q) (packets ip)
        + count_if (by_id q) (packets ipsec)
        + count_if (by_id q) freed.mbufs
outbound_spd_lookup-held q sp ip ipsec freed stats =
    let ((a, b, f), _) = outbound_spd_lookup-check_sp_bulk sp ip ipsec freed stats in
    let no_sas : SaCtx = record { nb_sa = 0; sa = [] } in
    omega (
      arith,
      (check_sp_bulk-conserves (by_id q) sp no_sas ip ipsec freed).0,
      ap (count_if (by_id q)) a,
      ap (λ l. count_if (by_id q) (packets l)) b,
      ap (λ (x : Freed). count_if (by_id q) x.mbufs) f,
    )

length-packets : (xs : List (Mbuf × ℕ)) → length (packets xs) ≡ length xs
length-packets [] = refl
length-packets (x ∷ xs) = ap suc (length-packets xs)

-- The policies send no more packets to IPsec than there are.
protected_few :
    {D : Type 0} (sp4 sp6 : Option Acl) (p : Poll D) (freed : Freed)
    → let c4 = outbound_spd_lookup sp4 p.ip4 [] freed p.spd4 in
      let c6 = outbound_spd_lookup sp6 p.ip6 c4.ipsec c4.freed p.spd6 in
      length c6.ipsec ≤ length p.ip4 + length p.ip6
protected_few sp4 sp6 p freed =
    let c4 = outbound_spd_lookup sp4 p.ip4 [] freed p.spd4 in
    let c6 = outbound_spd_lookup sp6 p.ip6 c4.ipsec c4.freed p.spd6 in
    let n4 = outbound_spd_lookup-le sp4 p.ip4 [] freed p.spd4 in
    let n6 = outbound_spd_lookup-le sp6 p.ip6 c4.ipsec c4.freed p.spd6 in omega (arith, n4, n6)

module _ {D : Type 0} (e : Engine D) (q : ℕ → Bool) where
  -- A handler ends with all the packets that it held and those of `ms`.
  abbrev pub Ends : Poll D → List Mbuf → Option (Poll D) → Type 0
  Ends p ms o =
      (r : Poll D) × (o ≡ some r) × (poll_held q r ≡ poll_held q p + count_if (by_id q) ms)

  process_with-Ends :
      (p : Poll D) (saptr : List ℕ) (ms : List Mbuf)
      → AllRoom p.ctx.qs.tbl
      → length saptr ≡ length ms
      → Ends p ms (process_with e p saptr ms)
  unfolding process_with
  process_with-Ends p saptr ms h n =
      let c = p.ctx in
      let s : State D = record { qs = c.qs; w = c.w; store = c.store; ip4 = p.ip4; ip6 = p.ip6 } in
      let (s', done, room, kept) =
        ipsec_process-conserves e.pmd e.lib q e.fill_session s saptr ms n h in
      rw (done, process_with)
        (
          record p {
            ctx = record c { qs = s'.qs; w = s'.w; store = s'.store };
            ip4 = s'.ip4;
            ip6 = s'.ip6;
          },
          refl,
          omega (arith, kept),
        )

  inbound_ipsec-Ends :
      (enable : Bool) (sort : List Mbuf → Poll D → Poll D) (sad : IpsecSad) (cache : IpsecSadCache)
      (p : Poll D) (ms : List Mbuf)
      → Idle p
      → length ms ≤ 32
      → ((c : Ctx D) → Sorts q sort (record p { ctx = c }))
      → Ends p ms (inbound_ipsec e enable sort sad cache p ms)
  unfolding inbound_ipsec
  inbound_ipsec-Ends true sort sad cache p ms (room, none_kept) le sorts =
      process_with-Ends p (inbound_sa_lookup sad cache ms).0 ms room
        (length-inbound_sa_lookup sad cache ms)
  inbound_ipsec-Ends false sort sad cache p ms (room, none_kept) le sorts =
      let (out, c', _) = ipsec_inbound e.pmd e.create_session e.fn e.post sad cache p.ctx ms 32 in
      let (_, _, _, _, kept) =
        ipsec_inbound-conserves e.pmd e.create_session e.fn e.post q sad cache p.ctx ms 32 none_kept
          room le in
      (sort out (record p { ctx = c' }), refl, omega (arith, sorts c' out, kept))

  outbound_ipsec-Ends :
      (enable : Bool) (sort : List Mbuf → Poll D → Poll D) (sa_ctx : SaCtx) (p : Poll D)
      (ms : List Mbuf) (res : List ℕ)
      → Idle p
      → length ms ≤ 32
      → length res ≡ length ms
      → ((c : Ctx D) → Sorts q sort (record p { ctx = c }))
      → Ends p ms (outbound_ipsec e enable sort sa_ctx p ms res)
  unfolding outbound_ipsec
  outbound_ipsec-Ends true sort sa_ctx p ms res (room, none_kept) le n sorts =
      process_with-Ends p (outbound_sa_lookup sa_ctx res) ms room
        (length-outbound_sa_lookup sa_ctx res ∙ n)
  outbound_ipsec-Ends false sort sa_ctx p ms res (room, none_kept) le n sorts =
      let (out, c') = ipsec_outbound e.pmd e.create_session e.fn e.post sa_ctx p.ctx ms res 32 in
      let (_, _, _, _, kept) =
        ipsec_outbound-conserves e.pmd e.create_session e.fn e.post q sa_ctx p.ctx ms res 32
          none_kept n room le in
      (sort out (record p { ctx = c' }), refl, omega (arith, sorts c' out, kept))

  -- With room in every buffer, no packet kept for inline processing and at most 32 IPsec packets,
  -- process_pkts_inbound and process_pkts_inbound_nosp end, with ipsec_process and with the legacy
  -- path, and every packet of the burst is then plain traffic, accepted by a device, waiting for
  -- one, kept, or freed, exactly once.
  pub process_pkts_inbound-conserves :
      (enable : Bool) (sp4 sp6 : Option Acl) (sa_ctx : SaCtx) (sad : IpsecSad)
      (cache : IpsecSadCache) (p : Poll D) (esp : List Mbuf)
      → Idle p
      → length esp ≤ 32
      → Ends p esp (process_pkts_inbound e enable sp4 sp6 sa_ctx sad cache p esp)
        × Ends p esp (process_pkts_inbound_nosp e enable sad cache p esp)
  unfolding process_pkts_inbound process_pkts_inbound_nosp
  process_pkts_inbound-conserves enable sp4 sp6 sa_ctx sad cache p esp idle le =
      let (r, done, kept) =
        inbound_ipsec-Ends enable split46_traffic sad cache p esp idle le
          (λ c. split46_traffic-Sorts q (record p { ctx = c })) in
      let n4 = length p.ip4 in
      let n6 = length p.ip6 in
      (
        rw (done, process_pkts_inbound)
            (
              inbound_policies e sp4 sp6 sa_ctx n4 n6 r,
              refl,
              inbound_policies-held e q sp4 sp6 sa_ctx n4 n6 r ∙ kept,
            ),
        inbound_ipsec-Ends enable sort_by_version sad cache p esp idle le
            (λ c. sort_by_version-Sorts q (record p { ctx = c })),
      )

  -- With room in every buffer, no packet kept for inline processing and at most 32 plain packets,
  -- process_pkts_outbound and process_pkts_outbound_nosp end, with ipsec_process and with the legacy
  -- path, and every packet of the burst, of the plain traffic and of the IPsec packets that came in,
  -- is then plain traffic, accepted by a device, waiting for one, kept, or freed, exactly once.
  pub process_pkts_outbound-conserves :
      (enable : Bool) (sp4 sp6 : Option Acl) (sa_ctx : SaCtx) (single_sa_idx : ℕ) (p : Poll D)
      (esp : List Mbuf)
      → Idle p
      → length p.ip4 + length p.ip6 ≤ 32
      → Ends p esp (process_pkts_outbound e enable sp4 sp6 sa_ctx p esp)
        × Ends p esp (process_pkts_outbound_nosp e enable single_sa_idx sa_ctx p esp)
  unfolding process_pkts_outbound process_pkts_outbound_nosp drop_esp freed_of with_freed free_pkts
  process_pkts_outbound-conserves enable sp4 sp6 sa_ctx single_sa_idx p esp idle le =
      let p₀ = drop_esp e enable p esp in
      let f₀ = p₀.ctx.w.freed in
      let c4 = outbound_spd_lookup sp4 p.ip4 [] f₀ p.spd4 in
      let c6 = outbound_spd_lookup sp6 p.ip6 c4.ipsec c4.freed p.spd6 in
      let p₁ : Poll D = record (with_freed p₀ c6.freed) {
        ip4 = c4.ip;
        ip6 = c6.ip;
        spd4 = c4.stats;
        spd6 = c6.stats;
      } in
      let tally4 = λ (q' : ℕ → Bool). outbound_spd_lookup-held q' sp4 p.ip4 [] f₀ p.spd4 in
      let tally6 =
        λ (q' : ℕ → Bool). outbound_spd_lookup-held q' sp6 p.ip6 c4.ipsec c4.freed p.spd6 in
      let dropped = count_if-append (by_id q) p.ctx.w.freed.mbufs esp in
      let few = protected_few sp4 sp6 p f₀ in
      let (r, done, kept) =
        outbound_ipsec-Ends enable sort_by_version sa_ctx p₁ (packets c6.ipsec)
          (map (λ x. x.1) c6.ipsec) idle (omega (arith, few, length-packets c6.ipsec))
          (length-snds c6.ipsec) (λ c. sort_by_version-Sorts q (record p₁ { ctx = c })) in
      let pkts = packets p.ip4 ++ packets p.ip6 in
      let p₂ : Poll D = record p₀ { ip4 = []; ip6 = [] } in
      let (r', done', kept') =
        outbound_ipsec-Ends enable sort_by_first sa_ctx p₂ pkts (map (λ m. single_sa_idx) pkts) idle
          (omega (
            arith,
            length-append (packets p.ip4) (packets p.ip6),
            length-packets p.ip4,
            length-packets p.ip6,
          ))
          (length-constant single_sa_idx pkts)
          (λ c. sort_by_first-Sorts q (record p₂ { ctx = c }) refl refl) in
      (
        (r, done, omega (arith, kept, tally4 q, tally6 q, dropped)),
        (
          r',
          done',
          omega (arith, kept', dropped, count_if-append (by_id q) (packets p.ip4) (packets p.ip6)),
        ),
      )
