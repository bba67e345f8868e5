-- ===== src/Poll/Sorting.antt =====
-- Packets that come back are sorted into the plain traffic, or freed.
use ipsec_secgw_old.Prelude.{
  ℕ, ◌+◌, ◌-◌, not, ◌≡◌, refl, ap, ◌∙◌, List, [], ◌∷◌, ◌++◌, Option, none, some, Bool, map, arith,
  ◌==◌, count_if, count_if-append, Bool-cases, inl, inr,
}
use ipsec_secgw_old.Packet.{Mbuf, SaCtx, Freed, free_pkts, ip_version}
use ipsec_secgw_old.Packet.Tally.{by_id, packets, count_if-packets}
use ipsec_secgw_old.Legacy.Enqueue.{ctx_held}
use ipsec_secgw_old.Worker.Policy.{Acl}
use ipsec_secgw_old.Poll.{
  SpdStats, Checked, InVerdict, bypassed, discarded, protected, keep_or_free, inbound_sp_verdict,
  inbound_sp_loop, inbound_sp_sa, Poll, Engine, freed_of, with_freed, split46_traffic,
  sort_by_version, sort_by_first, inbound_policies,
}
use ipsec_secgw_old.Poll.Policies.{inbound_sp_sa-admits}

-- The packets of a core: those that its context holds, and its plain traffic.
abbrev pub poll_held : {D : Type 0} → (ℕ → Bool) → Poll D → ℕ
poll_held q p =
    ctx_held q p.ctx + count_if (by_id q) (packets p.ip4) + count_if (by_id q) (packets p.ip6)

packets-unwritten : (ms : List Mbuf) → packets (map (λ x. (x, 0)) ms) ≡ ms
packets-unwritten [] = refl
packets-unwritten (m ∷ ms) = ap (λ l. m ∷ l) (packets-unwritten ms)

module _ {D : Type 0} (q : ℕ → Bool) where
  -- What sorting does: no packet is lost.
  abbrev pub Sorts : (List Mbuf → Poll D → Poll D) → Poll D → Type 0
  Sorts sort p = (ms : List Mbuf) → poll_held q (sort ms p) ≡ poll_held q p + count_if (by_id q) ms

  pub split46_traffic-Sorts : (p : Poll D) → Sorts split46_traffic p
  unfolding split46_traffic freed_of with_freed free_pkts
  split46_traffic-Sorts p [] = omega arith
  split46_traffic-Sorts p (m ∷ ms) = elim (Bool-cases (ip_version m 0 == 4)) [
    | inl e ↦
        rw (e, split46_traffic)
          (omega (
            arith,
            split46_traffic-Sorts (record p { ip4 = p.ip4 ++ ((m, 9) ∷ []) }) ms,
            count_if-packets (by_id q) p.ip4 ((m, 9) ∷ []),
          ))
    | inr e ↦ elim (Bool-cases (ip_version m 0 == 6)) [
      | inl f ↦
          rw (e, f, split46_traffic)
            (omega (
              arith,
              split46_traffic-Sorts (record p { ip6 = p.ip6 ++ ((m, 6) ∷ []) }) ms,
              count_if-packets (by_id q) p.ip6 ((m, 6) ∷ []),
            ))
      | inr f ↦
          rw (e, f, split46_traffic)
            (omega (
              arith,
              split46_traffic-Sorts (with_freed p (free_pkts (m ∷ []) (freed_of p))) ms,
              count_if-append (by_id q) p.ctx.w.freed.mbufs (m ∷ []),
            ))
    ]
  ]

  pub sort_by_version-Sorts : (p : Poll D) → Sorts sort_by_version p
  unfolding sort_by_version
  sort_by_version-Sorts p [] = omega arith
  sort_by_version-Sorts p (m ∷ ms) = elim (Bool-cases (ip_version m 0 == 4)) [
    | inl e ↦
        rw (e, sort_by_version)
          (omega (
            arith,
            sort_by_version-Sorts (record p { ip4 = p.ip4 ++ ((m, 0) ∷ []) }) ms,
            count_if-packets (by_id q) p.ip4 ((m, 0) ∷ []),
          ))
    | inr e ↦
        rw (e, sort_by_version)
          (omega (
            arith,
            sort_by_version-Sorts (record p { ip6 = p.ip6 ++ ((m, 0) ∷ []) }) ms,
            count_if-packets (by_id q) p.ip6 ((m, 0) ∷ []),
          ))
  ]

  -- It overwrites the plain traffic, so there must be none.
  pub sort_by_first-Sorts : (p : Poll D) → p.ip4 ≡ [] → p.ip6 ≡ [] → Sorts sort_by_first p
  unfolding sort_by_first
  sort_by_first-Sorts p e4 e6 [] = omega arith
  sort_by_first-Sorts p e4 e6 (m ∷ ms) =
      let n4 = ap (λ l. count_if (by_id q) (packets l)) e4 in
      let n6 = ap (λ l. count_if (by_id q) (packets l)) e6 in
      let all = ap (count_if (by_id q)) (packets-unwritten ms) in
      elim (Bool-cases (ip_version m 0 == 4)) [
        | inl e ↦ rw (e, sort_by_first) (omega (arith, n4, n6, all))
        | inr e ↦ rw (e, sort_by_first) (omega (arith, n4, n6, all))
      ]

keep_or_free-ipsec :
    (v : InVerdict) (m : Mbuf) (ofs : ℕ) (c : Checked) → (keep_or_free v m ofs c).ipsec ≡ c.ipsec
unfolding keep_or_free
keep_or_free-ipsec bypassed m ofs c = refl
keep_or_free-ipsec discarded m ofs c = refl
keep_or_free-ipsec protected m ofs c = refl

inbound_sp_loop-ipsec :
    (sa_ctx : SaCtx) (acl : Acl) (lim : ℕ) (ip : List (Mbuf × ℕ)) (c : Checked)
    → (inbound_sp_loop sa_ctx acl lim ip c).ipsec ≡ c.ipsec
unfolding inbound_sp_loop keep_or_free
inbound_sp_loop-ipsec sa_ctx acl lim [] c = refl
inbound_sp_loop-ipsec sa_ctx acl lim ((m, ofs) ∷ rest) c =
    let v = inbound_sp_verdict sa_ctx acl (not (lim == 0)) m ofs in
    inbound_sp_loop-ipsec sa_ctx acl (lim - 1) rest (keep_or_free v m ofs c)
    ∙ keep_or_free-ipsec v m ofs c

pub inbound_sp_sa-held :
    (p : Mbuf → Bool) (sp : Option Acl) (sa_ctx : SaCtx) (ip : List (Mbuf × ℕ)) (lim : ℕ)
    (freed : Freed) (stats : SpdStats)
    → let c = inbound_sp_sa sp sa_ctx ip lim freed stats in
      count_if p (packets c.ip) + count_if p c.freed.mbufs
      ≡ count_if p (packets ip) + count_if p freed.mbufs
unfolding inbound_sp_sa
inbound_sp_sa-held p none sa_ctx ip lim freed stats = refl
inbound_sp_sa-held p (some acl) sa_ctx ip lim freed stats =
    let start : Checked = record { ip = []; ipsec = []; freed = freed; stats = stats } in
    omega (
      arith,
      (inbound_sp_sa-admits p acl sa_ctx ip lim freed stats).1,
      ap (λ l. count_if p (packets l)) (inbound_sp_loop-ipsec sa_ctx acl lim ip start),
    )

pub inbound_policies-held :
    {D : Type 0} (e : Engine D) (q : ℕ → Bool) (sp4 sp6 : Option Acl) (sa_ctx : SaCtx) (n4 n6 : ℕ)
    (p : Poll D)
    → poll_held q (inbound_policies e sp4 sp6 sa_ctx n4 n6 p) ≡ poll_held q p
unfolding inbound_policies freed_of with_freed
inbound_policies-held e q sp4 sp6 sa_ctx n4 n6 p =
    let c4 = inbound_sp_sa sp4 sa_ctx p.ip4 n4 p.ctx.w.freed p.spd4 in
    omega (
      arith,
      inbound_sp_sa-held (by_id q) sp4 sa_ctx p.ip4 n4 p.ctx.w.freed p.spd4,
      inbound_sp_sa-held (by_id q) sp6 sa_ctx p.ip6 n6 c4.freed p.spd6,
    )
