-- ===== src/SaLookup/Pointers.antt =====
-- The pointers that inbound_sa_lookup answers.
use ipsec_secgw_old.Prelude.{
  ℕ, suc, ◌%◌, ◌≡◌, refl, ap, List, [], ◌∷◌, Option, none, some, Bool, true, false, map, length,
  arith, Bool-cases, Option-cases, get_elem?, inl, inr,
}
use ipsec_secgw_old.Packet.{Mbuf, Sa, SaCtx}
use ipsec_secgw_old.Sad.{IpsecSad, IpsecSadCache, sad_lookup}
use ipsec_secgw_old.Sad.Length.{length-sad_lookup}
use ipsec_secgw_old.SaLookup.{
  ipsec_mask_saptr, has_fallback_flag, needs_fallback, mark_fallback, mark_all, inbound_sa_lookup,
  outbound_sa_lookup, inbound_sa_check,
}

-- The address of an SA, and 0 for NULL.
abbrev pub address_of : Option Sa → ℕ
address_of none = 0
address_of (some sa) = sa.addr

-- Whether an SA was found for a packet that wants the fallback session.
abbrev pub wants_fallback : Option Sa → Mbuf → Bool
wants_fallback none m = false
wants_fallback (some sa) m = needs_fallback m sa

-- What each packet wants, by the SA found for it.
abbrev pub all_wants : List (Option Sa) → List Mbuf → List Bool
all_wants (o ∷ os) (m ∷ ms) = wants_fallback o m ∷ all_wants os ms
all_wants _ _ = []

-- Every SA in the list lies at an even address.
abbrev pub AllAligned : List (Option Sa) → Type 0
AllAligned [] = Unit {0}
AllAligned (o ∷ os) = (address_of o % 2 ≡ 0) × AllAligned os

mark_fallback_lem :
    (o : Option Sa) (m : Mbuf)
    → address_of o % 2 ≡ 0
    → (ipsec_mask_saptr (mark_fallback o m) ≡ address_of o)
      × (has_fallback_flag (mark_fallback o m) ≡ wants_fallback o m)
unfolding mark_fallback ipsec_mask_saptr has_fallback_flag
mark_fallback_lem none m h = (refl, refl)
mark_fallback_lem (some sa) m h = elim (Bool-cases (needs_fallback m sa)) [
  | inl e ↦ rw e (omega arith, ground arith)
  | inr e ↦ rw e (omega arith, ground arith)
]

mark_all_lem :
    (os : List (Option Sa)) (ms : List Mbuf)
    → length os ≡ length ms
    → AllAligned os
    → (map ipsec_mask_saptr (mark_all os ms) ≡ map address_of os)
      × (map has_fallback_flag (mark_all os ms) ≡ all_wants os ms)
unfolding mark_all
mark_all_lem [] [] e h = (refl, refl)
mark_all_lem [] (m ∷ ms) e h = absurd (omega arith)
mark_all_lem (o ∷ os) [] e h = absurd (omega arith)
mark_all_lem (o ∷ os) (m ∷ ms) e h =
    let (mask, flag) = mark_fallback_lem o m h.0 in
    let (masks, flags) = mark_all_lem os ms (omega arith) h.1 in
    (rw (mask, masks), rw (flag, flags))

length-mark_all :
    (os : List (Option Sa)) (ms : List Mbuf)
    → length os ≡ length ms
    → length (mark_all os ms) ≡ length ms
unfolding mark_all
length-mark_all [] [] e = refl
length-mark_all [] (m ∷ ms) e = absurd (omega arith)
length-mark_all (o ∷ os) [] e = absurd (omega arith)
length-mark_all (o ∷ os) (m ∷ ms) e = ap suc (length-mark_all os ms (omega arith))

-- Where every SA that sad_lookup finds lies at an even address, inbound_sa_lookup answers
-- pointers whose masked values are the addresses of these SAs, in order, and whose lowest bits
-- mark exactly the packets that no device processed and whose SA has a fallback session.
pub inbound_sa_lookup-marks :
    (sad : IpsecSad) (cache : IpsecSadCache) (pkts : List Mbuf)
    → AllAligned (sad_lookup sad cache pkts).0
    → let found = (sad_lookup sad cache pkts).0 in
      let ptrs = (inbound_sa_lookup sad cache pkts).0 in
      (map ipsec_mask_saptr ptrs ≡ map address_of found)
      × (map has_fallback_flag ptrs ≡ all_wants found pkts)
unfolding inbound_sa_lookup
inbound_sa_lookup-marks sad cache pkts h =
    mark_all_lem (sad_lookup sad cache pkts).0 pkts (length-sad_lookup sad cache pkts) h

pub length-outbound_sa_lookup :
    (sa_ctx : SaCtx) (sa_idx : List ℕ) → length (outbound_sa_lookup sa_ctx sa_idx) ≡ length sa_idx
unfolding outbound_sa_lookup
length-outbound_sa_lookup sa_ctx [] = refl
length-outbound_sa_lookup sa_ctx (i ∷ is) = ap suc (length-outbound_sa_lookup sa_ctx is)

pub length-inbound_sa_lookup :
    (sad : IpsecSad) (cache : IpsecSadCache) (pkts : List Mbuf)
    → length (inbound_sa_lookup sad cache pkts).0 ≡ length pkts
unfolding inbound_sa_lookup
length-inbound_sa_lookup sad cache pkts =
    let found = (sad_lookup sad cache pkts).0 in
    length-mark_all found pkts (length-sad_lookup sad cache pkts)

-- A packet that passes inbound_sa_check was processed by an SA with the SPI of the rule's SA.
pub inbound_sa_check-inv :
    (sa_ctx : SaCtx) (m : Mbuf) (i : ℕ)
    → inbound_sa_check sa_ctx m i ≡ true
    → (sa : Sa) × (rule : Sa) × (m.priv_sa ≡ some sa)
      × (get_elem? sa_ctx.sa i ≡ some rule)
      × (rule.spi ≡ sa.spi)
unfolding inbound_sa_check
inbound_sa_check-inv sa_ctx m i h = elim (Option-cases m.priv_sa) [
  | inl e ↦ absurd (ground arith)
  | inr (sa, e) ↦ elim (Option-cases (get_elem? sa_ctx.sa i)) [
    | inl f ↦ absurd (ground arith)
    | inr (rule, f) ↦ (sa, rule, e, f, ground arith)
  ]
]

pub inbound_sa_check-matches :
    (sa_ctx : SaCtx) (m : Mbuf) (i : ℕ) (sa rule : Sa)
    → m.priv_sa ≡ some sa
    → get_elem? sa_ctx.sa i ≡ some rule
    → rule.spi ≡ sa.spi
    → inbound_sa_check sa_ctx m i ≡ true
unfolding inbound_sa_check
inbound_sa_check-matches sa_ctx m i sa rule e f same = ground arith
