-- ===== src/SaLookup.antt =====
-- The SAs of a burst: ipsec_mask_saptr of ipsec.h, inbound_sa_check, inbound_sa_lookup and
-- outbound_sa_lookup of sa.c. A pointer to an SA is its address; the lowest bit of an address is
-- free, since an SA is aligned, and marks that the fallback session is to be used. NULL is 0.
pub mod Pointers
use ipsec_secgw_old.Prelude.{
  ℕ, ◌+◌, ◌-◌, ◌%◌, List, [], ◌∷◌, Option, none, some, Bool, false, ◌==◌, ◌&&◌, not, ltb, get_elem?,
  map, if◌then◌else◌,
}
use ipsec_secgw_old.Packet.{Mbuf, Sa, SaCtx}
use ipsec_secgw_old.Sad.{IpsecSad, IpsecSadCache, sad_lookup}

-- IPSEC_SA_OFFLOAD_FALLBACK_FLAG is 1.
pub ipsec_mask_saptr : ℕ → ℕ
ipsec_mask_saptr ptr = ptr - ptr % 2

pub has_fallback_flag : ℕ → Bool
has_fallback_flag ptr = ptr % 2 == 1

-- `sa[sa_idx]` is read with no test; past the end of the array the model answers 0.
pub inbound_sa_check : SaCtx → Mbuf → ℕ → Bool
inbound_sa_check sa_ctx m sa_idx = elim m.priv_sa [
  | none ↦ false
  | some sa ↦ elim (get_elem? sa_ctx.sa sa_idx) [ none ↦ false | some rule ↦ rule.spi == sa.spi ]
]

-- MBUF_NO_SEC_OFFLOAD(m) && sa->fallback_sessions > 0
abbrev pub needs_fallback : Mbuf → Sa → Bool
needs_fallback m sa = not m.rx_sec_offload && ltb 0 sa.fallback_sessions

-- The loop over `sa_arr`. Setting the bit of an aligned address adds 1.
mark_fallback : Option Sa → Mbuf → ℕ
mark_fallback none m = 0
mark_fallback (some sa) m = if needs_fallback m sa then sa.addr + (1 - sa.addr % 2) else sa.addr

mark_all : List (Option Sa) → List Mbuf → List ℕ
unfolding mark_fallback
mark_all (sa ∷ sas) (m ∷ ms) = mark_fallback sa m ∷ mark_all sas ms
mark_all _ _ = []

pub inbound_sa_lookup : IpsecSad → IpsecSadCache → List Mbuf → List ℕ × IpsecSadCache
inbound_sa_lookup sad cache pkts =
    let (sas, cache') = sad_lookup sad cache pkts in (mark_all sas pkts, cache')

-- `&sa_ctx->sa[sa_idx[i]]`; past the end of the array the model gives NULL.
address_at : SaCtx → ℕ → ℕ
address_at sa_ctx i = elim (get_elem? sa_ctx.sa i) [ none ↦ 0 | some sa ↦ sa.addr ]

pub outbound_sa_lookup : SaCtx → List ℕ → List ℕ
unfolding address_at
outbound_sa_lookup sa_ctx sa_idx = map (address_at sa_ctx) sa_idx
