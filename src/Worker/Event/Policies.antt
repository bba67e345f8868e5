-- ===== src/Worker/Event/Policies.antt =====
-- The security policy that a packet falls under, stated apart from the code that finds it.
use ipsec_secgw_old.Prelude.{
  ℕ, ◌-◌, ◌≤◌, ◌≡◌, ◌≢◌, inl, inr, refl, true, false, Option, none, some, arith, ◌==◌,
  if◌then◌else◌, Bool-cases,
}
use ipsec_secgw_old.Packet.{Mbuf, u32}
use ipsec_secgw_old.Worker.Classify.{process_ipsec_get_pkt_type}
use ipsec_secgw_old.Worker.Policy.{Acl, check_sp, discard, bypass}
use ipsec_secgw_old.Worker.Event.{IpsecCtx, policy_of}

-- The packet is plain IPv4 or IPv6, and the rules of its family, read at its next protocol field
-- (offset 23 or 20 of the frame), give `res`.
pub data PolicyIs (ctx : IpsecCtx) (pkt : Mbuf) (res : ℕ) : Type 0 where
  ipv4 :
      (acl : Acl)
      → pkt.ipv4_hdr ≡ true
      → pkt.tunnel_esp ≡ false
      → ctx.sp4_ctx ≡ some acl
      → u32 (acl pkt 23) ≡ res
      → PolicyIs ctx pkt res
  ipv6 :
      (acl : Acl)
      → pkt.ipv4_hdr ≡ false
      → pkt.ipv6_hdr ≡ true
      → pkt.tunnel_esp ≡ false
      → ctx.sp6_ctx ≡ some acl
      → u32 (acl pkt 20) ≡ res
      → PolicyIs ctx pkt res

abbrev pub sa_idx_of : ℕ → ℕ
sa_idx_of res = if res == bypass then bypass else res - 1

check_sp-inv :
    (sp : Option Acl) (pkt : Mbuf) (nlp idx : ℕ)
    → check_sp sp pkt nlp ≡ some idx
    → (acl : Acl) × (sp ≡ some acl)
      × (u32 (acl pkt nlp) ≢ discard)
      × (idx ≡ sa_idx_of (u32 (acl pkt nlp)))
unfolding check_sp
check_sp-inv none pkt nlp idx h = absurd (ground arith)
check_sp-inv (some acl) pkt nlp idx h = (acl, refl, ground arith, ground arith)

-- The three ways in which a packet can fall under a policy, or under none.
data TypeCases (ctx : IpsecCtx) (pkt : Mbuf) : Type 0 where
  is_ipv4 :
      pkt.ipv4_hdr ≡ true
      → pkt.tunnel_esp ≡ false
      → policy_of ctx pkt (process_ipsec_get_pkt_type pkt) ≡ check_sp ctx.sp4_ctx pkt 23
      → TypeCases ctx pkt
  is_ipv6 :
      pkt.ipv4_hdr ≡ false
      → pkt.ipv6_hdr ≡ true
      → pkt.tunnel_esp ≡ false
      → policy_of ctx pkt (process_ipsec_get_pkt_type pkt) ≡ check_sp ctx.sp6_ctx pkt 20
      → TypeCases ctx pkt
  is_other :
      policy_of ctx pkt (process_ipsec_get_pkt_type pkt) ≡ none
      → ¬ ((pkt.ipv4_hdr ≡ true) × (pkt.tunnel_esp ≡ false))
      → ¬ ((pkt.ipv4_hdr ≡ false) × (pkt.ipv6_hdr ≡ true) × (pkt.tunnel_esp ≡ false))
      → TypeCases ctx pkt

type_cases : (ctx : IpsecCtx) (pkt : Mbuf) → TypeCases ctx pkt
unfolding policy_of process_ipsec_get_pkt_type
type_cases ctx pkt = elim (Bool-cases pkt.tunnel_esp) [
  | inl esp ↦ is_other (ground arith) (λ h. ground arith) (λ h. ground arith)
  | inr plain ↦ elim (Bool-cases pkt.ipv4_hdr) [
    | inl v4 ↦ is_ipv4 v4 plain (ground arith)
    | inr not4 ↦ elim (Bool-cases pkt.ipv6_hdr) [
      | inl v6 ↦ is_ipv6 not4 v6 plain (ground arith)
      | inr not6 ↦ is_other (ground arith) (λ h. ground arith) (λ h. ground arith)
    ]
  ]
]

pub policy_of-inv :
    (ctx : IpsecCtx) (pkt : Mbuf) (idx : ℕ)
    → policy_of ctx pkt (process_ipsec_get_pkt_type pkt) ≡ some idx
    → (res : ℕ) × PolicyIs ctx pkt res × (res ≢ discard) × (idx ≡ sa_idx_of res)
policy_of-inv ctx pkt idx h = elim (type_cases ctx pkt) [
  | is_ipv4 v4 plain e ↦
      let (acl, sp, kept, i) = check_sp-inv ctx.sp4_ctx pkt 23 idx (rw e at h) in
      (u32 (acl pkt 23), PolicyIs.ipv4 acl v4 plain sp refl, kept, i)
  | is_ipv6 not4 v6 plain e ↦
      let (acl, sp, kept, i) = check_sp-inv ctx.sp6_ctx pkt 20 idx (rw e at h) in
      (u32 (acl pkt 20), PolicyIs.ipv6 acl not4 v6 plain sp refl, kept, i)
  | is_other e _ _ ↦ cc
]

-- A policy that is not to discard gives its index to the code.
pub policy_of_lem :
    (ctx : IpsecCtx) (pkt : Mbuf) (res : ℕ)
    → PolicyIs ctx pkt res
    → res ≢ discard
    → policy_of ctx pkt (process_ipsec_get_pkt_type pkt) ≡ some (sa_idx_of res)
unfolding policy_of process_ipsec_get_pkt_type check_sp
policy_of_lem ctx pkt res (ipv4 acl v4 plain sp e) kept = ground arith
policy_of_lem ctx pkt res (ipv6 acl not4 v6 plain sp e) kept = ground arith

pub PolicyIs-lt : (ctx : IpsecCtx) (pkt : Mbuf) (res : ℕ) → PolicyIs ctx pkt res → res ≤ bypass
PolicyIs-lt ctx pkt res (ipv4 acl _ _ _ e) = omega arith
PolicyIs-lt ctx pkt res (ipv6 acl _ _ _ _ e) = omega arith
