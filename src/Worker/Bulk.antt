-- ===== src/Worker/Bulk.antt =====
-- check_sp_bulk and check_sp_sa_bulk of ipsec_worker.c: the security policies of a burst.
-- The packets of a `struct traffic_type` are listed with their `data`, the offset of the next
-- protocol field. Packets that stay are moved to the front of the array that is being read, never
-- past the read index, so what stays is a list of its own.
pub mod Agree
pub mod Inbound
use ipsec_secgw_old.Prelude.{
  ℕ, ◌-◌, List, [], ◌∷◌, ◌++◌, Option, none, some, Bool, true, false, ◌==◌, if◌then◌else◌,
  get_elem?, map,
}
use ipsec_secgw_old.Packet.{Mbuf, Sa, SaCtx, Freed, free_pkts, u32}
use ipsec_secgw_old.Worker.Policy.{Acl, discard, bypass}

-- What becomes of one packet of a burst.
pub data Verdict : Type 0 where
  drop keep : Verdict
  protect : ℕ → Verdict

-- Packets that stay, packets for IPsec with their `res`, and the packets freed.
pub record Split : Type 0 where
  pub ip : List Mbuf
  pub ipsec : List (Mbuf × ℕ)
  pub freed : Freed

unfoldable pub place : Verdict → Mbuf → Split → Split
unfolding free_pkts
place drop m s = record s { freed = free_pkts (m ∷ []) s.freed }
place keep m s = record s { ip = s.ip ++ (m ∷ []) }
place (protect i) m s = record s { ipsec = s.ipsec ++ ((m, i) ∷ []) }

-- The loop, by a verdict on each packet.
unfoldable pub place_all : (Mbuf → ℕ → Verdict) → List (Mbuf × ℕ) → Split → Split
unfolding place
place_all verdict [] s = s
place_all verdict ((m, nlp) ∷ rest) s = place_all verdict rest (place (verdict m nlp) m s)

unfoldable pub sp_verdict : Acl → Mbuf → ℕ → Verdict
sp_verdict acl m nlp =
    let res = u32 (acl m nlp) in
    if res == discard then drop else if res == bypass then keep else protect (res - 1)

-- `ip` are the packets to check, and `ipsec` and `freed` what there is already.
unfoldable pub check_sp_bulk : Option Acl → List (Mbuf × ℕ) → List (Mbuf × ℕ) → Freed → Split
unfolding sp_verdict place_all
check_sp_bulk none ip ipsec freed = record { ip = map (λ x. x.0) ip; ipsec = ipsec; freed = freed }
check_sp_bulk (some acl) ip ipsec freed =
    place_all (sp_verdict acl) ip (record { ip = []; ipsec = ipsec; freed = freed })

-- The SA of the packet against the one that the rule names. The code reads `sa[res - 1]` with no
-- test against `nb_sa`; past the end of the array the model drops the packet.
sa_verdict : SaCtx → Option Sa → ℕ → Verdict
sa_verdict sa_ctx none i = drop
sa_verdict sa_ctx (some sa) i = elim (get_elem? sa_ctx.sa i) [
  | none ↦ drop
  | some rule ↦ if sa.spi == rule.spi then keep else drop
]

pub sp_sa_verdict : SaCtx → Acl → Mbuf → ℕ → Verdict
unfolding sa_verdict
sp_sa_verdict sa_ctx acl m nlp =
    let res = u32 (acl m nlp) in
    if res == discard
    then drop
    else if res == bypass
    then keep
    else sa_verdict sa_ctx m.sec_sa (res - 1)

pub check_sp_sa_bulk : Option Acl → SaCtx → List (Mbuf × ℕ) → Freed → Split
unfolding sp_sa_verdict place_all
check_sp_sa_bulk none sa_ctx ip freed = record { ip = map (λ x. x.0) ip; ipsec = []; freed = freed }
check_sp_sa_bulk (some acl) sa_ctx ip freed =
    place_all (sp_sa_verdict sa_ctx acl) ip (record { ip = []; ipsec = []; freed = freed })
