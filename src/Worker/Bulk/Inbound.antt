-- ===== src/Worker/Bulk/Inbound.antt =====
-- The inbound check of a burst beside that of a single event.
use ipsec_secgw_old.Prelude.{
  ℕ, ◌-◌, ◌<◌, ◌≡◌, ◌≢◌, ◌⊎◌, ◌↔◌, Option, none, some, true, false, ◌==◌, if◌then◌else◌, arith,
  Bool-cases, inl, inr,
}
use ipsec_secgw_old.Packet.{Mbuf, Sa, SaCtx, u32}
use ipsec_secgw_old.Worker.Classify.{process_ipsec_get_pkt_type}
use ipsec_secgw_old.Worker.Policy.{Acl, check_sp, discard, bypass}
use ipsec_secgw_old.Worker.Event.{IpsecCtx, policy_of, inbound_sa_matches, inbound_admits}
use ipsec_secgw_old.Worker.Bulk.{keep, sa_verdict, sp_sa_verdict}

-- Below `nb_sa`, the check of a burst for the SA that a packet carries is that of a single event:
-- the SPI must be that of the SA which the rule names.
sa_verdict-keeps :
    (sa_ctx : SaCtx) (o : Option Sa) (i : ℕ)
    → i < sa_ctx.nb_sa
    → (sa_verdict sa_ctx o i ≡ keep) ↔ (inbound_sa_matches sa_ctx o i ≡ true)
unfolding sa_verdict inbound_sa_matches
sa_verdict-keeps sa_ctx none i h = (λ e. ground arith, λ e. ground arith)
sa_verdict-keeps sa_ctx (some sa) i h = (λ e. ground arith, λ e. ground arith)

-- A rule result that names an SA in use, or is DISCARD or BYPASS.
abbrev pub InUse : SaCtx → ℕ → Type 0
InUse sa_ctx res = (res ≡ discard) ⊎ (res ≡ bypass) ⊎ ((res ≢ discard) × (res - 1 < sa_ctx.nb_sa))

-- The check of an event, for a plain IPv4 packet that inline processing did not fail.
inbound_admits-ipv4 :
    (ctx : IpsecCtx) (acl : Acl) (m : Mbuf)
    → ctx.sp4_ctx ≡ some acl
    → m.ipv4_hdr ≡ true
    → m.tunnel_esp ≡ false
    → m.rx_sec_offload_failed ≡ false
    → (u32 (acl m 23) ≢ discard)
    → (u32 (acl m 23) ≢ bypass)
    → inbound_admits ctx m
      ≡ inbound_sa_matches ctx.sa_ctx
          (if m.rx_sec_offload then m.sec_sa else none)
          (u32 (acl m 23) - 1)
unfolding inbound_admits policy_of process_ipsec_get_pkt_type check_sp
inbound_admits-ipv4 ctx acl m sp v4 plain ok kept ne = ground arith

sp_sa_verdict-protect :
    (sa_ctx : SaCtx) (acl : Acl) (m : Mbuf) (nlp : ℕ)
    → (u32 (acl m nlp) ≢ discard)
    → (u32 (acl m nlp) ≢ bypass)
    → sp_sa_verdict sa_ctx acl m nlp ≡ sa_verdict sa_ctx m.sec_sa (u32 (acl m nlp) - 1)
unfolding sp_sa_verdict
sp_sa_verdict-protect sa_ctx acl m nlp kept ne = ground arith

-- The rules that settle a packet without its SA do so alike in both checks.
settled :
    (ctx : IpsecCtx) (acl : Acl) (m : Mbuf)
    → ctx.sp4_ctx ≡ some acl
    → m.ipv4_hdr ≡ true
    → m.tunnel_esp ≡ false
    → m.rx_sec_offload_failed ≡ false
    → (u32 (acl m 23) ≡ discard) ⊎ (u32 (acl m 23) ≡ bypass)
    → (sp_sa_verdict ctx.sa_ctx acl m 23 ≡ keep) ↔ (inbound_admits ctx m ≡ true)
unfolding sp_sa_verdict inbound_admits policy_of process_ipsec_get_pkt_type check_sp
settled ctx acl m sp v4 plain ok (inl d) = (λ e. ground arith, λ e. ground arith)
settled ctx acl m sp v4 plain ok (inr b) = (λ e. ground arith, λ e. ground arith)

-- For a plain IPv4 packet that was processed inline without failing, and a rule result that names
-- an SA in use, DISCARD or BYPASS, the check of a burst keeps the packet exactly when the check
-- of a single event admits it.
pub sp_sa_verdict-inbound_admits :
    (ctx : IpsecCtx) (acl : Acl) (m : Mbuf)
    → ctx.sp4_ctx ≡ some acl
    → m.ipv4_hdr ≡ true
    → m.tunnel_esp ≡ false
    → m.rx_sec_offload ≡ true
    → m.rx_sec_offload_failed ≡ false
    → InUse ctx.sa_ctx (u32 (acl m 23))
    → (sp_sa_verdict ctx.sa_ctx acl m 23 ≡ keep) ↔ (inbound_admits ctx m ≡ true)
sp_sa_verdict-inbound_admits ctx acl m sp v4 plain off ok (inl d) =
    settled ctx acl m sp v4 plain ok (inl d)
sp_sa_verdict-inbound_admits ctx acl m sp v4 plain off ok (inr (inl b)) =
    settled ctx acl m sp v4 plain ok (inr b)
sp_sa_verdict-inbound_admits ctx acl m sp v4 plain off ok (inr (inr (kept, below))) =
    let res = u32 (acl m 23) in
    elim (Bool-cases (res == bypass)) [
      | inl b ↦ settled ctx acl m sp v4 plain ok (inr (ground arith))
      | inr b ↦
          let agree = sa_verdict-keeps ctx.sa_ctx m.sec_sa (res - 1) below in
          let vector = sp_sa_verdict-protect ctx.sa_ctx acl m 23 kept (ground arith) in
          let event = inbound_admits-ipv4 ctx acl m sp v4 plain ok kept (ground arith) in
          (λ e. ground (arith, agree.0), λ e. ground (arith, agree.1))
    ]
