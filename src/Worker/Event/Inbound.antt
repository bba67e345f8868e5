-- ===== src/Worker/Event/Inbound.antt =====
-- Which inbound packets process_ipsec_ev_inbound forwards.
use ipsec_secgw_old.Prelude.{
  ℕ, ◌-◌, ◌<◌, ◌≡◌, ◌≢◌, ◌⊎◌, ◌↔◌, inl, inr, refl, true, false, ◌&&◌, Option, none, some, arith,
  get_elem?, ◌==◌, if◌then◌else◌, Bool-cases, Option-cases,
}
use ipsec_secgw_old.Packet.{Mbuf, Sa, SaCtx, Freed}
use ipsec_secgw_old.Worker.Classify.{process_ipsec_get_pkt_type}
use ipsec_secgw_old.Worker.Policy.{discard, bypass}
use ipsec_secgw_old.Worker.Route.{Ports, RouteTable, get_route}
use ipsec_secgw_old.Worker.Event.{
  IpsecCtx, pkt_forwarded, policy_of, inbound_sa_matches, inbound_admits, process_ipsec_ev_inbound,
  forward, drop_pkt_and_exit,
}
use ipsec_secgw_old.Worker.Event.Policies.{PolicyIs, policy_of-inv, policy_of_lem, PolicyIs-lt}

-- Inline processing set an SA, and its SPI is that of the SA that rule `res` names.
pub record Protected (ctx : IpsecCtx) (pkt : Mbuf) (res : ℕ) : Type 0 where
  pub sa : Sa
  pub rule : Sa
  pub processed : pkt.rx_sec_offload ≡ true
  pub sa_set : pkt.sec_sa ≡ some sa
  pub in_use : res - 1 < ctx.sa_ctx.nb_sa
  pub rule_at : get_elem? ctx.sa_ctx.sa (res - 1) ≡ some rule
  pub same_spi : sa.spi ≡ rule.spi

-- Inline processing did not fail, and the policy bypasses the packet, or protects it and it was
-- protected.
pub record Admitted (ctx : IpsecCtx) (pkt : Mbuf) : Type 0 where
  pub res : ℕ
  pub policy : PolicyIs ctx pkt res
  pub kept : res ≢ discard
  pub not_failed : (pkt.rx_sec_offload && pkt.rx_sec_offload_failed) ≡ false
  pub cleared : (res ≡ bypass) ⊎ ((res ≢ bypass) × Protected ctx pkt res)

inbound_sa_matches-inv :
    (sa_ctx : SaCtx) (o : Option Sa) (i : ℕ)
    → inbound_sa_matches sa_ctx o i ≡ true
    → (sa : Sa) × (rule : Sa) × (o ≡ some sa)
      × (i < sa_ctx.nb_sa)
      × (get_elem? sa_ctx.sa i ≡ some rule)
      × (sa.spi ≡ rule.spi)
unfolding inbound_sa_matches
inbound_sa_matches-inv sa_ctx none i h = cc
inbound_sa_matches-inv sa_ctx (some sa) i h = elim (Option-cases (get_elem? sa_ctx.sa i)) [
  | inl e ↦ ground arith
  | inr (rule, e) ↦ (sa, rule, refl, ground arith, e, ground arith)
]

-- The SA by which the packet was processed inline, if it was.
abbrev processed_sa : Mbuf → Option Sa
processed_sa pkt = if pkt.rx_sec_offload then pkt.sec_sa else none

cleared-inv :
    (ctx : IpsecCtx) (pkt : Mbuf) (res : ℕ)
    → res ≢ bypass
    → inbound_sa_matches ctx.sa_ctx (processed_sa pkt) (res - 1) ≡ true
    → Protected ctx pkt res
cleared-inv ctx pkt res ne h =
    let (sa, rule, processed, below, at_rule, same) =
      inbound_sa_matches-inv ctx.sa_ctx (processed_sa pkt) (res - 1) h in
    record {
      sa = sa;
      rule = rule;
      processed = ground arith;
      sa_set = ground arith;
      in_use = below;
      rule_at = at_rule;
      same_spi = same;
    }

inbound_admits_sound :
    (ctx : IpsecCtx) (pkt : Mbuf) → inbound_admits ctx pkt ≡ true → Admitted ctx pkt
unfolding inbound_admits
inbound_admits_sound ctx pkt h =
    elim (Option-cases (policy_of ctx pkt (process_ipsec_get_pkt_type pkt))) [
      | inl e ↦ absurd (ground arith)
      | inr (idx, e) ↦
          let (res, policy, kept, i) = policy_of-inv ctx pkt idx e in
          let le = PolicyIs-lt ctx pkt res policy in
          record {
            res = res;
            policy = policy;
            kept = kept;
            not_failed = ground arith;
            cleared = elim (Bool-cases (res == bypass)) [
              | inl b ↦ inl (ground arith)
              | inr b ↦ inr (ground arith, cleared-inv ctx pkt res (ground arith) (ground arith))
            ];
          }
    ]

inbound_admits_complete :
    (ctx : IpsecCtx) (pkt : Mbuf) → Admitted ctx pkt → inbound_admits ctx pkt ≡ true
unfolding inbound_admits inbound_sa_matches
inbound_admits_complete ctx pkt a =
    let policy = policy_of_lem ctx pkt a.res a.policy a.kept in
    let le = PolicyIs-lt ctx pkt a.res a.policy in
    elim a.cleared [
      | inl b ↦ ground arith
      | inr (b, p) ↦ ground (arith, p.processed, p.sa_set, p.in_use, p.rule_at, p.same_spi)
    ]

-- process_ipsec_ev_inbound forwards exactly the packets that are admitted and have a route; a
-- packet whose inline processing failed, or that a rule protects and no matching SA processed,
-- is not forwarded.
pub inbound-forwards :
    (ports : Ports) (ctx : IpsecCtx) (rt : RouteTable) (pkt : Mbuf) (freed : Freed)
    → ((process_ipsec_ev_inbound ports ctx rt pkt freed).code ≡ pkt_forwarded) ↔ (
        Admitted ctx pkt
        × (get_route ports pkt rt (process_ipsec_get_pkt_type pkt).0 ≢ ports.max_ethports))
unfolding process_ipsec_ev_inbound forward drop_pkt_and_exit
inbound-forwards ports ctx rt pkt freed = (
  λ h. (inbound_admits_sound ctx pkt (ground arith), ground arith),
  λ (a, routed). ground (arith, inbound_admits_complete ctx pkt a),
)
