-- ===== src/Worker/Event/Outbound.antt =====
-- What process_ipsec_ev_outbound sends, and what becomes of the packet of an event.
use ipsec_secgw_old.Prelude.{
  ℕ, ◌-◌, ◌<◌, ◌≡◌, ◌≢◌, ◌⊎◌, inl, inr, refl, true, none, some, arith, get_elem?, ◌==◌, Bool-cases,
  Option-cases, [], ◌∷◌, ◌++◌,
}
use ipsec_secgw_old.Packet.{inline_protocol, Mbuf, Sa, SaCtx, Freed, free_mbufs}
use ipsec_secgw_old.Worker.Classify.{process_ipsec_get_pkt_type}
use ipsec_secgw_old.Worker.Policy.{discard, bypass}
use ipsec_secgw_old.Worker.Route.{
  Ports, RouteTable, get_route, update_mac_addrs, ipsec_event_pre_forward,
}
use ipsec_secgw_old.Worker.Event.{
  IpsecCtx, Outcome, pkt_dropped, pkt_forwarded, policy_of, outbound_protect, outbound_route,
  process_ipsec_ev_inbound, process_ipsec_ev_outbound, forward, drop_pkt_and_exit, inbound_admits,
}
use ipsec_secgw_old.Worker.Event.Policies.{PolicyIs, policy_of-inv, PolicyIs-lt}

-- The rule bypasses the packet, and it is sent to the port of its route, which exists.
pub record Bypassed (ports : Ports) (rt : RouteTable) (pkt sent : Mbuf) (res : ℕ) : Type 0 where
  bypasses : res ≡ bypass
  routed : get_route ports pkt rt (process_ipsec_get_pkt_type pkt).0 ≢ ports.max_ethports
  to_route : sent.port ≡ get_route ports pkt rt (process_ipsec_get_pkt_type pkt).0
  unmarked : sent.tx_sec_offload ≡ pkt.tx_sec_offload

-- The rule names an SA in use that does inline protocol processing; the packet is marked for it,
-- has its session, and is sent to its port.
pub record Secured (ctx : IpsecCtx) (sent : Mbuf) (res : ℕ) : Type 0 where
  rule : Sa
  protects : res ≢ bypass
  in_use : res - 1 < ctx.sa_ctx.nb_sa
  rule_at : get_elem? ctx.sa_ctx.sa (res - 1) ≡ some rule
  is_inline : rule.primary.action ≡ inline_protocol
  marked : sent.tx_sec_offload ≡ true
  session : sent.sec_session ≡ rule.primary.ses
  to_port : sent.port ≡ rule.portid

abbrev pub Sent : Ports → IpsecCtx → RouteTable → Mbuf → Mbuf → Type 0
Sent ports ctx rt pkt sent =
    (res : ℕ) × PolicyIs ctx pkt res
    × (res ≢ discard)
    × (Bypassed ports rt pkt sent res ⊎ Secured ctx sent res)

outbound_protect-inv :
    (sa_ctx : SaCtx) (pkt : Mbuf) (i : ℕ) (out : Mbuf × ℕ)
    → outbound_protect sa_ctx pkt i ≡ some out
    → (rule : Sa) × (i < sa_ctx.nb_sa)
      × (get_elem? sa_ctx.sa i ≡ some rule)
      × (rule.primary.action ≡ inline_protocol)
      × (out ≡ (record pkt { sec_session = rule.primary.ses; tx_sec_offload = true }, rule.portid))
unfolding outbound_protect
outbound_protect-inv sa_ctx pkt i out h = elim (Option-cases (get_elem? sa_ctx.sa i)) [
  | inl e ↦ absurd (ground arith)
  | inr (rule, e) ↦ (rule, ground arith, e, ground arith, ground arith)
]

outbound_route-inv :
    (ports : Ports) (ctx : IpsecCtx) (rt : RouteTable) (pkt : Mbuf) (out : Mbuf × ℕ)
    → outbound_route ports ctx rt pkt ≡ some out
    → (sent : Mbuf) → sent.port ≡ out.1
    → sent.tx_sec_offload ≡ out.0.tx_sec_offload
    → sent.sec_session ≡ out.0.sec_session
    → Sent ports ctx rt pkt sent
unfolding outbound_route
outbound_route-inv ports ctx rt pkt out h sent to mark session =
    elim (Option-cases (policy_of ctx pkt (process_ipsec_get_pkt_type pkt))) [
      | inl e ↦ absurd (ground arith)
      | inr (idx, e) ↦
          let (res, policy, kept, i) = policy_of-inv ctx pkt idx e in
          let le = PolicyIs-lt ctx pkt res policy in
          (
            res,
            policy,
            kept,
            elim (Bool-cases (res == bypass)) [
              | inl b ↦ inl record {
                bypasses = ground arith;
                routed = ground arith;
                to_route = ground arith;
                unmarked = ground arith;
              }
              | inr b ↦
                  let (rule, below, at_rule, is_inline, same) =
                    outbound_protect-inv ctx.sa_ctx pkt (res - 1) out (ground arith) in
                  inr record {
                    rule = rule;
                    protects = ground arith;
                    in_use = below;
                    rule_at = at_rule;
                    is_inline = is_inline;
                    marked = ground arith;
                    session = ground arith;
                    to_port = ground arith;
                  }
            ],
          )
    ]

-- A packet that process_ipsec_ev_outbound sends falls under a rule that does not discard it:
-- either the rule bypasses it, and it goes to the port of its route, or the rule protects it, and
-- it leaves marked for inline protocol processing, with the session and to the port of the SA
-- that the rule names.
pub outbound-sends :
    (ports : Ports) (ctx : IpsecCtx) (rt : RouteTable) (pkt sent : Mbuf) (freed : Freed)
    → (process_ipsec_ev_outbound ports ctx rt pkt freed).mbuf ≡ some sent
    → Sent ports ctx rt pkt sent
unfolding process_ipsec_ev_outbound forward drop_pkt_and_exit update_mac_addrs
    ipsec_event_pre_forward
outbound-sends ports ctx rt pkt sent freed h =
    elim (Option-cases (outbound_route ports ctx rt pkt)) [
      | inl e ↦ absurd (ground arith)
      | inr (out, e) ↦
          outbound_route-inv ports ctx rt pkt out e sent (ground arith) (ground arith)
            (ground arith)
    ]

-- The packet of an event is handed on or freed, never both and never neither: it is handed on
-- with the result PKT_FORWARDED and nothing is freed, or the result is PKT_DROPPED, the event
-- holds no packet, and this packet is freed.
abbrev pub HandsOnOrFrees : Mbuf → Freed → Outcome → Type 0
HandsOnOrFrees pkt freed o =
    ((sent : Mbuf) × (o.code ≡ pkt_forwarded)
      × (o.mbuf ≡ some sent)
      × (sent.id ≡ pkt.id)
      × (o.freed ≡ freed))
    ⊎ ((o.code ≡ pkt_dropped) × (o.mbuf ≡ none) × (o.freed.mbufs ≡ freed.mbufs ++ (pkt ∷ [])))

forward-HandsOn :
    (ports : Ports) (pkt out : Mbuf) (port_id : ℕ) (freed : Freed)
    → out.id ≡ pkt.id
    → HandsOnOrFrees pkt freed (forward ports out port_id freed)
unfolding forward update_mac_addrs ipsec_event_pre_forward
forward-HandsOn ports pkt out port_id freed h =
    inl (ipsec_event_pre_forward (update_mac_addrs ports out port_id) port_id, refl, refl, h, refl)

drop-Frees : (pkt : Mbuf) (freed : Freed) → HandsOnOrFrees pkt freed (drop_pkt_and_exit pkt freed)
unfolding drop_pkt_and_exit free_mbufs
drop-Frees pkt freed = inr (refl, refl, refl)

outbound_route-id :
    (ports : Ports) (ctx : IpsecCtx) (rt : RouteTable) (pkt : Mbuf) (out : Mbuf × ℕ)
    → outbound_route ports ctx rt pkt ≡ some out
    → out.0.id ≡ pkt.id
unfolding outbound_route outbound_protect
outbound_route-id ports ctx rt pkt out h = ground arith

-- Both handlers hand the packet of an event on or free it.
pub event-conserves :
    (ports : Ports) (ctx : IpsecCtx) (rt : RouteTable) (pkt : Mbuf) (freed : Freed)
    → HandsOnOrFrees pkt freed (process_ipsec_ev_inbound ports ctx rt pkt freed)
      × HandsOnOrFrees pkt freed (process_ipsec_ev_outbound ports ctx rt pkt freed)
unfolding process_ipsec_ev_inbound process_ipsec_ev_outbound
event-conserves ports ctx rt pkt freed = (
  elim (Bool-cases (inbound_admits ctx pkt)) [
    | inr e ↦ rw e (drop-Frees pkt freed)
    | inl e ↦
        let port_id = get_route ports pkt rt (process_ipsec_get_pkt_type pkt).0 in
        elim (Bool-cases (port_id == ports.max_ethports)) [
          | inl m ↦ rw (e, m) (drop-Frees pkt freed)
          | inr m ↦ rw (e, m) (forward-HandsOn ports pkt pkt port_id freed refl)
        ]
  ],
  elim (Option-cases (outbound_route ports ctx rt pkt)) [
    | inl e ↦ rw (e, process_ipsec_ev_outbound) (drop-Frees pkt freed)
    | inr (out, e) ↦
        rw (e, process_ipsec_ev_outbound)
          (forward-HandsOn ports pkt (record (out.0) { l2_len = 14 }) out.1 freed
            (outbound_route-id ports ctx rt pkt out e))
  ],
)
