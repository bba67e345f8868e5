-- ===== src/Poll/Handlers.antt =====
-- process_pkts_inbound, process_pkts_outbound and their forms without policies, of ipsec-secgw.c.
-- `esp` are the packets of `traffic->ipsec`, and `none` stands for a queue that ran out of fuel.
pub mod Conserve
use ipsec_secgw_old.Prelude.{ℕ, List, [], ◌++◌, Option, none, some, Bool, map, length}
use ipsec_secgw_old.Packet.{Mbuf, SaCtx, free_pkts}
use ipsec_secgw_old.Packet.Tally.{packets}
use ipsec_secgw_old.Sad.{IpsecSad, IpsecSadCache}
use ipsec_secgw_old.Worker.Policy.{Acl}
use ipsec_secgw_old.Poll.{
  Poll, Engine, freed_of, with_freed, split46_traffic, sort_by_version, sort_by_first,
  outbound_spd_lookup, inbound_ipsec, outbound_ipsec, inbound_policies,
}

module _ {D : Type 0} (e : Engine D) (enable : Bool) where
  pub process_pkts_inbound :
      Option Acl
      → Option Acl
      → SaCtx
      → IpsecSad
      → IpsecSadCache
      → Poll D
      → List Mbuf
      → Option (Poll D)
  unfolding inbound_ipsec inbound_policies
  process_pkts_inbound sp4 sp6 sa_ctx sad cache p esp =
      elim (inbound_ipsec e enable split46_traffic sad cache p esp) [
        | none ↦ none
        | some p' ↦ some (inbound_policies e sp4 sp6 sa_ctx (length p.ip4) (length p.ip6) p')
      ]

  pub process_pkts_inbound_nosp : IpsecSad → IpsecSadCache → Poll D → List Mbuf → Option (Poll D)
  unfolding inbound_ipsec
  process_pkts_inbound_nosp sad cache p esp = inbound_ipsec e enable sort_by_version sad cache p esp

  -- IPsec traffic that arrives on a protected port is freed.
  drop_esp : Poll D → List Mbuf → Poll D
  unfolding freed_of with_freed free_pkts
  drop_esp p esp = with_freed p (free_pkts esp (freed_of p))

  pub process_pkts_outbound : Option Acl → Option Acl → SaCtx → Poll D → List Mbuf → Option (Poll D)
  unfolding drop_esp freed_of with_freed outbound_ipsec
  process_pkts_outbound sp4 sp6 sa_ctx p esp =
      let p₀ = drop_esp p esp in
      let c4 = outbound_spd_lookup sp4 p.ip4 [] (freed_of p₀) p.spd4 in
      let c6 = outbound_spd_lookup sp6 p.ip6 c4.ipsec c4.freed p.spd6 in
      let p₁ = record (with_freed p₀ c6.freed) {
        ip4 = c4.ip;
        ip6 = c6.ip;
        spd4 = c4.stats;
        spd6 = c6.stats;
      } in
      outbound_ipsec e enable sort_by_version sa_ctx p₁ (packets c6.ipsec) (map (λ x. x.1) c6.ipsec)

  -- All plain traffic is sent by one SA.
  pub process_pkts_outbound_nosp : ℕ → SaCtx → Poll D → List Mbuf → Option (Poll D)
  unfolding drop_esp outbound_ipsec
  process_pkts_outbound_nosp single_sa_idx sa_ctx p esp =
      let pkts = packets p.ip4 ++ packets p.ip6 in
      let p₁ = record (drop_esp p esp) { ip4 = []; ip6 = [] } in
      outbound_ipsec e enable sort_by_first sa_ctx p₁ pkts (map (λ m. single_sa_idx) pkts)
