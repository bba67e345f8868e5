-- ===== src/Poll.antt =====
-- The poll mode of ipsec-secgw.c: the policies of a burst and the handlers of inbound and outbound
-- traffic, with and without policies.
pub mod Ike
pub mod Policies
pub mod Agree
pub mod Sorting
pub mod Handlers
pub mod Send
use ipsec_secgw_old.Prelude.{
  ℕ, zero, suc, ◌+◌, ◌-◌, List, [], ◌∷◌, ◌++◌, Option, none, some, Bool, true, false, ◌==◌, ◌&&◌,
  not, if◌then◌else◌, map,
}
use ipsec_secgw_old.Packet.{Mbuf, SaCtx, Freed, free_pkts, u32, ip_version, max_pkt_burst}
use ipsec_secgw_old.Packet.Tally.{packets}
use ipsec_secgw_old.CryptoQueue.{Pmd, Queues, World}
use ipsec_secgw_old.Sad.{IpsecSad, IpsecSadCache}
use ipsec_secgw_old.SaLookup.{inbound_sa_check, inbound_sa_lookup, outbound_sa_lookup}
use ipsec_secgw_old.IpsecLib.{RteIpsec, FillSession}
use ipsec_secgw_old.Process.{State, ipsec_process}
use ipsec_secgw_old.Legacy.{Ctx, XformFn, CreateSession, ipsec_inbound, ipsec_outbound}
use ipsec_secgw_old.Worker.Policy.{Acl, discard, bypass}

-- struct ipsec_spd_stats
pub record SpdStats : Type 0 where
  pub protect : ℕ
  pub bypass : ℕ
  pub discard : ℕ

-- The packets that stay, each with the offset of its `data`, those for IPsec with their `res`, the
-- packets freed, and the statistics.
pub record Checked : Type 0 where
  pub ip : List (Mbuf × ℕ)
  pub ipsec : List (Mbuf × ℕ)
  pub freed : Freed
  pub stats : SpdStats

-- What inbound_sp_sa finds of a packet.
pub data InVerdict : Type 0 where
  bypassed discarded protected : InVerdict

-- `before_lim` is the test `i < lim`.
pub inbound_sp_verdict : SaCtx → Acl → Bool → Mbuf → ℕ → InVerdict
inbound_sp_verdict sa_ctx acl before_lim m ofs =
    let res = u32 (acl m ofs) in
    if res == bypass
    then bypassed
    else if res == discard
    then discarded
    else if before_lim && not m.rx_sec_offload
    then discarded
    else if inbound_sa_check sa_ctx m (res - 1)
    then protected
    else discarded

keep_or_free : InVerdict → Mbuf → ℕ → Checked → Checked
unfolding free_pkts
keep_or_free bypassed m ofs c = record c {
  ip = c.ip ++ ((m, ofs) ∷ []);
  stats = record c.stats { bypass = c.stats.bypass + 1 };
}
keep_or_free protected m ofs c = record c {
  ip = c.ip ++ ((m, ofs) ∷ []);
  stats = record c.stats { protect = c.stats.protect + 1 };
}
keep_or_free discarded m ofs c = record c {
  freed = free_pkts (m ∷ []) c.freed;
  stats = record c.stats { discard = c.stats.discard + 1 };
}

-- The loop; `lim` counts down with the packets that it goes past.
inbound_sp_loop : SaCtx → Acl → ℕ → List (Mbuf × ℕ) → Checked → Checked
unfolding inbound_sp_verdict keep_or_free
inbound_sp_loop sa_ctx acl lim [] c = c
inbound_sp_loop sa_ctx acl lim ((m, ofs) ∷ rest) c =
    let verdict = inbound_sp_verdict sa_ctx acl (not (lim == 0)) m ofs in
    inbound_sp_loop sa_ctx acl (lim - 1) rest (keep_or_free verdict m ofs c)

pub inbound_sp_sa : Option Acl → SaCtx → List (Mbuf × ℕ) → ℕ → Freed → SpdStats → Checked
unfolding inbound_sp_loop
inbound_sp_sa none sa_ctx ip lim freed stats = record {
  ip = ip;
  ipsec = [];
  freed = freed;
  stats = stats;
}
inbound_sp_sa (some acl) sa_ctx ip lim freed stats =
    inbound_sp_loop sa_ctx acl lim ip (record { ip = []; ipsec = []; freed = freed; stats = stats })

-- One packet of outbound_spd_lookup, by the result of its rule.
spd_place : ℕ → Mbuf → ℕ → Checked → Checked
unfolding free_pkts
spd_place res m ofs c =
    if res == discard
    then record c {
      freed = free_pkts (m ∷ []) c.freed;
      stats = record c.stats { discard = c.stats.discard + 1 };
    }
    else if res == bypass
    then record c {
      ip = c.ip ++ ((m, ofs) ∷ []);
      stats = record c.stats { bypass = c.stats.bypass + 1 };
    }
    else record c {
      ipsec = c.ipsec ++ ((m, res - 1) ∷ []);
      stats = record c.stats { protect = c.stats.protect + 1 };
    }

spd_loop : Acl → List (Mbuf × ℕ) → Checked → Checked
unfolding spd_place
spd_loop acl [] c = c
spd_loop acl ((m, ofs) ∷ rest) c = spd_loop acl rest (spd_place (u32 (acl m ofs)) m ofs c)

pub outbound_spd_lookup :
    Option Acl → List (Mbuf × ℕ) → List (Mbuf × ℕ) → Freed → SpdStats → Checked
unfolding spd_loop
outbound_spd_lookup none ip ipsec freed stats = record {
  ip = ip;
  ipsec = ipsec;
  freed = freed;
  stats = stats;
}
outbound_spd_lookup (some acl) ip ipsec freed stats =
    spd_loop acl ip (record { ip = []; ipsec = ipsec; freed = freed; stats = stats })

-- The context of a core, its plain traffic, and its statistics.
pub record Poll (D : Type 0) : Type 0 where
  pub ctx : Ctx D
  pub ip4 : List (Mbuf × ℕ)
  pub ip6 : List (Mbuf × ℕ)
  pub spd4 : SpdStats
  pub spd6 : SpdStats

module _ {D : Type 0} where
  pub freed_of : Poll D → Freed
  freed_of p = p.ctx.w.freed

  pub with_freed : Poll D → Freed → Poll D
  with_freed p f = record p { ctx = record p.ctx { w = record p.ctx.w { freed = f } } }

  -- Packets of another IP version are freed.
  pub split46_traffic : List Mbuf → Poll D → Poll D
  unfolding free_pkts freed_of with_freed
  split46_traffic [] p = p
  split46_traffic (m ∷ ms) p = split46_traffic ms (
      if ip_version m 0 == 4
      then record p { ip4 = p.ip4 ++ ((m, 9) ∷ []) }
      else if ip_version m 0 == 6
      then record p { ip6 = p.ip6 ++ ((m, 6) ∷ []) }
      else with_freed p (free_pkts (m ∷ []) (freed_of p)))

  -- The loop that sorts packets by their first field only. It writes no `data`, which nothing reads
  -- after it; the offset is 0 here.
  pub sort_by_version : List Mbuf → Poll D → Poll D
  sort_by_version [] p = p
  sort_by_version (m ∷ ms) p = sort_by_version ms (
      if ip_version m 0 == 4
      then record p { ip4 = p.ip4 ++ ((m, 0) ∷ []) }
      else record p { ip6 = p.ip6 ++ ((m, 0) ∷ []) })

  -- All packets are of the version of the first. With none, both counts are 0; the code reads
  -- `pkts[0]` then too.
  pub sort_by_first : List Mbuf → Poll D → Poll D
  sort_by_first [] p = p
  sort_by_first (m ∷ ms) p =
      let all = map (λ x. (x, 0)) (m ∷ ms) in
      if ip_version m 0 == 4 then record p { ip4 = all } else record p { ip6 = all }

-- The parameters of one direction: the devices, librte_ipsec, the creation of sessions, and the
-- transforms of esp.c.
pub record Engine (D : Type 0) : Type 0 where
  pub pmd : Pmd D
  pub lib : RteIpsec
  pub fill_session : FillSession
  pub create_session : CreateSession
  pub fn : XformFn
  pub post : XformFn

module _ {D : Type 0} (e : Engine D) where
  -- ipsec_process on the context and the traffic.
  pub process_with : Poll D → List ℕ → List Mbuf → Option (Poll D)
  process_with p saptr pkts =
      let c = p.ctx in
      let s : State D = record { qs = c.qs; w = c.w; store = c.store; ip4 = p.ip4; ip6 = p.ip6 } in
      elim (ipsec_process e.pmd e.lib e.fill_session s saptr pkts) [
        | none ↦ none
        | some s' ↦ some (record p {
          ctx = record c { qs = s'.qs; w = s'.w; store = s'.store };
          ip4 = s'.ip4;
          ip6 = s'.ip6;
        })
      ]

  -- The IPsec packets of a burst from an unprotected port; `enable` is app_sa_prm.enable, and
  -- `sort` what the legacy mode does with the packets that come back.
  pub inbound_ipsec :
      Bool
      → (List Mbuf → Poll D → Poll D)
      → IpsecSad
      → IpsecSadCache
      → Poll D
      → List Mbuf
      → Option (Poll D)
  unfolding process_with
  inbound_ipsec false sort sad cache p pkts =
      let (out, ctx', _) =
        ipsec_inbound e.pmd e.create_session e.fn e.post sad cache p.ctx pkts max_pkt_burst in
      some (sort out (record p { ctx = ctx' }))
  inbound_ipsec true sort sad cache p pkts =
      process_with p (inbound_sa_lookup sad cache pkts).0 pkts

  pub outbound_ipsec :
      Bool → (List Mbuf → Poll D → Poll D) → SaCtx → Poll D → List Mbuf → List ℕ → Option (Poll D)
  unfolding process_with
  outbound_ipsec false sort sa_ctx p pkts res =
      let (out, ctx') =
        ipsec_outbound e.pmd e.create_session e.fn e.post sa_ctx p.ctx pkts res max_pkt_burst in
      some (sort out (record p { ctx = ctx' }))
  outbound_ipsec true sort sa_ctx p pkts res = process_with p (outbound_sa_lookup sa_ctx res) pkts

  -- The policies of both families, after IPsec processing. `n_ip4` and `n_ip6` are the numbers of
  -- packets that were plain on arrival.
  pub inbound_policies : Option Acl → Option Acl → SaCtx → ℕ → ℕ → Poll D → Poll D
  unfolding freed_of with_freed
  inbound_policies sp4 sp6 sa_ctx n_ip4 n_ip6 p =
      let c4 = inbound_sp_sa sp4 sa_ctx p.ip4 n_ip4 (freed_of p) p.spd4 in
      let c6 = inbound_sp_sa sp6 sa_ctx p.ip6 n_ip6 c4.freed p.spd6 in
      record (with_freed p c6.freed) { ip4 = c4.ip; ip6 = c6.ip; spd4 = c4.stats; spd6 = c6.stats }
