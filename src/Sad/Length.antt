-- ===== src/Sad/Length.antt =====
-- sad_lookup answers once for each packet.
use ipsec_secgw_old.Prelude.{ℕ, suc, ◌≡◌, refl, ap, ◌∙◌, List, [], ◌∷◌, length}
use ipsec_secgw_old.Packet.{Mbuf}
use ipsec_secgw_old.Sad.{
  IpsecSad, IpsecSadCache, Probe, hit, miss, probe, probe_of, cached, spi_at, udp_hdr_len_after,
  key_of, results, sad_lookup,
}

length-one :
    (sad : IpsecSad) (p : Probe) (ps : List Probe)
    → length (results sad (p ∷ ps)) ≡ suc (length (results sad ps))
unfolding results
length-one sad (hit sa) ps = refl
length-one sad (miss k m) ps = refl

length-results :
    (sad : IpsecSad) (cache : IpsecSadCache) (len : ℕ) (ms : List Mbuf)
    → length (results sad (probe cache len ms)) ≡ length ms
unfolding results probe
length-results sad cache len [] = refl
length-results sad cache len (m ∷ ms) =
    let len' = udp_hdr_len_after len m in
    let ih = length-results sad cache len' ms in
    length-one sad
      (probe_of (cached cache m.ipv4_hdr (spi_at len' m) m) (key_of (spi_at len' m) m) m)
      (probe cache len' ms)
    ∙ ap suc ih

pub length-sad_lookup :
    (sad : IpsecSad) (cache : IpsecSadCache) (pkts : List Mbuf)
    → length (sad_lookup sad cache pkts).0 ≡ length pkts
unfolding sad_lookup
length-sad_lookup sad cache pkts = length-results sad cache 0 pkts
