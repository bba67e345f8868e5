-- ===== src/Sad/Burst.antt =====
-- The length of the UDP header in sad_lookup, which the loop never sets back.
use ipsec_secgw_old.Prelude.{
  ℕ, suc, ◌+◌, ◌≡◌, refl, some, length, get_elem?, List, [], ◌∷◌, Option, Bool, true, false, ◌&&◌,
  if◌then◌else◌, map, ap, ◌++◌, ◌∙◌,
}
use ipsec_secgw_old.Packet.{Mbuf, Sa, be32_at}
use ipsec_secgw_old.Sad.{
  IpsecSad, IpsecSadCache, sad_lookup, udp_hdr_len_after, spi_at, key_of, resolve,
}
use ipsec_secgw_old.Sad.Cache.{resolve_all, SpiOnly, Coherent, sad_lookup-transparent}

-- The packet is ESP in UDP: its UDP header has 8 octets.
abbrev pub own_udp_hdr_len : Mbuf → ℕ
own_udp_hdr_len m = if m.tunnel_esp && m.l4_udp then 8 else 0

-- The answer for a packet by its own header.
abbrev pub resolve_own : IpsecSad → Mbuf → Option Sa
resolve_own sad m = resolve sad (key_of (spi_at (own_udp_hdr_len m) m) m) m

-- Whether a packet is ESP in UDP is `b` for every packet of the list.
abbrev pub AllAre : Bool → List Mbuf → Type 0
AllAre b [] = Unit {0}
AllAre b (m ∷ ms) = ((m.tunnel_esp && m.l4_udp) ≡ b) × AllAre b ms

resolve_all-udp :
    (sad : IpsecSad) (len : ℕ) (pkts : List Mbuf)
    → AllAre true pkts
    → resolve_all sad len pkts ≡ map (resolve_own sad) pkts
unfolding udp_hdr_len_after
resolve_all-udp sad len [] h = refl
resolve_all-udp sad len (m ∷ ms) h =
    rw h.0 (ap (λ l. resolve sad (key_of (spi_at 8 m) m) m ∷ l) (resolve_all-udp sad 8 ms h.1))

resolve_all-plain :
    (sad : IpsecSad) (plain udp : List Mbuf)
    → AllAre false plain
    → AllAre true udp
    → resolve_all sad 0 (plain ++ udp) ≡ map (resolve_own sad) (plain ++ udp)
unfolding udp_hdr_len_after
resolve_all-plain sad [] udp h k = resolve_all-udp sad 0 udp k
resolve_all-plain sad (m ∷ ms) udp h k =
    rw h.0
      (ap (λ l. resolve sad (key_of (spi_at 0 m) m) m ∷ l) (resolve_all-plain sad ms udp h.1 k))

resolve_all-after_udp :
    (sad : IpsecSad) (len : ℕ) (before after : List Mbuf) (udp m : Mbuf)
    → (udp.tunnel_esp && udp.l4_udp) ≡ true
    → (m.tunnel_esp && m.l4_udp) ≡ false
    → get_elem? (resolve_all sad len (before ++ udp ∷ m ∷ after)) (suc (length before))
      ≡ some (resolve sad (key_of (be32_at m (m.l3_len + 8)) m) m)
unfolding udp_hdr_len_after spi_at
resolve_all-after_udp sad len [] after udp m h k = rw (h, k) refl
resolve_all-after_udp sad len (x ∷ before) after udp m h k =
    resolve_all-after_udp sad (udp_hdr_len_after len x) before after udp m h k

module _ (sad : IpsecSad) (cache : IpsecSadCache) (db4 : SpiOnly sad.sad_v4)
    (db6 : SpiOnly sad.sad_v6) (c4 : Coherent sad.sad_v4 cache.v4)
    (c6 : Coherent sad.sad_v6 cache.v6) where
  -- In a burst where the packets that are not ESP in UDP come first, sad_lookup looks every packet
  -- up by the SPI in its own ESP header.
  pub sad_lookup-own_headers :
      (plain udp : List Mbuf)
      → AllAre false plain
      → AllAre true udp
      → (sad_lookup sad cache (plain ++ udp)).0 ≡ map (resolve_own sad) (plain ++ udp)
  sad_lookup-own_headers plain udp h k =
      (sad_lookup-transparent sad cache (plain ++ udp) db4 db6 c4 c6).0
      ∙ resolve_all-plain sad plain udp h k

  -- In any burst, over databases of SPI entries and a cache that agrees with them: right behind an
  -- ESP-in-UDP packet, sad_lookup looks a packet that is not ESP in UDP up by the four octets that
  -- stand 8 octets past its SPI.
  pub sad_lookup-after_udp :
      (before after : List Mbuf) (udp m : Mbuf)
      → (udp.tunnel_esp && udp.l4_udp) ≡ true
      → (m.tunnel_esp && m.l4_udp) ≡ false
      → get_elem? ((sad_lookup sad cache (before ++ udp ∷ m ∷ after)).0) (suc (length before))
        ≡ some (resolve sad (key_of (be32_at m (m.l3_len + 8)) m) m)
  sad_lookup-after_udp before after udp m h k =
      ap (λ answers. get_elem? answers (suc (length before)))
        ((sad_lookup-transparent sad cache (before ++ udp ∷ m ∷ after) db4 db6 c4 c6).0)
      ∙ resolve_all-after_udp sad 0 before after udp m h k
