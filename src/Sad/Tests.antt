-- ===== src/Sad/Tests.antt =====
-- What is found for a packet with SPI 5, and the pointer that marks it for the fallback session.
use ipsec_secgw_old.Prelude.{◌≡◌, refl, List, [], ◌∷◌, map}
use ipsec_secgw_old.Packet.{Mbuf}
use ipsec_secgw_old.Sad.{
  octets, cmp_sa_key, entry, cache_hit, cached, udp_hdr_len_after, spi_at, key_of, probe_of, probe,
  check_found, resolve, results, sad_lookup,
}
use ipsec_secgw_old.SaLookup.{ipsec_mask_saptr, has_fallback_flag, inbound_sa_lookup}
use ipsec_secgw_old.SaLookup.Pointers.{AllAligned, address_of, all_wants, inbound_sa_lookup-marks}
use ipsec_secgw_old.Tests.Fixtures.{plain4, sad5, empty_cache}

abbrev two_packets : List Mbuf
two_packets = plain4 1 ∷ plain4 2 ∷ []

sad5-AllAligned : AllAligned (sad_lookup sad5 empty_cache two_packets).0
unfolding sad_lookup results probe probe_of cached cache_hit entry key_of spi_at udp_hdr_len_after
    resolve check_found cmp_sa_key octets
sad5-AllAligned = (refl, (refl, tt))

inbound_sa_lookup-marks_example :
    let found = (sad_lookup sad5 empty_cache two_packets).0 in
    let ptrs = (inbound_sa_lookup sad5 empty_cache two_packets).0 in
    (map ipsec_mask_saptr ptrs ≡ map address_of found)
    × (map has_fallback_flag ptrs ≡ all_wants found two_packets)
inbound_sa_lookup-marks_example =
    inbound_sa_lookup-marks sad5 empty_cache two_packets sad5-AllAligned
