-- ===== src/Tests/Lookups.antt =====
-- Lookups in the SA database.
use ipsec_secgw_old.Prelude.{
  some, get_elem?, zero, suc, ◌≡◌, refl, List, [], ◌∷◌, ◌++◌, none, arith, map,
}
use ipsec_secgw_old.Packet.{Mbuf}
use ipsec_secgw_old.Sad.{SadLookup, entry, resolve, key_of, sad_lookup}
use ipsec_secgw_old.Sad.Cache.{SpiOnly, Coherent, resolve_all, sad_lookup-transparent}
use ipsec_secgw_old.Sad.Burst.{resolve_own, sad_lookup-own_headers, sad_lookup-after_udp}
use ipsec_secgw_old.Tests.Fixtures.{plain4, esp_in_udp, only_sa5, sad5, empty_cache}

pub only_sa5-SpiOnly : SpiOnly only_sa5
only_sa5-SpiOnly = record { same_spi = λ k k' e. ground arith; has_spi = λ k sa e. ground arith }

pub nothing-SpiOnly : SpiOnly (λ k. none)
nothing-SpiOnly = record { same_spi = λ k k' e. refl; has_spi = λ k sa e. cc }

empty-Coherent : (db : SadLookup) → Coherent db (none ∷ none ∷ [])
unfolding entry
empty-Coherent db zero sa h k spi = cc
empty-Coherent db (suc zero) sa h k spi = cc
empty-Coherent db (suc (suc i)) sa h k spi = cc

abbrev burst : List Mbuf
burst = plain4 1 ∷ plain4 2 ∷ []

sad_lookup-transparent_example :
    let (found, cache) = sad_lookup sad5 empty_cache burst in
    (found ≡ resolve_all sad5 0 burst) × Coherent only_sa5 cache.v4 × Coherent (λ k. none) cache.v6
sad_lookup-transparent_example =
    sad_lookup-transparent sad5 empty_cache burst only_sa5-SpiOnly nothing-SpiOnly
      (empty-Coherent only_sa5) (empty-Coherent (λ k. none))

sad_lookup-own_headers_example :
    (sad_lookup sad5 empty_cache (burst ++ (esp_in_udp 3 ∷ []))).0
    ≡ map (resolve_own sad5) (burst ++ (esp_in_udp 3 ∷ []))
sad_lookup-own_headers_example =
    sad_lookup-own_headers sad5 empty_cache only_sa5-SpiOnly nothing-SpiOnly
      (empty-Coherent only_sa5) (empty-Coherent (λ k. none)) burst (esp_in_udp 3 ∷ [])
      (refl, (refl, tt)) (refl, tt)

-- The SPI of `plain4` stands in its octets 20 to 23, and is 5; the octets 28 to 31 give 2560.
sad_lookup-after_udp_example :
    get_elem?
      ((sad_lookup sad5 empty_cache (plain4 2 ∷ esp_in_udp 3 ∷ plain4 1 ∷ plain4 4 ∷ [])).0)
      2
    ≡ some (resolve sad5 (key_of 2560 (plain4 1)) (plain4 1))
sad_lookup-after_udp_example =
    sad_lookup-after_udp sad5 empty_cache only_sa5-SpiOnly nothing-SpiOnly (empty-Coherent only_sa5)
      (empty-Coherent (λ k. none)) (plain4 2 ∷ []) (plain4 4 ∷ []) (esp_in_udp 3) (plain4 1) refl
      refl
