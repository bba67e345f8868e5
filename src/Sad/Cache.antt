-- ===== src/Sad/Cache.antt =====
-- The cache is transparent: sad_lookup answers what the database answers.
use ipsec_secgw_old.Prelude.{
  ℕ, zero, suc, ◌≡◌, ◌⊎◌, ◌∙◌, sym, ap, subst, inl, inr, refl, List, [], ◌∷◌, Option, none, some,
  Bool, true, false, ◌==◌, ◌&&◌, not, if◌then◌else◌, set, arith, Bool-cases, Option-cases,
}
use ipsec_secgw_old.Packet.{Mbuf, Sa}
use ipsec_secgw_old.Sad.{
  Key, SadLookup, db_of, slots_of, IpsecSad, IpsecSadCache, cmp_sa_key, spi2idx, sa_cache_update,
  entry, cache_hit, cached, udp_hdr_len_after, spi_at, key_of, Probe, hit, miss, probe_of, probe,
  check_found, resolve, results, store, update_cache, sad_lookup,
}

-- ipsec_sad_add adds every SA by its SPI alone (RTE_IPSEC_SAD_SPI_ONLY). A database of such
-- entries answers by the SPI of the key, with an SA that has this SPI.
pub record SpiOnly (db : SadLookup) : Type 0 where
  pub same_spi : (k k' : Key) → k.spi ≡ k'.spi → db k ≡ db k'
  pub has_spi : (k : Key) (sa : Sa) → db k ≡ some sa → sa.spi ≡ k.spi

-- Each SA in the cache is the one that the database has for its SPI.
abbrev pub Coherent : SadLookup → List (Option Sa) → Type 0
Coherent db slots =
    (i : ℕ) (sa : Sa) → entry slots i ≡ some sa → (k : Key) → k.spi ≡ sa.spi → db k ≡ some sa

-- The answers of the database alone, with the header lengths that the loop takes.
abbrev pub resolve_all : IpsecSad → ℕ → List Mbuf → List (Option Sa)
resolve_all sad len [] = []
resolve_all sad len (m ∷ ms) =
    resolve sad (key_of (spi_at (udp_hdr_len_after len m) m) m) m
    ∷ resolve_all sad (udp_hdr_len_after len m) ms

entry-set :
    (slots : List (Option Sa)) (i j : ℕ) (sa t : Sa)
    → entry (set slots i (some sa)) j ≡ some t
    → (t ≡ sa) ⊎ (entry slots j ≡ some t)
unfolding entry
entry-set [] i j sa t h = inr h
entry-set (e ∷ es) zero zero sa t h = inl (ground arith)
entry-set (e ∷ es) zero (suc j) sa t h = inr h
entry-set (e ∷ es) (suc i) zero sa t h = inr h
entry-set (e ∷ es) (suc i) (suc j) sa t h = entry-set es i j sa t h

cache_hit-inv :
    (o : Option Sa) (spi : ℕ) (is_v4 : Bool) (m : Mbuf) (sa : Sa)
    → cache_hit o spi is_v4 m ≡ some sa
    → (o ≡ some sa) × (sa.spi ≡ spi) × (cmp_sa_key sa is_v4 m ≡ true)
unfolding cache_hit
cache_hit-inv none spi is_v4 m sa h = cc
cache_hit-inv (some t) spi is_v4 m sa h = elim (Bool-cases (t.spi == spi && cmp_sa_key t is_v4 m)) [
  | inl e ↦
      let same : t ≡ sa = ground arith in
      let parts : (t.spi ≡ spi) × (cmp_sa_key t is_v4 m ≡ true) = ground arith in
      rw (← same) (refl, parts.0, parts.1)
  | inr e ↦ absurd (ground arith)
]

slot_in_use :
    (mask : ℕ) (o : Option Sa) (sa : Sa) → (if mask == 0 then none else o) ≡ some sa → o ≡ some sa
slot_in_use mask o sa h = ground arith

module _ (sad : IpsecSad) (cache : IpsecSadCache) where
  -- A hit is what the database answers for the packet.
  cached-resolve :
      (m : Mbuf) (k : Key) (sa : Sa)
      → Coherent (db_of sad m.ipv4_hdr) (slots_of cache m.ipv4_hdr)
      → cached cache m.ipv4_hdr k.spi m ≡ some sa
      → resolve sad k m ≡ some sa
  unfolding cached resolve check_found
  cached-resolve m k sa coherent h =
      let i = spi2idx k.spi cache.mask in
      let slot = entry (slots_of cache m.ipv4_hdr) i in
      let found = if cache.mask == 0 then none else slot in
      let (at, spi, fits) = cache_hit-inv found k.spi m.ipv4_hdr m sa h in
      let answer = coherent i sa (slot_in_use cache.mask slot sa at) k (sym spi) in
      rw (answer, fits)

  pick :
      (is_v4 : Bool)
      → Coherent sad.sad_v4 cache.v4
      → Coherent sad.sad_v6 cache.v6
      → Coherent (db_of sad is_v4) (slots_of cache is_v4)
  pick true c4 c6 = c4
  pick false c4 c6 = c6

  -- A burst is answered as by the database alone.
  results-probe :
      (len : ℕ) (pkts : List Mbuf)
      → Coherent sad.sad_v4 cache.v4
      → Coherent sad.sad_v6 cache.v6
      → results sad (probe cache len pkts) ≡ resolve_all sad len pkts
  unfolding results probe probe_of key_of
  results-probe len [] c4 c6 = refl
  results-probe len (m ∷ ms) c4 c6 =
      let len' = udp_hdr_len_after len m in
      let k = key_of (spi_at len' m) m in
      let rest = results-probe len' ms c4 c6 in
      elim (Option-cases (cached cache m.ipv4_hdr (spi_at len' m) m)) [
        | inl e ↦ rw (e, probe_of, rest)
        | inr (sa, e) ↦
            rw (e, probe_of, rest)
              (ap (λ o. o ∷ resolve_all sad len' ms)
                (sym (cached-resolve m k sa (pick m.ipv4_hdr c4 c6) e)))
      ]

sa_cache_update-Coherent :
    (db : SadLookup) (slots : List (Option Sa)) (sa : Sa) (mask : ℕ)
    → ((k : Key) → k.spi ≡ sa.spi → db k ≡ some sa)
    → Coherent db slots
    → Coherent db (sa_cache_update slots sa mask)
unfolding sa_cache_update
sa_cache_update-Coherent db slots sa mask answers coherent = elim (Bool-cases (mask == 0)) [
  | inl off ↦ rw off coherent
  | inr on ↦ rw on λ i t at k spi. elim (entry-set slots (spi2idx sa.spi mask) i sa t at) [
    | inl same ↦ rw same (answers k (spi ∙ ap (λ (x : Sa). x.spi) same))
    | inr old ↦ coherent i t old k spi
  ]
]

check_found-inv :
    (o : Option Sa) (is_v4 : Bool) (m : Mbuf) (sa : Sa)
    → check_found o is_v4 m ≡ some sa
    → o ≡ some sa
unfolding check_found
check_found-inv none is_v4 m sa h = cc
check_found-inv (some t) is_v4 m sa h = ground arith

family_of : (is_v4 hdr : Bool) → (if is_v4 then hdr else not hdr) ≡ true → hdr ≡ is_v4
family_of is_v4 hdr h = ground arith

module _ (sad : IpsecSad) (mask : ℕ) where
  store-Coherent :
      (is_v4 : Bool) (k : Key) (m : Mbuf) (slots : List (Option Sa))
      → SpiOnly (db_of sad is_v4)
      → m.ipv4_hdr ≡ is_v4
      → Coherent (db_of sad is_v4) slots
      → Coherent (db_of sad is_v4) (store (resolve sad k m) mask slots)
  unfolding store resolve
  store-Coherent is_v4 k m slots db family coherent = elim (Option-cases (resolve sad k m)) [
    | inl e ↦ rw (e, store) coherent
    | inr (sa, e) ↦
        let found : db_of sad is_v4 k ≡ some sa =
          subst (λ b. db_of sad b k ≡ some sa) family
            (check_found-inv (db_of sad m.ipv4_hdr k) m.ipv4_hdr m sa e) in
        rw (e, store)
          (sa_cache_update-Coherent (db_of sad is_v4) slots sa mask
            (λ k' spi. db.same_spi k' k (spi ∙ db.has_spi k sa found) ∙ found) coherent)
  ]

  update_cache-Coherent :
      (is_v4 : Bool) (ps : List Probe) (slots : List (Option Sa))
      → SpiOnly (db_of sad is_v4)
      → Coherent (db_of sad is_v4) slots
      → Coherent (db_of sad is_v4) (update_cache is_v4 sad mask ps slots)
  unfolding update_cache
  update_cache-Coherent is_v4 [] slots db coherent = coherent
  update_cache-Coherent is_v4 (hit sa ∷ ps) slots db coherent =
      update_cache-Coherent is_v4 ps slots db coherent
  update_cache-Coherent is_v4 (miss k m ∷ ps) slots db coherent =
      let mine = if is_v4 then m.ipv4_hdr else not m.ipv4_hdr in
      update_cache-Coherent is_v4 ps (if mine then store (resolve sad k m) mask slots else slots) db
        (elim (Bool-cases mine) [
          | inl e ↦ rw e (store-Coherent is_v4 k m slots db (family_of is_v4 m.ipv4_hdr e) coherent)
          | inr e ↦ rw e coherent
        ])

-- With databases of SPI entries and a cache that agrees with them, sad_lookup gives each packet
-- of a burst what the databases have for the SPI and the addresses that are read from it, and
-- the cache agrees with them afterwards. The header length for the SPI is the one that the loop
-- carries.
pub sad_lookup-transparent :
    (sad : IpsecSad) (cache : IpsecSadCache) (pkts : List Mbuf)
    → SpiOnly sad.sad_v4
    → SpiOnly sad.sad_v6
    → Coherent sad.sad_v4 cache.v4
    → Coherent sad.sad_v6 cache.v6
    → let (found, cache') = sad_lookup sad cache pkts in
      (found ≡ resolve_all sad 0 pkts)
      × Coherent sad.sad_v4 cache'.v4
      × Coherent sad.sad_v6 cache'.v6
unfolding sad_lookup
sad_lookup-transparent sad cache pkts db4 db6 c4 c6 =
    let ps = probe cache 0 pkts in
    (
      results-probe sad cache 0 pkts c4 c6,
      update_cache-Coherent sad cache.mask true ps cache.v4 db4 c4,
      update_cache-Coherent sad cache.mask false ps cache.v6 db6 c6,
    )
