-- ===== src/Sad/Add.antt =====
-- ipsec_sad_add of sad.c: an SA is added to the databases of its families by its SPI alone, unless
-- one with this SPI is there. rte_ipsec_sad_add, and whether a policy uses the SPI, are parameters.
use ipsec_secgw_old.Prelude.{
  ℕ, ◌≡◌, Option, none, some, Bool, ◌==◌, if◌then◌else◌, arith, Bool-cases, Option-cases, inl, inr,
}
use ipsec_secgw_old.Packet.{Sa, ip4_tunnel, ip6_tunnel, transport, without_transport_version}
use ipsec_secgw_old.Sad.{Key, SadLookup, IpsecSad}
use ipsec_secgw_old.Sad.Cache.{SpiOnly}

-- rte_ipsec_sad_add with RTE_IPSEC_SAD_SPI_ONLY: `none` for an error. A database answers with the
-- new SA for keys of this SPI.
pub record SadAdd : Type 0 where
  pub add : SadLookup → ℕ → Sa → Option SadLookup
  pub add_lem :
      (db db' : SadLookup) (spi : ℕ) (sa : Sa)
      → add db spi sa ≡ some db'
      → (k : Key) → db' k ≡ (if k.spi == spi then some sa else db k)

-- The results 0, -EEXIST, and an error of rte_ipsec_sad_add.
pub data AddCode : Type 0 where
  added eexist failed : AddCode

-- The key of a lookup by SPI: the other fields are 0.
abbrev pub spi_key : ℕ → Key
spi_key spi = record { spi = spi; dip = 0; sip = 0 }

module _ (lib : SadAdd) (sp4_present sp6_present : ℕ → Bool) where
  add_new : SadLookup → Sa → AddCode × SadLookup
  add_new db sa = elim (db (spi_key sa.spi)) [
    | some old ↦ (eexist, db)
    | none ↦ elim (lib.add db sa.spi sa) [ none ↦ (failed, db) | some db' ↦ (added, db') ]
  ]

  -- The two steps of a transport mode SA: each is taken if a policy of the family uses the SPI.
  add_if : Bool → SadLookup → Sa → AddCode × SadLookup
  add_if present db sa = if present then add_new db sa else (added, db)

  add_second : AddCode → SadLookup → IpsecSad → Sa → AddCode × IpsecSad
  unfolding add_if
  add_second added v4 sad sa =
      let (code, v6) = add_if (sp6_present sa.spi) sad.sad_v6 sa in
      (code, record { sad_v4 = v4; sad_v6 = v6 })
  add_second code v4 sad sa = (code, record { sad_v4 = v4; sad_v6 = sad.sad_v6 })

  pub ipsec_sad_add : IpsecSad → Sa → AddCode × IpsecSad
  unfolding add_new add_if add_second
  ipsec_sad_add sad sa =
      let mode = without_transport_version sa.flags in
      let (code4, v4) = add_new sad.sad_v4 sa in
      let (code6, v6) = add_new sad.sad_v6 sa in
      let (code, v4') = add_if (sp4_present sa.spi) sad.sad_v4 sa in
      if mode == ip4_tunnel
      then (code4, record { sad_v4 = v4; sad_v6 = sad.sad_v6 })
      else if mode == ip6_tunnel
      then (code6, record { sad_v4 = sad.sad_v4; sad_v6 = v6 })
      else if mode == transport
      then add_second code v4' sad sa
      else (added, sad)

  -- A database of SPI entries that answers as before wherever it did.
  abbrev pub Grows : SadLookup → SadLookup → Type 0
  Grows db db' = SpiOnly db' × ((k : Key) (old : Sa) → db k ≡ some old → db' k ≡ some old)

  add_new-Grows : (db : SadLookup) (sa : Sa) → SpiOnly db → Grows db (add_new db sa).1
  unfolding add_new
  add_new-Grows db sa h = elim (Option-cases (db (spi_key sa.spi))) [
    | inr (old, e) ↦ rw (e, add_new) (h, λ k o p. p)
    | inl e ↦ elim (Option-cases (lib.add db sa.spi sa)) [
      | inl f ↦ rw (e, f, add_new) (h, λ k o p. p)
      | inr (db', f) ↦
          let at = lib.add_lem db db' sa.spi sa f in
          rw (e, f, add_new)
            (
              record {
                same_spi = λ k k' same. ground (arith, at k, at k', h.same_spi k k' same);
                has_spi = λ k found p. ground (arith, at k, h.has_spi k found);
              },
              λ k old p. ground (arith, at k, e, h.same_spi k (spi_key sa.spi)),
            )
    ]
  ]

  add_if-Grows :
      (present : Bool) (db : SadLookup) (sa : Sa) → SpiOnly db → Grows db (add_if present db sa).1
  unfolding add_if
  add_if-Grows present db sa h = elim (Bool-cases present) [
    | inl e ↦ rw (e, add_if) (add_new-Grows db sa h)
    | inr e ↦ rw (e, add_if) (h, λ k o p. p)
  ]

  -- The second step of a transport mode SA, after a first one that left `v4`.
  add_second-Grows :
      (code : AddCode) (v4 : SadLookup) (sad : IpsecSad) (sa : Sa)
      → Grows sad.sad_v4 v4
      → SpiOnly sad.sad_v6
      → let r = (add_second code v4 sad sa).1 in
        Grows sad.sad_v4 r.sad_v4 × Grows sad.sad_v6 r.sad_v6
  unfolding add_second
  add_second-Grows added v4 sad sa g h = (g, add_if-Grows (sp6_present sa.spi) sad.sad_v6 sa h)
  add_second-Grows eexist v4 sad sa g h = (g, (h, λ k o p. p))
  add_second-Grows failed v4 sad sa g h = (g, (h, λ k o p. p))

  -- Over databases of SPI entries, ipsec_sad_add leaves databases of SPI entries, and no key that
  -- had an SA gets another one, whatever its result is.
  pub ipsec_sad_add-Grows :
      (sad : IpsecSad) (sa : Sa)
      → SpiOnly sad.sad_v4
      → SpiOnly sad.sad_v6
      → let r = (ipsec_sad_add sad sa).1 in Grows sad.sad_v4 r.sad_v4 × Grows sad.sad_v6 r.sad_v6
  unfolding ipsec_sad_add
  ipsec_sad_add-Grows sad sa h4 h6 =
      let mode = without_transport_version sa.flags in
      let (code, v4) = add_if (sp4_present sa.spi) sad.sad_v4 sa in
      elim (Bool-cases (mode == ip4_tunnel)) [
        | inl a ↦ rw (a, ipsec_sad_add) (add_new-Grows sad.sad_v4 sa h4, (h6, λ k o p. p))
        | inr a ↦ elim (Bool-cases (mode == ip6_tunnel)) [
          | inl b ↦ rw (a, b, ipsec_sad_add) ((h4, λ k o p. p), add_new-Grows sad.sad_v6 sa h6)
          | inr b ↦ elim (Bool-cases (mode == transport)) [
            | inl c ↦
                rw (a, b, c, ipsec_sad_add)
                  (add_second-Grows code v4 sad sa
                    (add_if-Grows (sp4_present sa.spi) sad.sad_v4 sa h4) h6)
            | inr c ↦ rw (a, b, c, ipsec_sad_add) ((h4, λ k o p. p), (h6, λ k o p. p))
          ]
        ]
      ]
