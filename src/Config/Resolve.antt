-- ===== src/Config/Resolve.antt =====
-- check_spi_value of sp4.c and sp6.c: the SPI of each rule becomes the index of its SA.
use ipsec_secgw_old.Prelude.{
  ℕ, ◌+◌, ◌-◌, ◌^◌, ◌<◌, ◌≡◌, ◌≢◌, refl, subst, false, ◌==◌, if◌then◌else◌, Bool-cases, inl, inr,
  ◌⊎◌, List, [], ◌∷◌, Option, none, some, arith,
}
use ipsec_secgw_old.Worker.Policy.{discard, bypass}
use ipsec_secgw_old.Config.Search.{
  Found, at, absent, out_of_rounds, sa_spi_present, Locates, IsAscending, IsSmall,
  sa_spi_present-Locates,
}

-- The `userdata` of a rule afterwards. A search that ends nowhere has no result.
unfoldable pub resolve : (ℕ → ℕ) → ℕ → ℕ → Option ℕ
resolve spi_of num spi =
    if spi == discard
    then some spi
    else if spi == bypass
    then some spi
    else elim (sa_spi_present spi_of num spi) [
      | at i ↦ some (i + 1)
      | absent ↦ none
      | out_of_rounds ↦ none
    ]

-- The `userdata` of the rules; `none` for -ENOENT.
unfoldable pub check_spi_value : (ℕ → ℕ) → ℕ → List ℕ → Option (List ℕ)
unfolding resolve
check_spi_value spi_of num [] = some []
check_spi_value spi_of num (spi ∷ spis) = elim (resolve spi_of num spi) [
  | none ↦ none
  | some u ↦ elim (check_spi_value spi_of num spis) [ none ↦ none | some us ↦ some (u ∷ us) ]
]

-- A rule that protects has the index of the SA with its SPI, lowered by the one added, and none of
-- the two words for the other rules.
abbrev pub IsResolved : (ℕ → ℕ) → ℕ → ℕ → ℕ → Type 0
IsResolved spi_of num spi u =
    (spi ≡ discard → u ≡ discard)
    × (spi ≡ bypass → u ≡ bypass)
    × (spi ≢ discard
        → spi ≢ bypass
        → (u ≢ discard) × ((u ≢ bypass) × ((u - 1 < num) × (spi_of (u - 1) ≡ spi))))

abbrev pub AllResolved : (ℕ → ℕ) → ℕ → List ℕ → List ℕ → Type 0
AllResolved spi_of num [] [] = Unit {0}
AllResolved spi_of num [] (u ∷ us) = ⊥
AllResolved spi_of num (spi ∷ spis) [] = ⊥
AllResolved spi_of num (spi ∷ spis) (u ∷ us) =
    IsResolved spi_of num spi u × AllResolved spi_of num spis us

-- A rule protects with an SPI that no SA has.
pub record IsMissing (spi_of : ℕ → ℕ) (num spi : ℕ) : Type 0 where
  pub not_discard : spi ≢ discard
  pub not_bypass : spi ≢ bypass
  pub not_there : (i : ℕ) → i < num → spi_of i ≢ spi

-- A rule of the list protects with an SPI that no SA has.
pub data AnyMissing (spi_of : ℕ → ℕ) (num : ℕ) : List ℕ → Type 0 where
  here : {spi : ℕ} {spis : List ℕ} → IsMissing spi_of num spi → AnyMissing spi_of num (spi ∷ spis)
  there :
      {spi : ℕ} {spis : List ℕ} → AnyMissing spi_of num spis → AnyMissing spi_of num (spi ∷ spis)

-- The SPIs are below 2 ^ 31, or BYPASS.
abbrev pub AllSmall : List ℕ → Type 0
AllSmall [] = Unit {0}
AllSmall (spi ∷ spis) = (spi ≢ bypass → spi < 2 ^ 31) × AllSmall spis

-- The SPIs of the SAs are searched, of which there are fewer than BYPASS.
module _ (spi_of : ℕ → ℕ) (num : ℕ) (ascending : IsAscending spi_of num)
    (small : IsSmall spi_of num) (few : num < bypass) where
  resolve-IsResolved :
      (spi : ℕ)
      → (spi ≢ bypass → spi < 2 ^ 31)
      → ((resolve spi_of num spi ≡ none) × IsMissing spi_of num spi)
        ⊎ ((u : ℕ) × (resolve spi_of num spi ≡ some u) × IsResolved spi_of num spi u)
  unfolding resolve
  resolve-IsResolved spi spi_small = elim (Bool-cases (spi == discard)) [
    | inl d ↦ inr (spi, rw (d) refl, (λ e. e, λ e. e, λ no no'. absurd (no (ground arith))))
    | inr d ↦ elim (Bool-cases (spi == bypass)) [
      | inl b ↦ inr (spi, rw (d, b) refl, (λ e. e, λ e. e, λ no no'. absurd (no' (ground arith))))
      | inr b ↦
          found d b (sa_spi_present spi_of num spi) refl
            (sa_spi_present-Locates spi_of spi num ascending small (spi_small (ground arith)))
    ]
  ]
    where
      found :
          (spi == discard) ≡ false
          → (spi == bypass) ≡ false
          → (f : Found) → sa_spi_present spi_of num spi ≡ f
          → Locates spi_of spi 0 num f
          → ((resolve spi_of num spi ≡ none) × IsMissing spi_of num spi)
            ⊎ ((u : ℕ) × (resolve spi_of num spi ≡ some u) × IsResolved spi_of num spi u)
      found d b (at i) e (lt, own) = inr (
        i + 1,
        rw (d, b, e, resolve) refl,
        (
          λ is_d. absurd (ground arith),
          λ is_b. absurd (ground arith),
          λ no no'. (
            λ z. omega arith,
            (λ z. omega arith, (omega arith, subst (λ j. spi_of j ≡ spi) (omega arith) own)),
          ),
        ),
      )
      found d b absent e none_there = inl (
        rw (d, b, e, resolve) refl,
        record {
          not_discard = λ is_d. ground arith;
          not_bypass = λ is_b. ground arith;
          not_there = λ i lt. none_there i (omega arith) lt;
        },
      )
      found d b out_of_rounds e never = absurd never

  -- Either each rule is resolved, or there is a rule with an SPI that no SA has.
  pub check_spi_value-AllResolved :
      (spis : List ℕ)
      → AllSmall spis
      → ((check_spi_value spi_of num spis ≡ none) × AnyMissing spi_of num spis)
        ⊎ ((us : List ℕ) × (check_spi_value spi_of num spis ≡ some us)
            × AllResolved spi_of num spis us)
  unfolding check_spi_value
  check_spi_value-AllResolved [] all_small = inr ([], refl, tt)
  check_spi_value-AllResolved (spi ∷ spis) (spi_small, all_small) =
      elim (resolve-IsResolved spi spi_small) [
        | inl (e, missing) ↦ inl (rw (e, check_spi_value) refl, here missing)
        | inr (u, e, resolved) ↦ elim (check_spi_value-AllResolved spis all_small) [
          | inl (f, missing) ↦ inl (rw (e, f, check_spi_value) refl, there missing)
          | inr (us, f, rest) ↦ inr (u ∷ us, rw (e, f, check_spi_value) refl, (resolved, rest))
        ]
      ]
