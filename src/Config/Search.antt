-- ===== src/Config/Search.antt =====
-- The search for an SPI: sa_cmp and sa_spi_present of sa.c, sp_cmp, sp4_spi_present and
-- sp6_spi_present of sp4.c and sp6.c, and bsearch of the C library. An array is a function of the
-- index, to the SPI of an entry.
use native.Mathlib.Decide.{dec_lt}
use ipsec_secgw_old.Prelude.{
  ℕ, zero, suc, ◌+◌, ◌-◌, ◌/◌, ◌%◌, ◌^◌, ◌≤◌, ◌<◌, ◌≡◌, ◌≢◌, refl, ◌==◌, ltb, if◌then◌else◌,
  Bool-cases, ◌⊎◌, inl, inr, arith,
}

pub data Order : Type 0 where
  less same more : Order

-- (int)(spi1 - spi2): the difference as 32 bits, and its sign. sp_cmp of sp4.c and sp6.c is the same.
unfoldable pub sa_cmp : ℕ → ℕ → Order
sa_cmp spi1 spi2 =
    let d = (spi1 + 2 ^ 32 - spi2) % 2 ^ 32 in
    if d == 0 then same else if ltb d (2 ^ 31) then more else less

-- How a search ends: at an index, with nothing found, or out of rounds.
pub data Found : Type 0 where
  at : ℕ → Found
  absent out_of_rounds : Found

-- The search between `low` and `high`.
unfoldable pub bsearch : (ℕ → ℕ) → ℕ → ℕ → ℕ → ℕ → Found
bsearch a key zero low high = out_of_rounds
bsearch a key (suc rounds) low high =
    let mid = (low + high) / 2 in
    if ltb low high
    then elim (sa_cmp key (a mid)) [
      | same ↦ at mid
      | less ↦ bsearch a key rounds low mid
      | more ↦ bsearch a key rounds (mid + 1) high
    ]
    else absent

-- The index, as sa_spi_present gives it.
unfoldable pub sa_spi_present : (ℕ → ℕ) → ℕ → ℕ → Found
unfolding bsearch
sa_spi_present spi_of num spi = bsearch spi_of spi (suc num) 0 num

-- The entries are in the order of their SPIs, which qsort gives them.
unfoldable pub IsAscending : (ℕ → ℕ) → ℕ → Type 0
IsAscending a n = (i j : ℕ) → i ≤ j → j < n → a i ≤ a j

-- No entry is so far from another that the difference changes its sign.
unfoldable pub IsSmall : (ℕ → ℕ) → ℕ → Type 0
IsSmall a n = (i : ℕ) → i < n → a i < 2 ^ 31

-- An index with the key, or none in the part searched.
abbrev pub Locates : (ℕ → ℕ) → ℕ → ℕ → ℕ → Found → Type 0
Locates a key low high (at i) = (i < high) × (a i ≡ key)
Locates a key low high absent = (i : ℕ) → low ≤ i → i < high → a i ≢ key
Locates a key low high out_of_rounds = ⊥

cmp-less : (x y : ℕ) → x < 2 ^ 31 → y < 2 ^ 31 → sa_cmp x y ≡ less → x < y
unfolding sa_cmp
cmp-less x y sx sy e = ground arith

cmp-more : (x y : ℕ) → x < 2 ^ 31 → y < 2 ^ 31 → sa_cmp x y ≡ more → y < x
unfolding sa_cmp
cmp-more x y sx sy e = ground arith

cmp-same : (x y : ℕ) → x < 2 ^ 31 → y < 2 ^ 31 → sa_cmp x y ≡ same → y ≡ x
unfolding sa_cmp
cmp-same x y sx sy e = ground arith

Order-cases : (o : Order) → (o ≡ less) ⊎ ((o ≡ same) ⊎ (o ≡ more))
Order-cases less = inl refl
Order-cases same = inr (inl refl)
Order-cases more = inr (inr refl)

wider-Locates :
    (a : ℕ → ℕ) (key low mid high : ℕ) (f : Found)
    → mid ≤ high
    → ((i : ℕ) → mid ≤ i → i < high → a i ≢ key)
    → Locates a key low mid f
    → Locates a key low high f
wider-Locates a key low mid high (at i) le above (lt, e) = (omega arith, e)
wider-Locates a key low mid high absent le above none_below = λ i low_le lt. elim (dec_lt i mid) [
  | yes below ↦ none_below i low_le below
  | no not_below ↦ above i (omega arith) lt
]
wider-Locates a key low mid high out_of_rounds le above f = f

later-Locates :
    (a : ℕ → ℕ) (key low mid high : ℕ) (f : Found)
    → ((i : ℕ) → low ≤ i → i < mid → a i ≢ key)
    → Locates a key mid high f
    → Locates a key low high f
later-Locates a key low mid high (at i) below f = f
later-Locates a key low mid high absent below none_above = λ i low_le lt. elim (dec_lt i mid) [
  | yes under ↦ below i low_le under
  | no not_under ↦ none_above i (omega arith) lt
]
later-Locates a key low mid high out_of_rounds below f = f

module _ (a : ℕ → ℕ) (key n : ℕ) (ascending : IsAscending a n) (small : IsSmall a n) where
  bsearch-Locates :
      (rounds low high : ℕ)
      → key < 2 ^ 31
      → high ≤ n
      → low ≤ high
      → high < rounds + low
      → Locates a key low high (bsearch a key rounds low high)
  unfolding bsearch IsAscending IsSmall
  bsearch-Locates zero low high key_small le ordered enough = absurd (omega arith)
  bsearch-Locates (suc rounds) low high key_small le ordered enough =
      elim (Bool-cases (ltb low high)) [
        | inr e ↦ rw (e) (λ i low_le lt. absurd (ground arith))
        | inl e ↦
            let some_left : low < high = ground arith in
            let mid : ℕ = (low + high) / 2 in
            let mid_lt : mid < high = omega arith in
            let mid_ge : low ≤ mid = omega arith in
            let mid_small : a mid < 2 ^ 31 = small mid (omega arith) in
            elim (Order-cases (sa_cmp key (a mid))) [
              | inl o ↦
                  rw (e, o)
                    (wider-Locates a key low mid high (bsearch a key rounds low mid) (omega arith)
                      (λ i mid_le lt here. omega (
                        arith,
                        ascending mid i mid_le (omega arith),
                        cmp-less key (a mid) key_small mid_small o,
                        here,
                      ))
                      (bsearch-Locates rounds low mid key_small (omega arith) mid_ge (omega arith)))
              | inr (inl o) ↦ rw (e, o) (mid_lt, cmp-same key (a mid) key_small mid_small o)
              | inr (inr o) ↦
                  rw (e, o)
                    (later-Locates a key low (mid + 1) high (bsearch a key rounds (mid + 1) high)
                      (λ i low_le lt here. omega (
                        arith,
                        ascending i mid (omega arith) (omega arith),
                        cmp-more key (a mid) key_small mid_small o,
                        here,
                      ))
                      (bsearch-Locates rounds (mid + 1) high key_small le (omega arith)
                        (omega arith)))
            ]
      ]

  -- The search ends, and finds the SPI if it is there.
  pub sa_spi_present-Locates : key < 2 ^ 31 → Locates a key 0 n (sa_spi_present a n key)
  unfolding sa_spi_present
  sa_spi_present-Locates key_small =
      bsearch-Locates (suc n) 0 n key_small (omega arith) (omega arith) (omega arith)
