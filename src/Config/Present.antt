-- ===== src/Config/Present.antt =====
-- The rule with an SPI, and the addresses it holds: sp4_spi_present of sp4.c, sp6_spi_present of sp6.c.
-- A table is a function of the index. An address is the list of its words, as in a rule.
use ipsec_secgw_old.Prelude.{
  ℕ, zero, suc, ◌+◌, ◌-◌, ◌*◌, ◌/◌, ◌%◌, ◌^◌, ◌<◌, ◌≡◌, ◌≢◌, refl, min, ap, subst, sym, ◌∙◌, inl,
  inr, Bool-cases, Option-cases, length, leb, take, ltb, if◌then◌else◌, List, [], ◌∷◌, Option, none,
  some, arith,
}
use ipsec_secgw_old.Config.Search.{
  Found, at, absent, out_of_rounds, sa_spi_present, Locates, IsAscending, IsSmall,
  sa_spi_present-Locates,
}
use ipsec_secgw_old.Config.Rule.{AclRule}
use ipsec_secgw_old.Config.Token.{Token, parse_ipv6_addr, parse_addr, at_slash, depth_of}
use ipsec_secgw_old.Config.Policies.{words6, word_at, words_from}

-- The value and the mask of a word; 0 where the rule has none.
abbrev pub field : List (ℕ × ℕ) → ℕ → ℕ × ℕ
field [] i = (0, 0)
field (w ∷ ws) zero = w
field (w ∷ ws) (suc i) = field ws i

-- Octet `i` of 8, as rte_cpu_to_be_64 stores the number.
abbrev pub be_octet : ℕ → ℕ → ℕ
be_octet n i = n / 2 ^ (8 * (7 - i)) % 256

-- The words as 64 bits.
unfoldable pub ipv6_from_sp : List (ℕ × ℕ) → ℕ → ℕ → ℕ
ipv6_from_sp ws low high = (field ws high).0 * 2 ^ 32 + (field ws low).0

-- Octet `i` of an address.
unfoldable pub ipv6_addr_from_sp : List (ℕ × ℕ) → ℕ → ℕ
unfolding ipv6_from_sp
ipv6_addr_from_sp ws i =
    if ltb i 8 then be_octet (ipv6_from_sp ws 1 0) i else be_octet (ipv6_from_sp ws 3 2) (i - 8)

unfoldable pub ipv6_mask_from_sp : List (ℕ × ℕ) → ℕ
ipv6_mask_from_sp ws = ((field ws 0).1 + (field ws 1).1 + (field ws 2).1 + (field ws 3).1) % 2 ^ 32

-- What a caller is told of a rule: its index, its addresses, source first, and their masks.
pub record Present {ℓ} (A : Type ℓ) : Type ℓ where
  pub index : ℕ
  pub ip_addr : A × A
  pub mask : ℕ × ℕ

-- The pointers for the addresses and masks are given. `none` for -ENOENT.
unfoldable pub sp4_spi_present : (ℕ → AclRule) → ℕ → ℕ → Option (Present ℕ)
unfolding sa_spi_present
sp4_spi_present acr num spi = elim (sa_spi_present (λ i. (acr i).userdata) num spi) [
  | at i ↦ some (record {
    index = i;
    ip_addr = ((field (acr i).src 0).0, (field (acr i).dst 0).0);
    mask = ((field (acr i).src 0).1, (field (acr i).dst 0).1);
  })
  | absent ↦ none
  | out_of_rounds ↦ none
]

unfoldable pub sp6_spi_present : (ℕ → AclRule) → ℕ → ℕ → Option (Present (ℕ → ℕ))
unfolding sa_spi_present ipv6_addr_from_sp ipv6_mask_from_sp
sp6_spi_present acr num spi = elim (sa_spi_present (λ i. (acr i).userdata) num spi) [
  | at i ↦ some (record {
    index = i;
    ip_addr = (ipv6_addr_from_sp (acr i).src, ipv6_addr_from_sp (acr i).dst);
    mask = (ipv6_mask_from_sp (acr i).src, ipv6_mask_from_sp (acr i).dst);
  })
  | absent ↦ none
  | out_of_rounds ↦ none
]

-- For rules in the order of their SPIs, all below 2 ^ 31: where no rule is given, none has the SPI.
pub sp4_spi_present-none :
    (acr : ℕ → AclRule) (num spi : ℕ)
    → IsAscending (λ i. (acr i).userdata) num
    → IsSmall (λ i. (acr i).userdata) num
    → spi < 2 ^ 31
    → sp4_spi_present acr num spi ≡ none
    → (i : ℕ) → i < num
    → (acr i).userdata ≢ spi
unfolding sp4_spi_present
sp4_spi_present-none acr num spi ascending small spi_small e =
    searched (sa_spi_present (λ i. (acr i).userdata) num spi) refl
      (sa_spi_present-Locates (λ i. (acr i).userdata) spi num ascending small spi_small)
  where
    searched :
        (f : Found)
        → sa_spi_present (λ i. (acr i).userdata) num spi ≡ f
        → Locates (λ i. (acr i).userdata) spi 0 num f
        → (i : ℕ) → i < num
        → (acr i).userdata ≢ spi
    searched (at i) f located = absurd (cc (rw (f, sp4_spi_present) at e))
    searched absent f none_there = λ i lt. none_there i (omega arith) lt
    searched out_of_rounds f never = absurd never

unfoldable pub IsOctetArray : (ℕ → ℕ) → Type 0
IsOctetArray ip = (i : ℕ) → ip i < 256

-- Octet `i` of the eight of two words.
be_octet-word_at :
    (ip : ℕ → ℕ) (i : ℕ)
    → IsOctetArray ip
    → i < 8
    → be_octet (word_at ip 0 * 2 ^ 32 + word_at ip 4) i ≡ ip i
unfolding IsOctetArray
be_octet-word_at ip i small lt = eight i lt
  where
    eight : (j : ℕ) → j < 8 → be_octet (word_at ip 0 * 2 ^ 32 + word_at ip 4) j ≡ ip j
    eight zero _ =
        omega (arith, small 0, small 1, small 2, small 3, small 4, small 5, small 6, small 7)
    eight (suc zero) _ =
        omega (arith, small 0, small 1, small 2, small 3, small 4, small 5, small 6, small 7)
    eight (suc (suc zero)) _ =
        omega (arith, small 0, small 1, small 2, small 3, small 4, small 5, small 6, small 7)
    eight (suc (suc (suc zero))) _ =
        omega (arith, small 0, small 1, small 2, small 3, small 4, small 5, small 6, small 7)
    eight (suc (suc (suc (suc zero)))) _ =
        omega (arith, small 0, small 1, small 2, small 3, small 4, small 5, small 6, small 7)
    eight (suc (suc (suc (suc (suc zero))))) _ =
        omega (arith, small 0, small 1, small 2, small 3, small 4, small 5, small 6, small 7)
    eight (suc (suc (suc (suc (suc (suc zero)))))) _ =
        omega (arith, small 0, small 1, small 2, small 3, small 4, small 5, small 6, small 7)
    eight (suc (suc (suc (suc (suc (suc (suc zero))))))) _ =
        omega (arith, small 0, small 1, small 2, small 3, small 4, small 5, small 6, small 7)
    eight (suc (suc (suc (suc (suc (suc (suc (suc k)))))))) too_large = absurd (omega arith)

ipv6_addr_from_sp-words_from :
    (ip : ℕ → ℕ) (depth i : ℕ)
    → IsOctetArray ip
    → i < 16
    → ipv6_addr_from_sp (words_from ip 0 4 depth) i ≡ ip i
unfolding ipv6_addr_from_sp ipv6_from_sp IsOctetArray
ipv6_addr_from_sp-words_from ip depth i small lt = elim (Bool-cases (ltb i 8)) [
  | inl e ↦ rw (e) (be_octet-word_at ip i small (ground arith))
  | inr e ↦ rw (e) (
      be_octet-word_at (λ k. ip (k + 8)) (i - 8) (λ k. small (k + 8)) (omega arith)
      ∙ ap ip (ground arith))
]

-- The depth that the four masks make up.
ipv6_mask_from_sp-words_from :
    (ip : ℕ → ℕ) (depth : ℕ) → ipv6_mask_from_sp (words_from ip 0 4 depth) ≡ min depth 128
unfolding ipv6_mask_from_sp
ipv6_mask_from_sp-words_from ip depth = ground arith

-- What a rule holds of an address as it was written.
pub record IsAddress (inet_pton : Token → Option (ℕ → ℕ)) (t : Token) (out : ℕ → ℕ) (mask : ℕ)
    : Type 0 where
  pub ip : ℕ → ℕ
  pub depth : ℕ
  pub parsed : parse_ipv6_addr inet_pton t ≡ some (ip, depth)
  pub same_octets : (i : ℕ) → i < 16 → out i ≡ ip i
  pub same_depth : mask ≡ min depth 128

-- inet_pton gives octets.
unfoldable pub GivesOctets : (Token → Option (ℕ → ℕ)) → Type 0
GivesOctets inet_pton = (t : Token) (ip : ℕ → ℕ) → inet_pton t ≡ some ip → IsOctetArray ip

parse_ipv6_addr-octets :
    (inet_pton : Token → Option (ℕ → ℕ)) (t : Token) (ip : ℕ → ℕ) (depth : ℕ)
    → GivesOctets inet_pton
    → parse_ipv6_addr inet_pton t ≡ some (ip, depth)
    → IsOctetArray ip
unfolding GivesOctets parse_addr
parse_ipv6_addr-octets inet_pton t ip depth gives e =
    let written : Token = take 255 ((at_slash t).0) in
    elim (Option-cases (depth_of ((at_slash t).1))) [
      | inl f ↦ absurd (cc (rw (f, parse_ipv6_addr, parse_addr) at e))
      | inr (d, f) ↦ elim (Bool-cases (leb 46 (length written))) [
        | inl g ↦ absurd (cc (rw (f, g, parse_ipv6_addr, parse_addr) at e))
        | inr g ↦ elim (Option-cases (inet_pton written)) [
          | inl h ↦ absurd (cc (rw (f, g, h, parse_ipv6_addr, parse_addr) at e))
          | inr (ip', h) ↦
              let same : some (ip', d) ≡ some (ip, depth) =
                rw (f, g, h, parse_ipv6_addr, parse_addr) at e in
              let same_ip : ip' ≡ ip = cc same in subst IsOctetArray same_ip (gives written ip' h)
        ]
      ]
    ]

words6-IsAddress :
    (inet_pton : Token → Option (ℕ → ℕ)) (t : Token) (ws : List (ℕ × ℕ))
    → GivesOctets inet_pton
    → words6 inet_pton t ≡ some ws
    → IsAddress inet_pton t (ipv6_addr_from_sp ws) (ipv6_mask_from_sp ws)
words6-IsAddress inet_pton t ws gives e = elim (Option-cases (parse_ipv6_addr inet_pton t)) [
  | inl f ↦ absurd (cc (rw (f, words6) at e))
  | inr ((ip, depth), f) ↦
      let same : some (words_from ip 0 4 depth) ≡ some ws = rw (f, words6) at e in
      let same_words : words_from ip 0 4 depth ≡ ws = cc same in
      subst (λ v. IsAddress inet_pton t (ipv6_addr_from_sp v) (ipv6_mask_from_sp v)) same_words
        (record {
          ip = ip;
          depth = depth;
          parsed = f;
          same_octets = λ i lt.
              ipv6_addr_from_sp-words_from ip depth i
                (parse_ipv6_addr-octets inet_pton t ip depth gives f) lt;
          same_depth = ipv6_mask_from_sp-words_from ip depth;
        })
]

-- The rule with the SPI, which was given these addresses.
module _ (inet_pton : Token → Option (ℕ → ℕ)) (acr : ℕ → AclRule) (num spi k : ℕ)
    (src_t dst_t : Token) where
  -- What a caller is told of the rule `k` is what was written.
  unfoldable pub IsWritten : Present (ℕ → ℕ) → Type 0
  IsWritten p =
      (p.index ≡ k)
      × IsAddress inet_pton src_t (p.ip_addr.0) (p.mask.0)
      × IsAddress inet_pton dst_t (p.ip_addr.1) (p.mask.1)

  rule_of : ℕ → Present (ℕ → ℕ)
  rule_of i = record {
    index = i;
    ip_addr = (ipv6_addr_from_sp (acr i).src, ipv6_addr_from_sp (acr i).dst);
    mask = (ipv6_mask_from_sp (acr i).src, ipv6_mask_from_sp (acr i).dst);
  }

  rule_of-IsWritten :
      GivesOctets inet_pton
      → words6 inet_pton src_t ≡ some (acr k).src
      → words6 inet_pton dst_t ≡ some (acr k).dst
      → IsWritten (rule_of k)
  unfolding IsWritten rule_of
  rule_of-IsWritten gives src_e dst_e = (
    refl,
    words6-IsAddress inet_pton src_t (acr k).src gives src_e,
    words6-IsAddress inet_pton dst_t (acr k).dst gives dst_e,
  )

  -- The one rule with the SPI is found, and what is told of it are the addresses that were written,
  -- with their depths as far as an address goes.
  pub sp6_spi_present-IsWritten :
      GivesOctets inet_pton
      → IsAscending (λ i. (acr i).userdata) num
      → IsSmall (λ i. (acr i).userdata) num
      → spi < 2 ^ 31
      → k < num
      → (acr k).userdata ≡ spi
      → ((i : ℕ) → i < num → (acr i).userdata ≡ spi → i ≡ k)
      → words6 inet_pton src_t ≡ some (acr k).src
      → words6 inet_pton dst_t ≡ some (acr k).dst
      → (p : Present (ℕ → ℕ)) × (sp6_spi_present acr num spi ≡ some p) × IsWritten p
  unfolding sp6_spi_present rule_of
  sp6_spi_present-IsWritten gives ascending small spi_small lt own only src_e dst_e =
      found (sa_spi_present (λ i. (acr i).userdata) num spi) refl
        (sa_spi_present-Locates (λ i. (acr i).userdata) spi num ascending small spi_small)
    where
      found :
          (f : Found)
          → sa_spi_present (λ i. (acr i).userdata) num spi ≡ f
          → Locates (λ i. (acr i).userdata) spi 0 num f
          → (p : Present (ℕ → ℕ)) × (sp6_spi_present acr num spi ≡ some p) × IsWritten p
      found (at i) e (i_lt, i_own) = (
        rule_of i,
        rw (e, sp6_spi_present) refl,
        subst (λ j. IsWritten (rule_of j)) (sym (only i i_lt i_own))
            (rule_of-IsWritten gives src_e dst_e),
      )
      found absent e none_there = absurd (none_there k (omega arith) lt own)
      found out_of_rounds e never = absurd never
