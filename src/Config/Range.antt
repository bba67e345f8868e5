-- ===== src/Config/Range.antt =====
-- parse_range of parser.c.
use ipsec_secgw_old.Prelude.{
  ℕ, ◌+◌, ◌-◌, ◌%◌, ◌^◌, ◌≤◌, ◌≡◌, refl, sym, ap, ◌∙◌, inl, inr, Bool-cases, true, false, ◌==◌, leb,
  if◌then◌else◌, [], ◌∷◌, ◌++◌, append_assoc, append-nil, Option, none, some, length, length-append,
  arith,
}
use ipsec_secgw_old.Config.Token.{Token, is_digit, is_str_num, atoi}

-- An int is -1 where it is not set, or where its digits make it so.
abbrev pub low_of : ℕ → Option ℕ
low_of n = if n == 2 ^ 32 - 1 then none else some n

-- The loop: the digits of the number so far, and the low end if the colon was read. `none` for an
-- error.
unfoldable pub range_loop : Token → Option ℕ → Token → Option (Token × Option ℕ)
range_loop num low [] = some (num, low)
range_loop num low (c ∷ cs) =
    if is_digit c
    then elim (leb 19 (length num)) [ true ↦ none | false ↦ range_loop (num ++ c ∷ []) low cs ]
    else if c == b':'
    then elim low [ some l ↦ none | none ↦ range_loop [] (low_of (atoi num)) cs ]
    else range_loop num low cs

-- Without a colon the low end is -1. Both ends are cut to 16 bits.
abbrev pub ends : Token → Option ℕ → Option (ℕ × ℕ)
ends [] low = none
ends (c ∷ cs) none = some (65535, atoi (c ∷ cs) % 65536)
ends (c ∷ cs) (some l) = some (l % 65536, atoi (c ∷ cs) % 65536)

-- The pointers for the ends are given.
unfoldable pub parse_range : Token → Option (ℕ × ℕ)
unfolding range_loop
parse_range t = elim (range_loop [] none t) [ none ↦ none | some (num, low) ↦ ends num low ]

is_str_num-tail :
    (c : ℕ) (cs : Token) → is_digit c ≡ true → is_str_num (c ∷ cs) ≡ true → is_str_num cs ≡ true
unfolding is_str_num
is_str_num-tail c cs e digits = ground arith

-- Digits are taken to the number, and after them the colon, or the end.
range_loop-digits :
    (num : Token) (low : Option ℕ) (ds rest : Token)
    → is_str_num ds ≡ true
    → length num + length ds ≤ 19
    → range_loop num low (ds ++ rest) ≡ range_loop (num ++ ds) low rest
unfolding range_loop is_str_num
range_loop-digits num low [] rest digits short =
    ap (λ n. range_loop n low rest) (sym (append-nil num))
range_loop-digits num low (c ∷ cs) rest digits short = elim (Bool-cases (is_digit c)) [
  | inr e ↦ absurd (cc (e, digits))
  | inl e ↦
      let room : leb 19 (length num) ≡ false = ground arith in
      rw (e, room)
        (range_loop-digits (num ++ c ∷ []) low cs rest (is_str_num-tail c cs e digits)
            (omega (arith, length-append num (c ∷ []), short))
          ∙ ap (λ n. range_loop n low rest) (append_assoc num (c ∷ []) cs))
]

range_loop-colon :
    (low high : Token) (d : ℕ)
    → is_str_num low ≡ true
    → is_str_num (d ∷ high) ≡ true
    → length low ≤ 19
    → length (d ∷ high) ≤ 19
    → range_loop [] none (low ++ (b':' ∷ d ∷ high)) ≡ some (d ∷ high, low_of (atoi low))
unfolding range_loop
range_loop-colon low high d low_digits high_digits low_short high_short =
    range_loop-digits [] none low (b':' ∷ d ∷ high) low_digits (omega (arith, low_short))
    ∙ ap (range_loop [] (low_of (atoi low))) (sym (append-nil (d ∷ high)))
    ∙ range_loop-digits [] (low_of (atoi low)) (d ∷ high) [] high_digits (omega (arith, high_short))

ends-low_of :
    (d n : ℕ) (high : Token)
    → ends (d ∷ high) (low_of n) ≡ some (n % 65536, atoi (d ∷ high) % 65536)
ends-low_of d n high = elim (Bool-cases (n == 2 ^ 32 - 1)) [
  | inl e ↦ rw (e) (ap (λ l. some (l, atoi (d ∷ high) % 65536)) (ground arith))
  | inr e ↦ rw (e) refl
]

-- Two numbers with a colon between them are read as the two ends, cut to 16 bits.
pub parse_range-digits :
    (low high : Token) (d : ℕ)
    → is_str_num low ≡ true
    → is_str_num (d ∷ high) ≡ true
    → length low ≤ 19
    → length (d ∷ high) ≤ 19
    → parse_range (low ++ (b':' ∷ d ∷ high)) ≡ some (atoi low % 65536, atoi (d ∷ high) % 65536)
unfolding parse_range
parse_range-digits low high d low_digits high_digits low_short high_short =
    rw (range_loop-colon low high d low_digits high_digits low_short high_short, parse_range)
      (ends-low_of d (atoi low) high)
