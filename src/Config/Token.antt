-- ===== src/Config/Token.antt =====
-- Tokens and numbers in parser.h and parser.c: is_str_num, parse_ipv4_addr and parse_ipv6_addr. A
-- token is its characters, without the one that ends it.
use Prim.Native.Char.{code}
use Prim.Native.String.{String}
use ipsec_secgw_old.Prelude.{
  ℕ, ◌+◌, ◌-◌, ◌*◌, ◌%◌, ◌^◌, min, Bool, true, false, ◌&&◌, ◌==◌, leb, if◌then◌else◌, List, [], ◌∷◌,
  Option, none, some, length, take,
}

abbrev pub Token : Type 0
Token = List ℕ

abbrev pub text : String → Token
text String.[] = []
text (String.◌∷◌ c s) = code c ∷ text s

-- strcmp gives 0.
abbrev pub same : Token → Token → Bool
same [] [] = true
same [] (d ∷ ds) = false
same (c ∷ cs) [] = false
same (c ∷ cs) (d ∷ ds) = (c == d) && same cs ds

abbrev pub is_word : Token → String → Bool
is_word t s = same t (text s)

abbrev pub is_digit : ℕ → Bool
is_digit c = leb b'0' c && leb c b'9'

-- is_str_num gives 0.
unfoldable pub is_str_num : Token → Bool
is_str_num [] = true
is_str_num (c ∷ cs) = let rest = is_str_num cs in if is_digit c then rest else false

-- The digits at the start of a token, after the number read so far.
unfoldable pub digits_value : ℕ → Token → ℕ
digits_value n [] = n
digits_value n (c ∷ cs) =
    let rest = digits_value (n * 10 + (c - b'0')) cs in if is_digit c then rest else n

-- atoi on a token that starts with a digit or is empty, as 32 bits: strtol stops at the largest
-- `long`, and its result is cut to an int.
unfoldable pub atoi : Token → ℕ
unfolding digits_value
atoi t = min (digits_value 0 t) (2 ^ 63 - 1) % 2 ^ 32

-- strchr(token, '/'): what is before it, and what is after it, if it is there.
unfoldable pub at_slash : Token → Token × Option Token
at_slash [] = ([], none)
at_slash (c ∷ cs) =
    let (before, after) = at_slash cs in if c == b'/' then ([], some cs) else (c ∷ before, after)

-- The depth after the slash, 0 where there is none.
abbrev pub depth_of : Option Token → Option ℕ
depth_of none = some 0
depth_of (some t) = if is_str_num t then some (atoi t) else none

module _ {ℓ} {A : Type ℓ} where
  -- The address is in a buffer that holds `room` characters, and is at most `limit` long.
  unfoldable pub parse_addr : (Token → Option A) → ℕ → ℕ → Token → Option (A × ℕ)
  unfolding at_slash is_str_num atoi
  parse_addr inet_pton room limit t =
      let (before, after) = at_slash t in
      let ip_str = take room before in
      elim (depth_of after) [
        | none ↦ none
        | some depth ↦ elim (leb limit (length ip_str)) [
          | true ↦ none
          | false ↦ elim (inet_pton ip_str) [ none ↦ none | some ip ↦ some (ip, depth) ]
        ]
      ]

  -- INET_ADDRSTRLEN is 16, and the buffer is of that size.
  abbrev pub parse_ipv4_addr : (Token → Option A) → Token → Option (A × ℕ)
  parse_ipv4_addr inet_pton = parse_addr inet_pton 15 16

  -- INET6_ADDRSTRLEN is 46, and the buffer holds 256.
  abbrev pub parse_ipv6_addr : (Token → Option A) → Token → Option (A × ℕ)
  parse_ipv6_addr inet_pton = parse_addr inet_pton 255 46
