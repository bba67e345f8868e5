-- ===== src/Config/Neighbour.antt =====
-- The neighbours of the configuration: parse_uint8x16, parse_mac and cfg_parse_neigh of parser.c, and
-- add_dst_ethaddr of ipsec-secgw.c. strtoul with base 16 is a parameter: the number and the rest of
-- the text, or `none` where it sets errno.
use ipsec_secgw_old.Prelude.{
  ℕ, zero, suc, ◌<◌, ◌≡◌, refl, Bool, true, false, ◌==◌, leb, if◌then◌else◌, List, [], ◌∷◌, Option,
  none, some, drop, ◌≢◌, arith,
}
use ipsec_secgw_old.Worker.Route.{EthaddrInfo}
use ipsec_secgw_old.Config.Token.{Token}

abbrev pub Strtoul : Type 0
Strtoul = Token → Option (ℕ × Token)

-- What comes after the character, or at the end where none is given.
abbrev pub after_stop : Option ℕ → Token → Option Token
after_stop none [] = some []
after_stop none (c ∷ cs) = none
after_stop (some d) [] = none
after_stop (some d) (c ∷ cs) = if c == d then some cs else none

-- An octet, and what comes after the character that ends it.
unfoldable pub parse_uint8x16 : Strtoul → Token → Option ℕ → Option (ℕ × Token)
parse_uint8x16 strtoul s stop = elim (strtoul s) [
  | none ↦ none
  | some (t, end) ↦ elim (after_stop stop end) [
    | none ↦ none
    | some rest ↦ if leb t 255 then some (t, rest) else none
  ]
]

-- The octets before the last each end with a colon. True where all are read, and the address, which
-- keeps what it holds from the octet on that is refused.
unfoldable pub parse_octets : Strtoul → ℕ → Token → List ℕ → Bool × List ℕ
unfolding parse_uint8x16
parse_octets strtoul zero s addr = elim (parse_uint8x16 strtoul s none) [
  | none ↦ (false, addr)
  | some (t, rest) ↦ (true, t ∷ [])
]
parse_octets strtoul (suc n) s addr = elim (parse_uint8x16 strtoul s (some b':')) [
  | none ↦ (false, addr)
  | some (t, rest) ↦ let (ok, ts) = parse_octets strtoul n rest (drop 1 addr) in (ok, t ∷ ts)
]

unfoldable pub parse_mac : Strtoul → Token → List ℕ → Bool × List ℕ
unfolding parse_octets
parse_mac strtoul = parse_octets strtoul 5

-- RTE_MAX_ETHPORTS.
abbrev pub max_ethports : ℕ
max_ethports = 32

abbrev pub octets : List ℕ → ℕ → ℕ
octets [] i = 0
octets (x ∷ xs) zero = x
octets (x ∷ xs) (suc i) = octets xs i

-- The table of addresses, and whether the port is one of its.
unfoldable pub add_dst_ethaddr : (ℕ → EthaddrInfo) → ℕ → List ℕ → Bool × (ℕ → EthaddrInfo)
add_dst_ethaddr tbl port mac =
    if leb max_ethports port
    then (false, tbl)
    else (true, λ p. if p == port then record (tbl p) { dst = octets mac } else tbl p)

-- Each check sets the status: what is left is that of the last. True where the status is not negative.
-- The address is on the stack, and is not cleared.
unfoldable pub cfg_parse_neigh :
    Strtoul → List ℕ → (ℕ → EthaddrInfo) → ℕ → Token → Bool × (ℕ → EthaddrInfo)
unfolding parse_mac add_dst_ethaddr
cfg_parse_neigh strtoul stack tbl port mac_text =
    let (valid, mac) = parse_mac strtoul mac_text stack in add_dst_ethaddr tbl port mac

parse_mac-refused :
    (strtoul : Strtoul) (mac_text : Token) (stack : List ℕ)
    → parse_uint8x16 strtoul mac_text (some b':') ≡ none
    → parse_mac strtoul mac_text stack ≡ (false, stack)
unfolding parse_mac parse_octets
parse_mac-refused strtoul mac_text stack no_octet = rw (no_octet, parse_mac, parse_octets) refl

-- A text whose first octet is refused is accepted for a port below RTE_MAX_ETHPORTS: the status is not
-- negative, the port's address becomes what the stack held, and no other port's address changes.
pub cfg_parse_neigh-accepts :
    (strtoul : Strtoul) (stack : List ℕ) (tbl : ℕ → EthaddrInfo) (port : ℕ) (mac_text : Token)
    → parse_uint8x16 strtoul mac_text (some b':') ≡ none
    → port < max_ethports
    → ((cfg_parse_neigh strtoul stack tbl port mac_text).0 ≡ true)
      × (((cfg_parse_neigh strtoul stack tbl port mac_text).1 port).dst ≡ octets stack)
      × ((p : ℕ) → p ≢ port → (cfg_parse_neigh strtoul stack tbl port mac_text).1 p ≡ tbl p)
unfolding cfg_parse_neigh add_dst_ethaddr
cfg_parse_neigh-accepts strtoul stack tbl port mac_text no_octet small =
    let known : leb max_ethports port ≡ false = ground arith in
    let same_port : (port == port) ≡ true = ground arith in
    let refused : parse_mac strtoul mac_text stack ≡ (false, stack) =
      parse_mac-refused strtoul mac_text stack no_octet in
    (
      rw (refused, known) refl,
      rw (refused, known, same_port) refl,
      λ p other.
          let other_port : (p == port) ≡ false = ground arith in
          rw (refused, known, other_port) refl,
    )
