-- ===== src/Tests/Settings.antt =====
-- Lines of a configuration file and tables of rules, and the theorems on the configuration there.
use ipsec_secgw_old.Prelude.{
  ℕ, ◌+◌, ◌*◌, ◌≡◌, ◌≢◌, ◌⊎◌, refl, subst, arith, true, false, ◌==◌, if◌then◌else◌, List, [], ◌∷◌,
  Option, none, some,
}
use ipsec_secgw_old.Worker.Route.{EthaddrInfo}
use ipsec_secgw_old.Config.Token.{Token, text, parse_addr, atoi, digits_value, at_slash, is_str_num}
use ipsec_secgw_old.Config.Range.{parse_range, range_loop}
use ipsec_secgw_old.Config.Search.{
  sa_spi_present, bsearch, sa_cmp, at, absent, IsAscending, IsSmall,
}
use ipsec_secgw_old.Config.Resolve.{
  check_spi_value, AnyMissing, AllResolved, check_spi_value-AllResolved,
}
use ipsec_secgw_old.Config.Rule.{
  AclRule, no_rule, word_of, item_of, item, argument, read_proto, read_sport, read_dport, sp_items,
}
use ipsec_secgw_old.Config.Policies.{
  SpTable, SpTables, cleared, extend_sp_arr, added, add_rule, parse_sp_tokens, words4, words6,
  parse_sp4_tokens, null_token,
}
use ipsec_secgw_old.Config.Policies.Table.{IsTable, IsNewEntry, add_rule-IsNewEntry}
use ipsec_secgw_old.Config.Neighbour.{
  Strtoul, parse_uint8x16, octets, cfg_parse_neigh, cfg_parse_neigh-accepts,
}
use ipsec_secgw_old.Config.Routes.{
  rt_items, route_item, after_dst, add_route, Routes, parse_rt_tokens,
}
use ipsec_secgw_old.Config.Routes.Grown.{none_left, IsParsed, parse_rt_tokens-IsParsed}
use ipsec_secgw_old.Config.Inline.{
  SpRules, InlineSa, ip4, get_spi_proto, sa_add_address_inline_crypto,
}
use ipsec_secgw_old.Config.Inline.Taken.{IsTaken, sa_add_address_inline_crypto-IsTaken}
use ipsec_secgw_old.Config.Present.{
  sp4_spi_present, ipv6_addr_from_sp, ipv6_from_sp, ipv6_mask_from_sp, sp6_spi_present, GivesOctets,
  IsOctetArray, IsWritten, Present, sp6_spi_present-IsWritten,
}

-- Three SAs, with the SPIs 5, 7 and 9.
abbrev spi_of : ℕ → ℕ
spi_of i = 5 + 2 * i

spi_of-IsAscending : IsAscending spi_of 3
unfolding IsAscending
spi_of-IsAscending = λ i j le lt. omega arith

spi_of-IsSmall : IsSmall spi_of 3
unfolding IsSmall
spi_of-IsSmall = λ i lt. omega arith

found_7 : sa_spi_present spi_of 3 7 ≡ at 1
unfolding sa_spi_present bsearch sa_cmp
found_7 = refl

absent_8 : sa_spi_present spi_of 3 8 ≡ absent
unfolding sa_spi_present bsearch sa_cmp
absent_8 = refl

-- A rule to discard, and one that protects with the second SA.
abbrev two_spis : List ℕ
two_spis = 0 ∷ 7 ∷ []

check_spi_value-AllResolved_example :
    ((check_spi_value spi_of 3 two_spis ≡ none) × AnyMissing spi_of 3 two_spis)
    ⊎ ((us : List ℕ) × (check_spi_value spi_of 3 two_spis ≡ some us)
        × AllResolved spi_of 3 two_spis us)
check_spi_value-AllResolved_example =
    check_spi_value-AllResolved spi_of 3 spi_of-IsAscending spi_of-IsSmall (omega arith) two_spis
      (λ other. omega arith, (λ other. omega arith, tt))

-- Addresses of IPv4 are a number here.
abbrev pton4 : Token → Option ℕ
pton4 t = some 10

abbrev words : List Token
words =
    text "esp"
    ∷ text "protect"
    ∷ text "7"
    ∷ text "dst"
    ∷ text "10.0.0.0/8"
    ∷ text "proto"
    ∷ text "6:17"
    ∷ []

abbrev empty_table : SpTable
empty_table = record { rules = none; nb = 0; sz = 0 }

abbrev new_rule : AclRule
new_rule = record no_rule { category_mask = 1; userdata = 7; dst = (10, 8) ∷ []; proto = (6, 17) }

abbrev one_rule : SpTable
one_rule = record { rules = some (new_rule ∷ cleared 127); nb = 1; sz = 128 }

abbrev inbound : SpTable → SpTables
inbound t = record { sp_in = t; sp_out = empty_table }

words-added : add_rule (words4 pton4) true words empty_table inbound ≡ added (inbound one_rule)
unfolding add_rule extend_sp_arr sp_items item word_of item_of argument read_proto read_sport
    read_dport parse_range range_loop parse_addr atoi digits_value at_slash is_str_num
words-added = refl

empty_table-IsTable : IsTable empty_table
unfolding IsTable
empty_table-IsTable = refl

add_rule-IsNewEntry_example :
    (t' : SpTable) × (inbound one_rule ≡ inbound t')
    × IsNewEntry (words4 pton4) words empty_table t'
add_rule-IsNewEntry_example =
    add_rule-IsNewEntry (words4 pton4) true words none 0 0 inbound (inbound one_rule)
      empty_table-IsTable words-added

no_direction : parse_sp4_tokens pton4 true (inbound empty_table) [] ≡ null_token
unfolding parse_sp_tokens
no_direction = refl

-- Without a colon the low end is what -1 leaves in 16 bits.
no_colon : parse_range (text "1x7") ≡ some (65535, 17)
unfolding parse_range range_loop atoi digits_value
no_colon = refl

-- strtoul where it sets errno.
abbrev no_number : Strtoul
no_number t = none

abbrev ethaddr_tbl : ℕ → EthaddrInfo
ethaddr_tbl p = record { src = λ i. i; dst = λ i. 0 }

abbrev garbage : List ℕ
garbage = 1 ∷ 2 ∷ 3 ∷ 4 ∷ 5 ∷ 6 ∷ []

no_octet : parse_uint8x16 no_number (text "zz") (some b':') ≡ none
unfolding parse_uint8x16
no_octet = refl

cfg_parse_neigh-accepts_example :
    ((cfg_parse_neigh no_number garbage ethaddr_tbl 3 (text "zz")).0 ≡ true)
    × (((cfg_parse_neigh no_number garbage ethaddr_tbl 3 (text "zz")).1 3).dst ≡ octets garbage)
    × ((p : ℕ)
        → p ≢ 3
        → (cfg_parse_neigh no_number garbage ethaddr_tbl 3 (text "zz")).1 p ≡ ethaddr_tbl p)
cfg_parse_neigh-accepts_example =
    cfg_parse_neigh-accepts no_number garbage ethaddr_tbl 3 (text "zz") no_octet (omega arith)

-- The octets 32, 1 and zeros.
abbrev octets_2001 : ℕ → ℕ
octets_2001 i = if i == 0 then 32 else if i == 1 then 1 else 0

abbrev pton6 : Token → Option (ℕ → ℕ)
pton6 t = some octets_2001

abbrev no_routes : Routes
no_routes = record { rt_ip4 = []; rt_ip6 = [] }

abbrev one_route : Routes
one_route = record { rt_ip4 = record { ip = 10; depth = 24; if_out = 1 } ∷ []; rt_ip6 = [] }

abbrev route_words : List Token
route_words = text "dst" ∷ text "172.16.2.5/24" ∷ text "port" ∷ text "1" ∷ []

route-parsed : parse_rt_tokens pton4 pton6 no_routes (text "ipv4") route_words ≡ some one_route
unfolding parse_rt_tokens add_route rt_items route_item after_dst parse_addr atoi digits_value
    at_slash is_str_num
route-parsed = refl

parse_rt_tokens-IsParsed_example : IsParsed no_routes one_route
parse_rt_tokens-IsParsed_example =
    parse_rt_tokens-IsParsed pton4 pton6 no_routes one_route (text "ipv4") route_words
      (record {
        table4 = record { bounded = omega arith; all_octets = none_left };
        table6 = record { bounded = omega arith; all_octets = none_left };
      })
      route-parsed

-- Two rules for IPv6, the first with the SPI 5 and the second with 7.
abbrev words_2001 : List (ℕ × ℕ)
words_2001 = (536936448, 32) ∷ (0, 32) ∷ (0, 0) ∷ (0, 0) ∷ []

abbrev acl6_rules : ℕ → AclRule
acl6_rules i = record no_rule { userdata = 5 + 2 * i; src = words_2001; dst = words_2001 }

words_2001-parsed : words6 pton6 (text "2001::/64") ≡ some words_2001
unfolding parse_addr at_slash is_str_num atoi digits_value
words_2001-parsed = refl

octets_2001-IsOctetArray : IsOctetArray octets_2001
unfolding IsOctetArray
octets_2001-IsOctetArray = λ i. ground arith

pton6-GivesOctets : GivesOctets pton6
unfolding GivesOctets
pton6-GivesOctets =
    λ t ip e. let same : octets_2001 ≡ ip = cc e in subst IsOctetArray same octets_2001-IsOctetArray

acl6_rules-IsAscending : IsAscending (λ i. (acl6_rules i).userdata) 2
unfolding IsAscending
acl6_rules-IsAscending = λ i j le lt. omega arith

acl6_rules-IsSmall : IsSmall (λ i. (acl6_rules i).userdata) 2
unfolding IsSmall
acl6_rules-IsSmall = λ i lt. omega arith

sp6_spi_present-IsWritten_example :
    (p : Present (ℕ → ℕ)) × (sp6_spi_present acl6_rules 2 7 ≡ some p)
    × IsWritten pton6 acl6_rules 2 7 1 (text "2001::/64") (text "2001::/64") p
sp6_spi_present-IsWritten_example =
    sp6_spi_present-IsWritten pton6 acl6_rules 2 7 1 (text "2001::/64") (text "2001::/64")
      pton6-GivesOctets acl6_rules-IsAscending acl6_rules-IsSmall (omega arith) (omega arith) refl
      (λ i lt e. omega arith) words_2001-parsed words_2001-parsed

-- The same rules with whole addresses, for an SA of inline crypto.
abbrev words_host : List (ℕ × ℕ)
words_host = (536936448, 32) ∷ (0, 32) ∷ (0, 32) ∷ (0, 32) ∷ []

abbrev host_rules : SpRules
host_rules = record {
  acl4 = λ i. no_rule;
  nb_acl4 = 0;
  acl6 = λ i. record no_rule { userdata = 5 + 2 * i; src = words_host; dst = words_host };
  nb_acl6 = 2;
}

words_host-parsed : words6 pton6 (text "2001::/128") ≡ some words_host
unfolding parse_addr at_slash is_str_num atoi digits_value
words_host-parsed = refl

abbrev inline_sa : InlineSa
inline_sa = record { ip4_transport = false; ip6_transport = false; src = ip4 0; dst = ip4 0 }

host-added : (sa_add_address_inline_crypto host_rules 7 inline_sa).0 ≡ true
unfolding sa_add_address_inline_crypto get_spi_proto sp4_spi_present sp6_spi_present sa_spi_present
    bsearch sa_cmp ipv6_addr_from_sp ipv6_from_sp ipv6_mask_from_sp
host-added = refl

host_rules-IsAscending : IsAscending (λ i. (host_rules.acl6 i).userdata) 2
unfolding IsAscending
host_rules-IsAscending = λ i j le lt. omega arith

host_rules-IsSmall : IsSmall (λ i. (host_rules.acl6 i).userdata) 2
unfolding IsSmall
host_rules-IsSmall = λ i lt. omega arith

host_rules4-IsAscending : IsAscending (λ i. (host_rules.acl4 i).userdata) 0
unfolding IsAscending
host_rules4-IsAscending = λ i j le lt. absurd (omega arith)

host_rules4-IsSmall : IsSmall (λ i. (host_rules.acl4 i).userdata) 0
unfolding IsSmall
host_rules4-IsSmall = λ i lt. absurd (omega arith)

sa_add_address_inline_crypto-IsTaken_example :
    IsTaken pton6 host_rules 7
      (text "2001::/128")
      (text "2001::/128")
      ((sa_add_address_inline_crypto host_rules 7 inline_sa).1)
sa_add_address_inline_crypto-IsTaken_example =
    sa_add_address_inline_crypto-IsTaken pton6 host_rules 7 1 (text "2001::/128")
      (text "2001::/128") inline_sa pton6-GivesOctets host_rules-IsAscending host_rules-IsSmall
      host_rules4-IsAscending host_rules4-IsSmall (omega arith) (omega arith) refl
      (λ i lt e. omega arith) words_host-parsed words_host-parsed host-added
