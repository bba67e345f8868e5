-- ===== src/Config/Rule.antt =====
-- The words of one security policy: the loop of parse_sp4_tokens of sp4.c and of parse_sp6_tokens of
-- sp6.c, which differ in the addresses they read.
use ipsec_secgw_old.Prelude.{
  ℕ, Bool, true, false, ◌&&◌, ◌||◌, not, ◌==◌, leb, if◌then◌else◌, List, [], ◌∷◌, Option, none,
  some,
}
use ipsec_secgw_old.Worker.Policy.{discard, bypass}
use ipsec_secgw_old.Config.Token.{Token, is_word, is_str_num, atoi}
use ipsec_secgw_old.Config.Range.{parse_range}

-- An address is the list of its 32-bit words, each with the length of its mask: one for IPv4, four for
-- IPv6; it is empty for an address that is not given, whose words are 0. A range is its ends.
pub record AclRule : Type 0 where
  pub category_mask : ℕ
  pub priority : ℕ
  pub userdata : ℕ
  pub proto : ℕ × ℕ
  pub src : List (ℕ × ℕ)
  pub dst : List (ℕ × ℕ)
  pub sport : ℕ × ℕ
  pub dport : ℕ × ℕ

-- Memory that is cleared.
abbrev pub no_rule : AclRule
no_rule = record {
  category_mask = 0;
  priority = 0;
  userdata = 0;
  proto = (0, 0);
  src = [];
  dst = [];
  sport = (0, 0);
  dport = (0, 0);
}

-- The words that have been seen: esp_p, protect_p, bypass_p, and so on.
pub record Seen : Type 0 where
  pub esp_p : Bool
  pub protect_p : Bool
  pub bypass_p : Bool
  pub discard_p : Bool
  pub pri_p : Bool
  pub src_p : Bool
  pub dst_p : Bool
  pub proto_p : Bool
  pub sport_p : Bool
  pub dport_p : Bool

abbrev pub nothing_seen : Seen
nothing_seen = record {
  esp_p = false;
  protect_p = false;
  bypass_p = false;
  discard_p = false;
  pri_p = false;
  src_p = false;
  dst_p = false;
  proto_p = false;
  sport_p = false;
  dport_p = false;
}

-- What the next token has to be.
pub data Argument : Type 0 where
  spi priority source destination protocol source_port destination_port : Argument

-- A token that starts an item: the words seen and the rule then, and the argument that the item takes.
abbrev pub Item : Type 0
Item = Option (Seen × AclRule × Option Argument)

-- The words that start an item.
pub data Word : Type 0 where
  esp protect bypassing discarding pri src_word dst_word proto_word sport_word dport_word : Word

unfoldable pub word_of : Token → Option Word
word_of t =
    if is_word t "esp"
    then some esp
    else if is_word t "protect"
    then some protect
    else if is_word t "bypass"
    then some bypassing
    else if is_word t "discard"
    then some discarding
    else if is_word t "pri"
    then some pri
    else if is_word t "src"
    then some src_word
    else if is_word t "dst"
    then some dst_word
    else if is_word t "proto"
    then some proto_word
    else if is_word t "sport"
    then some sport_word
    else if is_word t "dport"
    then some dport_word
    else none

abbrev pub unless_seen : Bool → Seen → AclRule → Option Argument → Item
unless_seen already seen rule k = if already then none else some (seen, rule, k)

-- A word is refused where it has been seen, or contradicts one that has.
unfoldable pub item_of : Word → Seen → AclRule → Item
item_of esp seen rule = unless_seen seen.esp_p (record seen { esp_p = true }) rule none
item_of protect seen rule =
    unless_seen (seen.protect_p || seen.bypass_p || seen.discard_p) seen rule (some spi)
item_of bypassing seen rule =
    unless_seen (seen.bypass_p || seen.protect_p || seen.discard_p)
      (record seen { bypass_p = true }) (record rule { userdata = bypass }) none
item_of discarding seen rule =
    unless_seen (seen.discard_p || seen.protect_p || seen.bypass_p)
      (record seen { discard_p = true }) (record rule { userdata = discard }) none
item_of pri seen rule = unless_seen seen.pri_p seen rule (some priority)
item_of src_word seen rule = unless_seen seen.src_p seen rule (some source)
item_of dst_word seen rule = unless_seen seen.dst_p seen rule (some destination)
item_of proto_word seen rule = unless_seen seen.proto_p seen rule (some protocol)
item_of sport_word seen rule = unless_seen seen.sport_p seen rule (some source_port)
item_of dport_word seen rule = unless_seen seen.dport_p seen rule (some destination_port)

unfoldable pub item : Token → Seen → AclRule → Item
unfolding word_of item_of
item t seen rule = elim (word_of t) [ none ↦ none | some w ↦ item_of w seen rule ]

unfoldable pub read_proto : Token → Seen → AclRule → Option (Seen × AclRule)
read_proto t seen rule = elim (parse_range t) [
  | none ↦ none
  | some (low, high) ↦
      if leb low 255 && leb high 255
      then some (record seen { proto_p = true }, record rule { proto = (low, high) })
      else none
]

unfoldable pub read_sport : Token → Seen → AclRule → Option (Seen × AclRule)
read_sport t seen rule = elim (parse_range t) [
  | none ↦ none
  | some r ↦ some (record seen { sport_p = true }, record rule { sport = r })
]

unfoldable pub read_dport : Token → Seen → AclRule → Option (Seen × AclRule)
read_dport t seen rule = elim (parse_range t) [
  | none ↦ none
  | some r ↦ some (record seen { dport_p = true }, record rule { dport = r })
]

-- The argument of an item. The addresses are read by the function given.
unfoldable pub argument :
    (Token → Option (List (ℕ × ℕ))) → Argument → Token → Seen → AclRule → Option (Seen × AclRule)
unfolding read_proto read_sport read_dport
argument parse_addr spi t seen rule =
    if not (is_str_num t) || (atoi t == discard) || (atoi t == bypass)
    then none
    else some (record seen { protect_p = true }, record rule { userdata = atoi t })
argument parse_addr priority t seen rule =
    if not (is_str_num t)
    then none
    else some (record seen { pri_p = true }, record rule { priority = atoi t })
argument parse_addr source t seen rule = elim (parse_addr t) [
  | none ↦ none
  | some a ↦ some (record seen { src_p = true }, record rule { src = a })
]
argument parse_addr destination t seen rule = elim (parse_addr t) [
  | none ↦ none
  | some a ↦ some (record seen { dst_p = true }, record rule { dst = a })
]
argument parse_addr protocol t seen rule = read_proto t seen rule
argument parse_addr source_port t seen rule = read_sport t seen rule
argument parse_addr destination_port t seen rule = read_dport t seen rule

-- The loop, with the argument that the item before has left to read. A rule needs "esp", and one of
-- "protect", "bypass" and "discard".
unfoldable pub sp_items :
    (Token → Option (List (ℕ × ℕ)))
    → List Token
    → Option Argument
    → Seen
    → AclRule
    → Option (Seen × AclRule)
unfolding item argument
sp_items parse_addr [] (some k) seen rule = none
sp_items parse_addr [] none seen rule =
    if seen.esp_p && (seen.protect_p || seen.bypass_p || seen.discard_p)
    then some (seen, rule)
    else none
sp_items parse_addr (t ∷ ts) (some k) seen rule = elim (argument parse_addr k t seen rule) [
  | none ↦ none
  | some (seen', rule') ↦ sp_items parse_addr ts none seen' rule'
]
sp_items parse_addr (t ∷ ts) none seen rule = elim (item t seen rule) [
  | none ↦ none
  | some (seen', rule', k) ↦ sp_items parse_addr ts k seen' rule'
]
