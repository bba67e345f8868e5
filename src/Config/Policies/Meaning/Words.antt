-- ===== src/Config/Policies/Meaning/Words.antt =====
-- The argument of a word is counted, kept, and said by the rule.
use Prim.Native.String.{String}
use ipsec_secgw_old.Prelude.{
  ℕ, ◌+◌, ◌≡◌, Bool, true, false, if◌then◌else◌, List, ◌∷◌, Option, none, some, arith,
}
use ipsec_secgw_old.Config.Token.{Token, text}
use ipsec_secgw_old.Config.Rule.{
  AclRule, Seen, Argument, spi, priority, source, destination, protocol, source_port,
  destination_port, argument, read_proto, read_sport, read_dport,
}
use ipsec_secgw_old.Config.Policies.Meaning.{said, Says}

abbrev pub one_if : Bool → ℕ
one_if b = if b then 1 else 0

-- The words are counted by the flags: from those seen before to those seen in the end.
pub record Counts (seen : Seen) (es : List (Token × Token)) (seen' : Seen) : Type 0 where
  pub esp_said : one_if seen.esp_p + said "esp" es ≡ one_if seen'.esp_p
  pub protect_said : one_if seen.protect_p + said "protect" es ≡ one_if seen'.protect_p
  pub bypass_said : one_if seen.bypass_p + said "bypass" es ≡ one_if seen'.bypass_p
  pub discard_said : one_if seen.discard_p + said "discard" es ≡ one_if seen'.discard_p
  pub pri_said : one_if seen.pri_p + said "pri" es ≡ one_if seen'.pri_p
  pub src_said : one_if seen.src_p + said "src" es ≡ one_if seen'.src_p
  pub dst_said : one_if seen.dst_p + said "dst" es ≡ one_if seen'.dst_p
  pub proto_said : one_if seen.proto_p + said "proto" es ≡ one_if seen'.proto_p
  pub sport_said : one_if seen.sport_p + said "sport" es ≡ one_if seen'.sport_p
  pub dport_said : one_if seen.dport_p + said "dport" es ≡ one_if seen'.dport_p

-- What has been said stays.
pub record Keeps (seen : Seen) (rule rule' : AclRule) : Type 0 where
  pub protect_kept : seen.protect_p ≡ true → rule'.userdata ≡ rule.userdata
  pub bypass_kept : seen.bypass_p ≡ true → rule'.userdata ≡ rule.userdata
  pub discard_kept : seen.discard_p ≡ true → rule'.userdata ≡ rule.userdata
  pub pri_kept : seen.pri_p ≡ true → rule'.priority ≡ rule.priority
  pub src_kept : seen.src_p ≡ true → rule'.src ≡ rule.src
  pub dst_kept : seen.dst_p ≡ true → rule'.dst ≡ rule.dst
  pub proto_kept : seen.proto_p ≡ true → rule'.proto ≡ rule.proto
  pub sport_kept : seen.sport_p ≡ true → rule'.sport ≡ rule.sport
  pub dport_kept : seen.dport_p ≡ true → rule'.dport ≡ rule.dport

abbrev pub key_word : Argument → String
key_word spi = "protect"
key_word priority = "pri"
key_word source = "src"
key_word destination = "dst"
key_word protocol = "proto"
key_word source_port = "sport"
key_word destination_port = "dport"

abbrev pub waiting_word : Option Argument → Option Token
waiting_word none = none
waiting_word (some k) = some (text (key_word k))

-- The word whose argument is read has not been seen before.
abbrev pub IsFresh : Argument → Seen → Type 0
IsFresh spi seen = (seen.protect_p ≡ false) × ((seen.bypass_p ≡ false) × (seen.discard_p ≡ false))
IsFresh priority seen = seen.pri_p ≡ false
IsFresh source seen = seen.src_p ≡ false
IsFresh destination seen = seen.dst_p ≡ false
IsFresh protocol seen = seen.proto_p ≡ false
IsFresh source_port seen = seen.sport_p ≡ false
IsFresh destination_port seen = seen.dport_p ≡ false

module _ (parse_addr : Token → Option (List (ℕ × ℕ))) where
  pub argument-Counts :
      (k : Argument) (t : Token) (seen seen1 seen' : Seen) (rule rule1 : AclRule)
      (es : List (Token × Token))
      → IsFresh k seen
      → argument parse_addr k t seen rule ≡ some (seen1, rule1)
      → Counts seen1 es seen'
      → Counts seen ((text (key_word k), t) ∷ es) seen'
  unfolding argument read_proto read_sport read_dport
  argument-Counts spi t seen seen1 seen' rule rule1 es fresh e counts = ground arith
  argument-Counts priority t seen seen1 seen' rule rule1 es fresh e counts = ground arith
  argument-Counts source t seen seen1 seen' rule rule1 es fresh e counts = ground arith
  argument-Counts destination t seen seen1 seen' rule rule1 es fresh e counts = ground arith
  argument-Counts protocol t seen seen1 seen' rule rule1 es fresh e counts = ground arith
  argument-Counts source_port t seen seen1 seen' rule rule1 es fresh e counts = ground arith
  argument-Counts destination_port t seen seen1 seen' rule rule1 es fresh e counts = ground arith

  pub argument-Keeps :
      (k : Argument) (t : Token) (seen seen1 : Seen) (rule rule1 rule' : AclRule)
      → IsFresh k seen
      → argument parse_addr k t seen rule ≡ some (seen1, rule1)
      → Keeps seen1 rule1 rule'
      → Keeps seen rule rule'
  unfolding argument read_proto read_sport read_dport
  argument-Keeps spi t seen seen1 rule rule1 rule' fresh e keeps = ground arith
  argument-Keeps priority t seen seen1 rule rule1 rule' fresh e keeps = ground arith
  argument-Keeps source t seen seen1 rule rule1 rule' fresh e keeps = ground arith
  argument-Keeps destination t seen seen1 rule rule1 rule' fresh e keeps = ground arith
  argument-Keeps protocol t seen seen1 rule rule1 rule' fresh e keeps = ground arith
  argument-Keeps source_port t seen seen1 rule rule1 rule' fresh e keeps = ground arith
  argument-Keeps destination_port t seen seen1 rule rule1 rule' fresh e keeps = ground arith

  pub argument-Says :
      (k : Argument) (t : Token) (seen seen1 : Seen) (rule rule1 rule' : AclRule)
      → argument parse_addr k t seen rule ≡ some (seen1, rule1)
      → Keeps seen1 rule1 rule'
      → Says parse_addr rule' (text (key_word k)) t
  unfolding argument read_proto read_sport read_dport
  argument-Says spi t seen seen1 rule rule1 rule' e keeps = ground arith
  argument-Says priority t seen seen1 rule rule1 rule' e keeps = ground arith
  argument-Says source t seen seen1 rule rule1 rule' e keeps = ground arith
  argument-Says destination t seen seen1 rule rule1 rule' e keeps = ground arith
  argument-Says protocol t seen seen1 rule rule1 rule' e keeps = ground arith
  argument-Says source_port t seen seen1 rule rule1 rule' e keeps = ground arith
  argument-Says destination_port t seen seen1 rule rule1 rule' e keeps = ground arith
