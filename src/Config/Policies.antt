-- ===== src/Config/Policies.antt =====
-- The security policies: extend_sp_arr and parse_sp4_tokens of sp4.c, parse_sp6_tokens of sp6.c. A
-- rule that is refused is not counted, and the program ends, so what it wrote is not kept.
pub mod Verdict
pub mod Meaning
pub mod Table
use ipsec_secgw_old.Prelude.{
  ℕ, zero, suc, ◌+◌, ◌-◌, ◌*◌, ◌%◌, ◌^◌, ◌≡◌, Bool, true, false, ◌&&◌, ◌||◌, not, ◌==◌, leb, ltb,
  if◌then◌else◌, List, [], ◌∷◌, ◌++◌, Option, none, some, length, set,
}
use ipsec_secgw_old.Worker.Policy.{discard, bypass}
use ipsec_secgw_old.Config.Token.{
  Token, is_word, is_str_num, atoi, parse_ipv4_addr, parse_ipv6_addr,
}
use ipsec_secgw_old.Config.Range.{parse_range}
use ipsec_secgw_old.Config.Rule.{AclRule, no_rule, Seen, nothing_seen, sp_items}

-- A table of rules: its memory, its counter, and how many rules there is room for.
pub record SpTable : Type 0 where
  pub rules : Option (List AclRule)
  pub nb : ℕ
  pub sz : ℕ

abbrev pub cleared : ℕ → List AclRule
cleared zero = []
cleared (suc n) = no_rule ∷ cleared n

-- INIT_ACL_RULE_NUM is 128. The memory is allocated where the test is true. False for -1: the table
-- has no memory then, and keeps its counter.
unfoldable pub extend_sp_arr : Bool → SpTable → Bool × SpTable
extend_sp_arr allocated t = elim t.rules [
  | none ↦
      if allocated then (true, record t { rules = some (cleared 128); sz = 128 }) else (false, t)
  | some rs ↦
      if ltb t.nb t.sz
      then (true, t)
      else if allocated
      then (true, record t { rules = some (rs ++ cleared t.sz); sz = t.sz * 2 })
      else (false, record t { rules = none })
]

-- The slot of the new rule is cleared memory.
abbrev pub put_rule : SpTable → AclRule → SpTable
put_rule t rule = elim t.rules [
  | none ↦ t
  | some rs ↦ record t { rules = some (set rs t.nb rule); nb = t.nb + 1 }
]

-- The tables for inbound and outbound rules.
pub record SpTables : Type 0 where
  pub sp_in : SpTable
  pub sp_out : SpTable

-- How parsing ends: refused, with a crash where the direction is missing, given up without a word
-- where there is no memory, or with a rule added.
pub data Parsed : Type 0 where
  refused null_token : Parsed
  no_memory added : SpTables → Parsed

-- The table after it is extended, and the rule if the words are accepted.
abbrev pub put_parsed : Bool × SpTable → Option (Seen × AclRule) → (SpTable → SpTables) → Parsed
put_parsed (false, t) rule tables = no_memory (tables t)
put_parsed (true, t) none tables = refused
put_parsed (true, t) (some (seen, r)) tables = added (tables (put_rule t r))

-- The rule of one table, and the tables with it.
unfoldable pub add_rule :
    (Token → Option (List (ℕ × ℕ))) → Bool → List Token → SpTable → (SpTable → SpTables) → Parsed
unfolding extend_sp_arr sp_items
add_rule parse_addr allocated ts t tables =
    put_parsed (extend_sp_arr allocated t)
      (sp_items parse_addr ts none nothing_seen (record no_rule { category_mask = 1 })) tables

-- From the token after "ipv4" on.
unfoldable pub parse_sp_tokens :
    (Token → Option (List (ℕ × ℕ))) → Bool → SpTables → List Token → Parsed
unfolding add_rule
parse_sp_tokens parse_addr allocated s [] = null_token
parse_sp_tokens parse_addr allocated s (direction ∷ ts) =
    if is_word direction "in"
    then add_rule parse_addr allocated ts s.sp_in (λ t. record s { sp_in = t })
    else if is_word direction "out"
    then add_rule parse_addr allocated ts s.sp_out (λ t. record s { sp_out = t })
    else refused

-- inet_pton gives the address as a number, most significant octet first.
abbrev pub words4 : (Token → Option ℕ) → Token → Option (List (ℕ × ℕ))
words4 inet_pton t = elim (parse_ipv4_addr inet_pton t) [
  | none ↦ none
  | some (ip, depth) ↦ some ((ip, depth) ∷ [])
]

abbrev pub at_most_32 : ℕ → ℕ
at_most_32 depth = if ltb 32 depth then 32 else depth

abbrev pub word_at : (ℕ → ℕ) → ℕ → ℕ
word_at ip i = ip i * 2 ^ 24 + ip (i + 1) * 2 ^ 16 + ip (i + 2) * 2 ^ 8 + ip (i + 3)

-- The words of the address from octet `i` on, `n` of them, under a mask of the depth.
abbrev pub words_from : (ℕ → ℕ) → ℕ → ℕ → ℕ → List (ℕ × ℕ)
words_from ip i zero depth = []
words_from ip i (suc n) depth =
    (word_at ip i, at_most_32 depth) ∷ words_from ip (i + 4) n (depth - 32)

abbrev pub words6 : (Token → Option (ℕ → ℕ)) → Token → Option (List (ℕ × ℕ))
words6 inet_pton t = elim (parse_ipv6_addr inet_pton t) [
  | none ↦ none
  | some (ip, depth) ↦ some (words_from ip 0 4 depth)
]

abbrev pub parse_sp4_tokens : (Token → Option ℕ) → Bool → SpTables → List Token → Parsed
parse_sp4_tokens inet_pton = parse_sp_tokens (words4 inet_pton)

abbrev pub parse_sp6_tokens : (Token → Option (ℕ → ℕ)) → Bool → SpTables → List Token → Parsed
parse_sp6_tokens inet_pton = parse_sp_tokens (words6 inet_pton)
