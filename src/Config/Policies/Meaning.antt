-- ===== src/Config/Policies/Meaning.antt =====
-- What an accepted rule says, by its words: each word with the token after it, where it takes one.
pub mod Words
pub mod Loop
use Prim.Native.String.{String}
use ipsec_secgw_old.Prelude.{
  ℕ, ◌+◌, ◌≤◌, ◌≡◌, ◌≢◌, refl, sym, ap, subst, ◌∙◌, Bool, true, false, ◌&&◌, ◌||◌, not, ◌==◌, leb,
  if◌then◌else◌, Bool-cases, Option-cases, inl, inr, List, [], ◌∷◌, Option, none, some, count_if,
  arith,
}
use ipsec_secgw_old.Worker.Policy.{discard, bypass}
use ipsec_secgw_old.Config.Token.{Token, text, same, is_word, is_str_num, atoi}
use ipsec_secgw_old.Config.Range.{parse_range}
use ipsec_secgw_old.Config.Rule.{
  AclRule, Seen, Argument, spi, priority, source, destination, protocol, source_port,
  destination_port, Word, esp, protect, bypassing, discarding, pri, src_word, dst_word, proto_word,
  sport_word, dport_word, word_of, item_of, item, argument, read_proto, read_sport, read_dport,
  sp_items, nothing_seen,
}
use ipsec_secgw_old.Config.Policies.Verdict.{sp_items-HasVerdict, nothing_seen-HasVerdict}

-- All words but these take the token after them.
abbrev pub takes_argument : Token → Bool
takes_argument t = not (is_word t "esp" || is_word t "bypass" || is_word t "discard")

-- The words of a line, each with its argument, `word` being one whose argument comes next.
abbrev pub entries : Option Token → List Token → List (Token × Token)
entries word [] = []
entries (some w) (t ∷ ts) = (w, t) ∷ entries none ts
entries none (t ∷ ts) =
    let alone = (t, []) ∷ entries none ts in
    let with_argument = entries (some t) ts in if takes_argument t then with_argument else alone

-- How often a word is there.
abbrev pub said : String → List (Token × Token) → ℕ
said word = count_if (λ e. is_word e.0 word)

-- The rule has what the word and its argument say.
pub record Says (parse_addr : Token → Option (List (ℕ × ℕ))) (rule : AclRule) (w t : Token)
    : Type 0 where
  pub bypasses : is_word w "bypass" ≡ true → rule.userdata ≡ bypass
  pub discards : is_word w "discard" ≡ true → rule.userdata ≡ discard
  pub protects : is_word w "protect" ≡ true → (is_str_num t ≡ true) × (rule.userdata ≡ atoi t)
  pub not_discard : is_word w "protect" ≡ true → rule.userdata ≢ discard
  pub not_bypass : is_word w "protect" ≡ true → rule.userdata ≢ bypass
  pub has_priority : is_word w "pri" ≡ true → (is_str_num t ≡ true) × (rule.priority ≡ atoi t)
  pub has_src : is_word w "src" ≡ true → parse_addr t ≡ some rule.src
  pub has_dst : is_word w "dst" ≡ true → parse_addr t ≡ some rule.dst
  pub has_proto : is_word w "proto" ≡ true → parse_range t ≡ some rule.proto
  pub has_sport : is_word w "sport" ≡ true → parse_range t ≡ some rule.sport
  pub has_dport : is_word w "dport" ≡ true → parse_range t ≡ some rule.dport

abbrev pub AllSay : (Token → Option (List (ℕ × ℕ))) → AclRule → List (Token × Token) → Type 0
AllSay parse_addr rule [] = Unit {0}
AllSay parse_addr rule ((w, t) ∷ es) = Says parse_addr rule w t × AllSay parse_addr rule es

-- The line has "esp" once, one of "protect", "bypass" and "discard" once, and the others once at most;
-- and the rule has what each word says.
pub record Means (parse_addr : Token → Option (List (ℕ × ℕ))) (ts : List Token) (rule : AclRule)
    : Type 0 where
  pub esp_once : said "esp" (entries none ts) ≡ 1
  pub one_verdict :
      said "protect" (entries none ts)
        + said "bypass" (entries none ts)
        + said "discard" (entries none ts)
      ≡ 1
  pub pri_once : said "pri" (entries none ts) ≤ 1
  pub src_once : said "src" (entries none ts) ≤ 1
  pub dst_once : said "dst" (entries none ts) ≤ 1
  pub proto_once : said "proto" (entries none ts) ≤ 1
  pub sport_once : said "sport" (entries none ts) ≤ 1
  pub dport_once : said "dport" (entries none ts) ≤ 1
  pub all_say : AllSay parse_addr rule (entries none ts)
