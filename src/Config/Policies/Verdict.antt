-- ===== src/Config/Policies/Verdict.antt =====
-- A rule that is accepted says one thing: to protect, to bypass, or to discard.
use ipsec_secgw_old.Prelude.{
  ℕ, ◌≡◌, ◌≢◌, inl, inr, refl, true, false, ◌||◌, Option-cases, List, [], ◌∷◌, Option, none, some,
  arith,
}
use ipsec_secgw_old.Worker.Policy.{discard, bypass}
use ipsec_secgw_old.Config.Token.{Token}
use ipsec_secgw_old.Config.Rule.{
  AclRule, Seen, Argument, spi, Word, esp, protect, bypassing, discarding, pri, src_word, dst_word,
  proto_word, sport_word, dport_word, word_of, item_of, item, argument, read_proto, read_sport,
  read_dport, sp_items, nothing_seen,
}

-- The rule says what the words seen say, and they do not contradict each other.
pub record HasVerdict (seen : Seen) (rule : AclRule) : Type 0 where
  pub protects : seen.protect_p ≡ true → (rule.userdata ≢ discard) × (rule.userdata ≢ bypass)
  pub bypasses : seen.bypass_p ≡ true → rule.userdata ≡ bypass
  pub discards : seen.discard_p ≡ true → rule.userdata ≡ discard
  pub not_bypass : seen.protect_p ≡ true → seen.bypass_p ≡ false
  pub not_discard : seen.protect_p ≡ true → seen.discard_p ≡ false
  pub one_of : seen.bypass_p ≡ true → seen.discard_p ≡ false

-- An SPI is read only where no verdict has been.
abbrev IsOpen : Option Argument → Seen → Type 0
IsOpen none seen = Unit {0}
IsOpen (some k) seen =
    k ≡ spi → (seen.protect_p ≡ false) × ((seen.bypass_p ≡ false) × (seen.discard_p ≡ false))

module _ (parse_addr : Token → Option (List (ℕ × ℕ))) where
  argument-HasVerdict :
      (k : Argument) (t : Token) (seen seen' : Seen) (rule rule' : AclRule)
      → IsOpen (some k) seen
      → HasVerdict seen rule
      → argument parse_addr k t seen rule ≡ some (seen', rule')
      → HasVerdict seen' rule'
  unfolding argument read_proto read_sport read_dport
  argument-HasVerdict k t seen seen' rule rule' open_ verdict e = ground arith

item_of-HasVerdict :
    (w : Word) (seen seen' : Seen) (rule rule' : AclRule) (k : Option Argument)
    → HasVerdict seen rule
    → item_of w seen rule ≡ some (seen', rule', k)
    → HasVerdict seen' rule' × IsOpen k seen'
unfolding item_of
item_of-HasVerdict esp seen seen' rule rule' k verdict e = ground arith
item_of-HasVerdict protect seen seen' rule rule' k verdict e = ground arith
item_of-HasVerdict bypassing seen seen' rule rule' k verdict e = ground arith
item_of-HasVerdict discarding seen seen' rule rule' k verdict e = ground arith
item_of-HasVerdict pri seen seen' rule rule' k verdict e = ground arith
item_of-HasVerdict src_word seen seen' rule rule' k verdict e = ground arith
item_of-HasVerdict dst_word seen seen' rule rule' k verdict e = ground arith
item_of-HasVerdict proto_word seen seen' rule rule' k verdict e = ground arith
item_of-HasVerdict sport_word seen seen' rule rule' k verdict e = ground arith
item_of-HasVerdict dport_word seen seen' rule rule' k verdict e = ground arith

item-HasVerdict :
    (t : Token) (seen seen' : Seen) (rule rule' : AclRule) (k : Option Argument)
    → HasVerdict seen rule
    → item t seen rule ≡ some (seen', rule', k)
    → HasVerdict seen' rule' × IsOpen k seen'
unfolding item
item-HasVerdict t seen seen' rule rule' k verdict e = elim (Option-cases (word_of t)) [
  | inl f ↦ absurd (cc (e, f))
  | inr (w, f) ↦ item_of-HasVerdict w seen seen' rule rule' k verdict (rw (f, item) at e)
]

module _ (parse_addr : Token → Option (List (ℕ × ℕ))) where
  pub sp_items-HasVerdict :
      (ts : List Token) (k : Option Argument) (seen seen' : Seen) (rule rule' : AclRule)
      → IsOpen k seen
      → HasVerdict seen rule
      → sp_items parse_addr ts k seen rule ≡ some (seen', rule')
      → HasVerdict seen' rule'
        × (seen'.esp_p ≡ true)
        × ((seen'.protect_p || seen'.bypass_p || seen'.discard_p) ≡ true)
  unfolding sp_items
  sp_items-HasVerdict [] (some k) seen seen' rule rule' open_ verdict e = cc e
  sp_items-HasVerdict [] none seen seen' rule rule' open_ verdict e = ground arith
  sp_items-HasVerdict (t ∷ ts) (some k) seen seen' rule rule' open_ verdict e =
      elim (Option-cases (argument parse_addr k t seen rule)) [
        | inl f ↦ absurd (cc (e, f))
        | inr ((seen1, rule1), f) ↦
            sp_items-HasVerdict ts none seen1 seen' rule1 rule' tt
              (argument-HasVerdict parse_addr k t seen seen1 rule rule1 open_ verdict f)
              (rw (f, sp_items) at e)
      ]
  sp_items-HasVerdict (t ∷ ts) none seen seen' rule rule' open_ verdict e =
      elim (Option-cases (item t seen rule)) [
        | inl f ↦ absurd (cc (e, f))
        | inr ((seen1, rule1, k), f) ↦
            let (verdict1, open1) = item-HasVerdict t seen seen1 rule rule1 k verdict f in
            sp_items-HasVerdict ts k seen1 seen' rule1 rule' open1 verdict1 (rw (f, sp_items) at e)
      ]

pub nothing_seen-HasVerdict : (rule : AclRule) → HasVerdict nothing_seen rule
nothing_seen-HasVerdict rule = record {
  protects = λ e. cc e;
  bypasses = λ e. cc e;
  discards = λ e. cc e;
  not_bypass = λ e. refl;
  not_discard = λ e. refl;
  one_of = λ e. refl;
}
