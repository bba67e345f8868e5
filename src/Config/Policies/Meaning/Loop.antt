-- ===== src/Config/Policies/Meaning/Loop.antt =====
-- The loop over the words, and what the rule that it accepts means.
use Prim.Native.String.{String}
use ipsec_secgw_old.Prelude.{
  ℕ, ◌+◌, ◌≤◌, ◌≡◌, refl, sym, subst, Bool, true, false, ◌&&◌, ◌||◌, if◌then◌else◌, Bool-cases,
  Option-cases, inl, inr, List, [], ◌∷◌, Option, none, some, arith,
}
use ipsec_secgw_old.Worker.Policy.{discard, bypass}
use ipsec_secgw_old.Config.Token.{Token, text, same, is_word}
use ipsec_secgw_old.Config.Rule.{
  AclRule, Seen, Argument, spi, priority, source, destination, protocol, source_port,
  destination_port, Word, esp, protect, bypassing, discarding, pri, src_word, dst_word, proto_word,
  sport_word, dport_word, word_of, item_of, item, argument, sp_items, nothing_seen,
}
use ipsec_secgw_old.Config.Policies.Verdict.{sp_items-HasVerdict, nothing_seen-HasVerdict}
use ipsec_secgw_old.Config.Policies.Meaning.{entries, said, AllSay, Means}
use ipsec_secgw_old.Config.Policies.Meaning.Words.{
  one_if, Counts, Keeps, waiting_word, IsFresh, argument-Counts, argument-Keeps, argument-Says,
}

abbrev spelling : Word → String
spelling esp = "esp"
spelling protect = "protect"
spelling bypassing = "bypass"
spelling discarding = "discard"
spelling pri = "pri"
spelling src_word = "src"
spelling dst_word = "dst"
spelling proto_word = "proto"
spelling sport_word = "sport"
spelling dport_word = "dport"

same-text : (s t : Token) → same s t ≡ true → s ≡ t
same-text [] [] e = refl
same-text [] (d ∷ ds) e = cc e
same-text (c ∷ cs) [] e = cc e
same-text (c ∷ cs) (d ∷ ds) e =
    let first : c ≡ d = ground arith in
    let rest : same cs ds ≡ true = ground arith in cc (first, same-text cs ds rest)

word_of-spelling : (t : Token) (x : Word) → word_of t ≡ some x → is_word t (spelling x) ≡ true
unfolding word_of
word_of-spelling t esp e = ground arith
word_of-spelling t protect e = ground arith
word_of-spelling t bypassing e = ground arith
word_of-spelling t discarding e = ground arith
word_of-spelling t pri e = ground arith
word_of-spelling t src_word e = ground arith
word_of-spelling t dst_word e = ground arith
word_of-spelling t proto_word e = ground arith
word_of-spelling t sport_word e = ground arith
word_of-spelling t dport_word e = ground arith

abbrev IsFreshIf : Option Argument → Seen → Type 0
IsFreshIf none seen = Unit {0}
IsFreshIf (some k) seen = IsFresh k seen

-- What the loop makes of the entries.
abbrev Outcome :
    (Token → Option (List (ℕ × ℕ)))
    → Seen
    → AclRule
    → List (Token × Token)
    → Seen
    → AclRule
    → Type 0
Outcome parse_addr seen rule es seen' rule' =
    Counts seen es seen' × Keeps seen rule rule' × AllSay parse_addr rule' es

module _ (parse_addr : Token → Option (List (ℕ × ℕ))) (ts : List Token) (seen' : Seen)
    (rule' : AclRule) where
  -- What comes after an item.
  abbrev after_item : Option (Seen × AclRule × Option Argument) → Option (Seen × AclRule)
  after_item none = none
  after_item (some (seen, rule, k)) = sp_items parse_addr ts k seen rule

  guarded :
      (already : Bool) (seen : Seen) (rule : AclRule) (k : Option Argument)
      → after_item (if already then none else some (seen, rule, k)) ≡ some (seen', rule')
      → (already ≡ false) × (sp_items parse_addr ts k seen rule ≡ some (seen', rule'))
  guarded true seen rule k e = cc e
  guarded false seen rule k e = (refl, e)

  word-Outcome :
      (x : Word) (seen : Seen) (rule : AclRule)
      → ((k : Option Argument) (s : Seen) (r : AclRule)
          → IsFreshIf k s
          → sp_items parse_addr ts k s r ≡ some (seen', rule')
          → Outcome parse_addr s r (entries (waiting_word k) ts) seen' rule')
      → after_item (item_of x seen rule) ≡ some (seen', rule')
      → Outcome parse_addr seen rule (entries none (text (spelling x) ∷ ts)) seen' rule'
  unfolding item_of
  word-Outcome esp seen rule ih e =
      let seen1 : Seen = record seen { esp_p = true } in
      let (fresh, rest) = guarded seen.esp_p seen1 rule none e in
      let (counts, keeps, says) = ih none seen1 rule tt rest in
      (ground arith, ground arith, (ground arith, says))
  word-Outcome protect seen rule ih e =
      let (fresh, rest) =
        guarded (seen.protect_p || seen.bypass_p || seen.discard_p) seen rule (some spi) e in
      ih (some spi) seen rule (ground arith, (ground arith, ground arith)) rest
  word-Outcome bypassing seen rule ih e =
      let seen1 : Seen = record seen { bypass_p = true } in
      let rule1 : AclRule = record rule { userdata = bypass } in
      let (fresh, rest) =
        guarded (seen.bypass_p || seen.protect_p || seen.discard_p) seen1 rule1 none e in
      let (counts, keeps, says) = ih none seen1 rule1 tt rest in
      (ground arith, ground arith, (ground arith, says))
  word-Outcome discarding seen rule ih e =
      let seen1 : Seen = record seen { discard_p = true } in
      let rule1 : AclRule = record rule { userdata = discard } in
      let (fresh, rest) =
        guarded (seen.discard_p || seen.protect_p || seen.bypass_p) seen1 rule1 none e in
      let (counts, keeps, says) = ih none seen1 rule1 tt rest in
      (ground arith, ground arith, (ground arith, says))
  word-Outcome pri seen rule ih e =
      let (fresh, rest) = guarded seen.pri_p seen rule (some priority) e in
      ih (some priority) seen rule fresh rest
  word-Outcome src_word seen rule ih e =
      let (fresh, rest) = guarded seen.src_p seen rule (some source) e in
      ih (some source) seen rule fresh rest
  word-Outcome dst_word seen rule ih e =
      let (fresh, rest) = guarded seen.dst_p seen rule (some destination) e in
      ih (some destination) seen rule fresh rest
  word-Outcome proto_word seen rule ih e =
      let (fresh, rest) = guarded seen.proto_p seen rule (some protocol) e in
      ih (some protocol) seen rule fresh rest
  word-Outcome sport_word seen rule ih e =
      let (fresh, rest) = guarded seen.sport_p seen rule (some source_port) e in
      ih (some source_port) seen rule fresh rest
  word-Outcome dport_word seen rule ih e =
      let (fresh, rest) = guarded seen.dport_p seen rule (some destination_port) e in
      ih (some destination_port) seen rule fresh rest

nothing_left-Outcome :
    (parse_addr : Token → Option (List (ℕ × ℕ))) (seen : Seen) (rule : AclRule)
    → Outcome parse_addr seen rule [] seen rule
nothing_left-Outcome parse_addr seen rule = (ground arith, ground arith, tt)

module _ (parse_addr : Token → Option (List (ℕ × ℕ))) where
  sp_items-Outcome :
      (ts : List Token) (k : Option Argument) (seen seen' : Seen) (rule rule' : AclRule)
      → IsFreshIf k seen
      → sp_items parse_addr ts k seen rule ≡ some (seen', rule')
      → Outcome parse_addr seen rule (entries (waiting_word k) ts) seen' rule'
  unfolding sp_items item
  sp_items-Outcome [] (some k) seen seen' rule rule' fresh e = cc e
  sp_items-Outcome [] none seen seen' rule rule' fresh e =
      elim (Bool-cases (seen.esp_p && (seen.protect_p || seen.bypass_p || seen.discard_p))) [
        | inr f ↦ absurd (cc (rw (f) at e))
        | inl f ↦
            let ended : some (seen, rule) ≡ some (seen', rule') = rw (f) at e in
            let same_seen : seen ≡ seen' = cc ended in
            let same_rule : rule ≡ rule' = cc ended in
            subst (λ s. Outcome parse_addr seen rule [] s rule') same_seen
              (subst (λ r. Outcome parse_addr seen rule [] seen r) same_rule
                (nothing_left-Outcome parse_addr seen rule))
      ]
  sp_items-Outcome (t ∷ ts) (some k) seen seen' rule rule' fresh e =
      elim (Option-cases (argument parse_addr k t seen rule)) [
        | inl f ↦ absurd (cc (e, f))
        | inr ((seen1, rule1), f) ↦
            let (counts, keeps, says) =
              sp_items-Outcome ts none seen1 seen' rule1 rule' tt (rw (f, sp_items) at e) in
            (
              argument-Counts parse_addr k t seen seen1 seen' rule rule1 (entries none ts) fresh f
                  counts,
              argument-Keeps parse_addr k t seen seen1 rule rule1 rule' fresh f keeps,
              (argument-Says parse_addr k t seen seen1 rule rule1 rule' f keeps, says),
            )
      ]
  sp_items-Outcome (t ∷ ts) none seen seen' rule rule' fresh e = elim (Option-cases (word_of t)) [
    | inl f ↦ absurd (cc (rw (f, sp_items, item) at e))
    | inr (x, f) ↦
        let spelled : t ≡ text (spelling x) =
          same-text t (text (spelling x)) (word_of-spelling t x f) in
        let rest : after_item parse_addr ts seen' rule' (item_of x seen rule)
            ≡ some (seen', rule') =
          (rw (f, sp_items, item) at e) in
        subst (λ w. Outcome parse_addr seen rule (entries none (w ∷ ts)) seen' rule') (sym spelled)
          (word-Outcome parse_addr ts seen' rule' x seen rule
            (λ k s r fresh_k e_k. sp_items-Outcome ts k s seen' r rule' fresh_k e_k) rest)
  ]

at_most_one : (b : Bool) (n : ℕ) → 0 + n ≡ one_if b → n ≤ 1
at_most_one true n e = omega arith
at_most_one false n e = omega arith

pub sp_items-Means :
    (parse_addr : Token → Option (List (ℕ × ℕ))) (ts : List Token) (seen : Seen)
    (start rule : AclRule)
    → sp_items parse_addr ts none nothing_seen start ≡ some (seen, rule)
    → Means parse_addr ts rule
sp_items-Means parse_addr ts seen start rule e =
    let (counts, keeps, says) =
      sp_items-Outcome parse_addr ts none nothing_seen seen start rule tt e in
    let (verdict, esp_seen, one_seen) =
      sp_items-HasVerdict parse_addr ts none nothing_seen seen start rule tt
        (nothing_seen-HasVerdict start) e in
    record {
      esp_once = ground (arith, counts.esp_said, esp_seen);
      one_verdict = ground (
        arith, counts.protect_said, counts.bypass_said, counts.discard_said, one_seen,
        verdict.not_bypass, verdict.not_discard, verdict.one_of,
      );
      pri_once = at_most_one seen.pri_p (said "pri" (entries none ts)) counts.pri_said;
      src_once = at_most_one seen.src_p (said "src" (entries none ts)) counts.src_said;
      dst_once = at_most_one seen.dst_p (said "dst" (entries none ts)) counts.dst_said;
      proto_once = at_most_one seen.proto_p (said "proto" (entries none ts)) counts.proto_said;
      sport_once = at_most_one seen.sport_p (said "sport" (entries none ts)) counts.sport_said;
      dport_once = at_most_one seen.dport_p (said "dport" (entries none ts)) counts.dport_said;
      all_say = says;
    }
