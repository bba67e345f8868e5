-- ===== src/Config/Policies/Table.antt =====
-- A rule that is accepted is put after the others in its table, whose memory has room for it.
use ipsec_secgw_old.Prelude.{
  ℕ, zero, suc, ◌+◌, ◌*◌, ◌≤◌, ◌<◌, ◌≡◌, refl, subst, sym, ap, ◌∙◌, Bool, true, false, ltb,
  Bool-cases, Option-cases, ◌⊎◌, inl, inr, List, [], ◌∷◌, ◌++◌, Option, none, some, length,
  length-append, length-set, get_elem?, set, arith,
}
use ipsec_secgw_old.Config.Token.{Token}
use ipsec_secgw_old.Config.Rule.{AclRule, no_rule, nothing_seen, sp_items}
use ipsec_secgw_old.Config.Policies.{
  SpTable, SpTables, cleared, extend_sp_arr, put_rule, added, add_rule,
}
use ipsec_secgw_old.Config.Policies.Meaning.{Means}
use ipsec_secgw_old.Config.Policies.Meaning.Loop.{sp_items-Means}

-- The memory of a table is as large as it says, and holds its rules.
unfoldable pub IsTable : SpTable → Type 0
IsTable t = elim t.rules [
  | none ↦ t.nb ≡ 0
  | some rs ↦ (length rs ≡ t.sz) × ((t.nb ≤ t.sz) × (0 < t.sz))
]

abbrev pub rule_at : SpTable → ℕ → Option AclRule
rule_at t i = elim t.rules [ none ↦ none | some rs ↦ get_elem? rs i ]

get_elem?-set {ℓ} :
    {A : Type ℓ} (xs : List A) (i : ℕ) (x : A) → i < length xs → get_elem? (set xs i x) i ≡ some x
get_elem?-set [] i x lt = absurd (omega arith)
get_elem?-set (y ∷ ys) zero x lt = refl
get_elem?-set (y ∷ ys) (suc i) x lt = get_elem?-set ys i x (omega arith)

get_elem?-set-other {ℓ} :
    {A : Type ℓ} (xs : List A) (i j : ℕ) (x : A) → j < i → get_elem? (set xs i x) j ≡ get_elem? xs j
get_elem?-set-other [] i j x lt = refl
get_elem?-set-other (y ∷ ys) zero j x lt = absurd (omega arith)
get_elem?-set-other (y ∷ ys) (suc i) zero x lt = refl
get_elem?-set-other (y ∷ ys) (suc i) (suc j) x lt = get_elem?-set-other ys i j x (omega arith)

get_elem?-append {ℓ} :
    {A : Type ℓ} (xs ys : List A) (i : ℕ) → i < length xs → get_elem? (xs ++ ys) i ≡ get_elem? xs i
get_elem?-append [] ys i lt = absurd (omega arith)
get_elem?-append (x ∷ xs) ys zero lt = refl
get_elem?-append (x ∷ xs) ys (suc i) lt = get_elem?-append xs ys i (omega arith)

length-cleared : (n : ℕ) → length (cleared n) ≡ n
length-cleared zero = refl
length-cleared (suc n) = ap suc (length-cleared n)

-- There is room for one more rule in the memory `rs`, and the rules there were are in it.
record HasRoom (t t' : SpTable) (rs : List AclRule) : Type 0 where
  memory : t'.rules ≡ some rs
  size : length rs ≡ t'.sz
  same_nb : t'.nb ≡ t.nb
  room : t.nb < t'.sz
  kept : (i : ℕ) → i < t.nb → get_elem? rs i ≡ rule_at t i

extend_sp_arr-HasRoom :
    (allocated : Bool) (old : Option (List AclRule)) (nb sz : ℕ)
    → IsTable (record { rules = old; nb = nb; sz = sz })
    → ((t' : SpTable) × (extend_sp_arr allocated (record { rules = old; nb = nb; sz = sz })
          ≡ (false, t')))
      ⊎ ((t' : SpTable) × (rs : List AclRule) × (extend_sp_arr allocated
              (record { rules = old; nb = nb; sz = sz })
            ≡ (true, t'))
          × HasRoom (record { rules = old; nb = nb; sz = sz }) t' rs)
unfolding IsTable extend_sp_arr
extend_sp_arr-HasRoom false none nb sz is_table =
    inl (record { rules = none; nb = nb; sz = sz }, refl)
extend_sp_arr-HasRoom true none nb sz is_table = inr (
  record { rules = some (cleared 128); nb = nb; sz = 128 },
  cleared 128,
  refl,
  record {
    memory = refl;
    size = refl;
    same_nb = refl;
    room = omega arith;
    kept = λ i lt. absurd (omega arith);
  },
)
extend_sp_arr-HasRoom allocated (some rs) nb sz (size, (le, some_room)) =
    elim (Bool-cases (ltb nb sz)) [
      | inl e ↦ inr (
        record { rules = some rs; nb = nb; sz = sz },
        rs,
        rw (e) refl,
        record {
          memory = refl;
          size = size;
          same_nb = refl;
          room = ground arith;
          kept = λ i lt. refl;
        },
      )
      | inr e ↦ elim (Bool-cases allocated) [
        | inr a ↦ inl (record { rules = none; nb = nb; sz = sz }, rw (e, a) refl)
        | inl a ↦ inr (
          record { rules = some (rs ++ cleared sz); nb = nb; sz = sz * 2 },
          rs ++ cleared sz,
          rw (e, a) refl,
          record {
            memory = refl;
            size = omega (arith, length-append rs (cleared sz), length-cleared sz, size);
            same_nb = refl;
            room = omega arith;
            kept = λ i lt. get_elem?-append rs (cleared sz) i (omega arith);
          },
        )
      ]
    ]

-- The rule `rule` is the last of the table now.
pub record IsAdded (t t' : SpTable) (rule : AclRule) : Type 0 where
  pub is_table : IsTable t'
  pub one_more : t'.nb ≡ t.nb + 1
  pub last : rule_at t' t.nb ≡ some rule
  pub kept : (i : ℕ) → i < t.nb → rule_at t' i ≡ rule_at t i

put_rule-IsAdded :
    (t : SpTable) (nb sz : ℕ) (rs : List AclRule) (rule : AclRule)
    → HasRoom t (record { rules = some rs; nb = nb; sz = sz }) rs
    → IsAdded t (put_rule (record { rules = some rs; nb = nb; sz = sz }) rule) rule
unfolding IsTable
put_rule-IsAdded t nb sz rs rule has = record {
  is_table = (
    length-set rs nb rule ∙ has.size,
    (omega (arith, has.room, has.same_nb), omega (arith, has.room)),
  );
  one_more = omega (arith, has.same_nb);
  last =
      rw⁻¹ (has.same_nb)
        (get_elem?-set rs nb rule (omega (arith, has.room, has.same_nb, has.size)));
  kept = λ i lt. get_elem?-set-other rs nb i rule (omega (arith, has.same_nb)) ∙ has.kept i lt;
}

room-IsAdded :
    (t t1 : SpTable) (rs : List AclRule) (rule : AclRule)
    → HasRoom t t1 rs
    → IsAdded t (put_rule t1 rule) rule
room-IsAdded t t1 rs rule has =
    subst (λ o. IsAdded t (put_rule (record { rules = o; nb = t1.nb; sz = t1.sz }) rule) rule)
      (sym has.memory)
      (put_rule-IsAdded t t1.nb t1.sz rs rule (record {
        memory = refl;
        size = has.size;
        same_nb = has.same_nb;
        room = has.room;
        kept = has.kept;
      }))

-- What is added to a table: the rule that the words mean.
pub record IsNewEntry (parse_addr : Token → Option (List (ℕ × ℕ))) (ts : List Token)
    (t t' : SpTable) : Type 0 where
  pub rule : AclRule
  pub means : Means parse_addr ts rule
  pub is_added : IsAdded t t' rule

-- Where a line is accepted for a table whose memory is as large as it says and holds its rules: so is
-- the table then, with one rule more at the end, after the rules there were. The line has "esp" once,
-- one of "protect", "bypass" and "discard" once, and each other word once at most. The rule has what
-- the words say: userdata is BYPASS, DISCARD or the SPI, which is neither; and the priority, addresses
-- and ranges are those read from the tokens after their words.
pub add_rule-IsNewEntry :
    (parse_addr : Token → Option (List (ℕ × ℕ))) (allocated : Bool) (ts : List Token)
    (old : Option (List AclRule)) (nb sz : ℕ) (tables : SpTable → SpTables) (s : SpTables)
    → IsTable (record { rules = old; nb = nb; sz = sz })
    → add_rule parse_addr allocated ts (record { rules = old; nb = nb; sz = sz }) tables ≡ added s
    → (t' : SpTable) × (s ≡ tables t')
      × IsNewEntry parse_addr ts (record { rules = old; nb = nb; sz = sz }) t'
unfolding add_rule
add_rule-IsNewEntry parse_addr allocated ts old nb sz tables s is_table e =
    elim (extend_sp_arr-HasRoom allocated old nb sz is_table) [
      | inl (t1, f) ↦ absurd (cc (rw (f, add_rule) at e))
      | inr (t1, rs, f, has) ↦
          elim (Option-cases
            (sp_items parse_addr ts none nothing_seen (record no_rule { category_mask = 1 }))) [
              | inl g ↦ absurd (cc (rw (f, g, add_rule) at e))
              | inr ((seen, rule), g) ↦
                  let added_eq : added (tables (put_rule t1 rule)) ≡ added s =
                    rw (f, g, add_rule) at e in
                  (
                    put_rule t1 rule,
                    cc added_eq,
                    record {
                      rule = rule;
                      means =
                          sp_items-Means parse_addr ts seen (record no_rule { category_mask = 1 })
                            rule g;
                      is_added =
                          room-IsAdded (record { rules = old; nb = nb; sz = sz }) t1 rs rule has;
                    },
                  )
            ]
    ]
