-- ===== src/Algebras/Strings/Condensed.antt =====
-- src/algebras/string.rs: the condensed rules of the decomposition automaton, with sets of symbols
-- as lists, and how many there are.
pub mod Listing
pub mod Counting
use rusty_alto.Base.{
  ℕ, suc, ◌+◌, ◌-◌, ◌*◌, ◌/◌, ◌%◌, ◌^◌, List, [], ◌∷◌, ◌++◌, map, ◌==◌, nat_eq, not, if◌then◌else◌,
}
use rusty_alto.Base.Flat.{flat_map}
use rusty_alto.Base.Ranges.{range}
use rusty_alto.Ids.{Symbol}
use rusty_alto.Algebras.Strings.{
  Span, StringDecompositionAutomaton, len, valid_span, right_partners, left_partners,
}

-- A rule as `condensed_rules` reports it: children, symbols and result.
abbrev pub CondensedRule : Type 0
CondensedRule = List Span × List Symbol × Span

-- the loop over the words
unfoldable pub lexical_rules : ℕ → List Symbol → List CondensedRule
lexical_rules i [] = []
lexical_rules i (word ∷ words) =
    ([], word ∷ [], record { start = i; end = i + 1 }) ∷ lexical_rules (suc i) words

-- the rules of `condensed_nullary_rules`
unfoldable pub condensed_nullary_rules : StringDecompositionAutomaton → List (List Symbol × Span)
condensed_nullary_rules d = map (λ rule. (rule.1, rule.2)) (lexical_rules 0 d.sentence)

module _ (d : StringDecompositionAutomaton) where
  -- one round of the innermost loop
  unfoldable pub concat_rule : ℕ → ℕ → ℕ → CondensedRule
  concat_rule start split end = (
    record { start = start; end = split } ∷ record { start = split; end = end } ∷ [],
    d.concat ∷ [],
    record { start = start; end = end },
  )

  -- the loops over the ends, and over the splits
  unfoldable pub rules_from : ℕ → List CondensedRule
  rules_from start =
      flat_map (λ split. map (concat_rule start split) (range (split + 1) (len d + 1)))
        (range (start + 1) (len d))

  -- the loops over the spans
  unfoldable pub concat_rules : List CondensedRule
  concat_rules = flat_map rules_from (range 0 (len d))

  -- `condensed_rules`
  unfoldable pub condensed_rules : List CondensedRule
  condensed_rules = lexical_rules 0 d.sentence ++ concat_rules

  -- `condensed_rules_by_child`
  unfoldable pub condensed_rules_by_child : ℕ → Span → List CondensedRule
  condensed_rules_by_child position state =
      if not (valid_span d state)
      then []
      else map (λ rule. (rule.0, d.concat ∷ [], rule.1))
          (if position == 0
            then right_partners d state
            else if position == 1
            then left_partners d state
            else [])

  -- `rule_count`, in the arithmetic of `usize`
  unfoldable pub rule_count : ℕ
  rule_count = let n = len d in (n + ((((n - 1) * n) % 2 ^ 64) * (n + 1)) % 2 ^ 64 / 6) % 2 ^ 64
