-- ===== src/Witness/Automata.antt =====
-- src/explicit.rs on an automaton with the rules `a -> q0` and `f(q0, q0) -> q1`, where `q1` accepts.
use rusty_alto.Base.{
  ℕ, ◌≡◌, refl, ◌≤◌, ◌↔◌, ◌⊎◌, Bool, true, false, List, [], ◌∷◌, ◌++◌, Memᴰ, Distinct, some, All,
  get_elem?, leb, length, arith, nat_eq,
}
use rusty_alto.Base.Bits.{has_bit, set_bit, set_bits, ones}
use rusty_alto.Base.Assoc.{lookup, insert, entry}
use rusty_alto.Util.DenseIndex.{from_pairs, count_keys, prefix_sums, scatter, values}
use rusty_alto.Base.Result.{ok, err}
use rusty_alto.Ids.{StateId, Symbol, is_stuck, stuck, u32_max}
use rusty_alto.Term.{Term}
use rusty_alto.Traits.Runs.{Accepts}
use rusty_alto.Explicit.Types.{Weight, StoredRule, Explicit, ExplicitBuilder, duplicate_transition}
use rusty_alto.Explicit.Builder.{
  new, new_state, check_state, check_states, add_weighted_rule, try_build, finish, finish_rules,
  from_parts,
}
use rusty_alto.Explicit.Builder.Duplicates.{BuildOutcome, try_build_outcome}
use rusty_alto.Explicit.Builder.Allocated.{
  IsRuleBelow, IsAllocated, new-IsAllocated, add_weighted_rule_iff, allocate, rule, call, run,
  run-IsAllocated,
}
use rusty_alto.Explicit.Index.{
  explicit_ta, step, step_det, bottom_up_indexes, index_rules, index_rule, lookup_results,
  push_result,
}
use rusty_alto.Explicit.Index.Lookup.{HasRule, step_iff, step_det_iff}
use rusty_alto.Explicit.Reach.{
  compute_reachable_states, is_empty, saturate, start, mark_nullary, mark_reachable, mention_pairs,
  discharge, discharge_all,
}
use rusty_alto.Explicit.Reach.Productive.{Productive}
use rusty_alto.Explicit.Reach.Correct.{compute_reachable_states_lem}
use rusty_alto.Explicit.Reach.Empty.{IsSound, is_empty_iff}
use rusty_alto.Explicit.Partial.{step_partial}
use rusty_alto.Explicit.Partial.Children.{step_partial_lem}
use rusty_alto.Explicit.Weights.{ProbabilityWeightError, validate_probability_weights}
use rusty_alto.Explicit.Weights.Validation.{AllProbabilities, FirstInvalid, validate_lem}
use rusty_alto.Explicit.TopDown.{rules_topdown, step_topdown}
use rusty_alto.Explicit.TopDown.Rules.{with_result, rules_topdown_lem, step_topdown_lem}

instance abbrev percent : Weight ℕ
percent = record { one = 100; is_probability = λ w. leb w 100 }

abbrev leaf : StoredRule ℕ
leaf = record { symbol = 0; children = []; result = 0; weight = 100 }

abbrev fork : StoredRule ℕ
fork = record { symbol = 1; children = 0 ∷ 0 ∷ []; result = 1; weight = 50 }

abbrev builder : ExplicitBuilder ℕ
builder = record { next_state = 2; accepting = 1 ∷ []; rules = leaf ∷ fork ∷ [] }

abbrev trees : Explicit ℕ
trees = record {
  num_states = 2;
  accepting = false ∷ true ∷ [];
  rules = leaf ∷ fork ∷ [];
  probability_weights = true;
}

rules_below : All (IsRuleBelow 2) (leaf ∷ fork ∷ [])
rules_below = ((omega arith, tt), ((omega arith, (omega arith, (omega arith, tt))), tt))

trees-IsSound : IsSound trees
unfolding stuck u32_max
trees-IsSound = record { rules = rules_below; low = omega arith }

builder-IsAllocated : IsAllocated builder
unfolding stuck u32_max
builder-IsAllocated = record {
  low = omega arith;
  accepting = (omega arith, tt);
  rules = rules_below;
}

rules_fit : length builder.rules ≤ u32_max
unfolding u32_max
rules_fit = omega arith

builder_builds : try_build builder ≡ ok trees
unfolding try_build finish finish_rules from_parts set_bits set_bit u32_max
builder_builds = refl

is_empty_iff_example :
    (b : Bool) × (is_empty trees ≡ some b)
    × ((b ≡ true) ↔ ((t : Term) → ¬ Accepts (explicit_ta trees) t))
is_empty_iff_example = is_empty_iff trees trees-IsSound

compute_reachable_states_lem_example :
    (reachable : List Bool) × (compute_reachable_states trees ≡ some reachable)
    × (length reachable ≡ trees.num_states)
    × ((q : StateId) → (has_bit reachable q ≡ true) ↔ Productive trees.rules q)
compute_reachable_states_lem_example = compute_reachable_states_lem trees rules_below

step_iff_example :
    ((q : StateId) → Memᴰ q (step trees 1 (0 ∷ 0 ∷ [])) ↔ HasRule trees.rules 1 (0 ∷ 0 ∷ []) q)
    × Distinct (step trees 1 (0 ∷ 0 ∷ []))
step_iff_example = step_iff trees 1 (0 ∷ 0 ∷ [])

step_det_iff_example : (step_det trees 1 (0 ∷ 0 ∷ []) ≡ some 1) ↔ (
    HasRule trees.rules 1 (0 ∷ 0 ∷ []) 1
    × ((p : StateId) → HasRule trees.rules 1 (0 ∷ 0 ∷ []) p → p ≡ 1))
step_det_iff_example = step_det_iff trees 1 (0 ∷ 0 ∷ []) 1

try_build_outcome_example : BuildOutcome builder
try_build_outcome_example = try_build_outcome builder builder-IsAllocated.accepting rules_fit

calls_made :
    run (allocate ∷ rule leaf ∷ []) new
    ≡ some (record { next_state = 1; accepting = []; rules = leaf ∷ [] })
unfolding run call new_state check_state check_states add_weighted_rule is_stuck stuck u32_max
calls_made = refl

run-IsAllocated_example :
    IsAllocated {W = ℕ} (record { next_state = 1; accepting = []; rules = leaf ∷ [] })
run-IsAllocated_example =
    run-IsAllocated (allocate ∷ rule leaf ∷ []) new
      (record { next_state = 1; accepting = []; rules = leaf ∷ [] }) new-IsAllocated calls_made

abbrev grow : StoredRule ℕ
grow = record { symbol = 1; children = 1 ∷ 0 ∷ []; result = 1; weight = 50 }

abbrev grown : ExplicitBuilder ℕ
grown = record { next_state = 2; accepting = 1 ∷ []; rules = leaf ∷ fork ∷ grow ∷ [] }

add_weighted_rule_iff_example :
    (add_weighted_rule builder grow.symbol grow.children grow.result grow.weight ≡ some grown) ↔ (
      IsRuleBelow builder.next_state grow
      × (grown ≡ record builder { rules = builder.rules ++ grow ∷ [] }))
add_weighted_rule_iff_example = add_weighted_rule_iff builder grow grown builder-IsAllocated

rules_topdown_lem_example : rules_topdown trees 1 ≡ some (with_result 1 trees.rules)
rules_topdown_lem_example = rules_topdown_lem trees 1 rules_below (omega arith)

step_topdown_lem_example :
    (rules : List (Symbol × List StateId)) × (step_topdown trees 1 ≡ some rules)
    × ((f : Symbol) (cs : List StateId) → Memᴰ (f, cs) rules ↔ Memᴰ 1 (step trees f cs))
step_topdown_lem_example = step_topdown_lem trees trees-IsSound 1

-- `step` finds the result, `is_empty` answers, and a second transition with the same key is refused.
step_finds : step trees 1 (0 ∷ 0 ∷ []) ≡ 1 ∷ []
unfolding step bottom_up_indexes index_rules index_rule lookup_results push_result lookup entry
    insert
step_finds = refl

accepts_some : is_empty trees ≡ some false
unfolding is_empty compute_reachable_states saturate start mark_nullary mark_reachable mention_pairs
    discharge discharge_all from_pairs count_keys prefix_sums scatter values ones
accepts_some = refl

refuses_twice :
    try_build (record builder { rules = leaf ∷ fork ∷ fork ∷ [] })
    ≡ err (duplicate_transition 1 (0 ∷ 0 ∷ []) 1)
unfolding try_build finish finish_rules from_parts set_bits set_bit u32_max
refuses_twice = refl

abbrev heavy : StoredRule ℕ
heavy = record { symbol = 0; children = []; result = 0; weight = 200 }

abbrev weighed : Explicit ℕ
weighed = record {
  num_states = 1;
  accepting = false ∷ [];
  rules = leaf ∷ heavy ∷ [];
  probability_weights = false;
}

weighed_made : from_parts 1 (false ∷ []) (leaf ∷ heavy ∷ []) ≡ some weighed
unfolding from_parts u32_max
weighed_made = refl

validate_lem_example :
    ((validate_probability_weights weighed ≡ ok tt) × AllProbabilities (leaf ∷ heavy ∷ []))
    ⊎ ((e : ProbabilityWeightError ℕ) × (validate_probability_weights weighed ≡ err e)
        × FirstInvalid (leaf ∷ heavy ∷ []) e)
validate_lem_example = validate_lem 1 (false ∷ []) (leaf ∷ heavy ∷ []) weighed weighed_made

step_partial_lem_example :
    (rules : List (List StateId × StateId)) × (step_partial trees 1 0 0 ≡ some rules)
    × ((cs : List StateId) (q : StateId)
        → Memᴰ {A = List StateId × StateId} (cs, q) rules
          ↔ (Memᴰ q (step trees 1 cs) × (get_elem? cs 0 ≡ some 0)))
step_partial_lem_example = step_partial_lem trees 1 0 0
