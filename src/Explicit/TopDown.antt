-- ===== src/Explicit/TopDown.antt =====
-- src/explicit.rs: the rules by their result. `none` is a panic; the index of rules by their result
-- is what `result_index` holds.
pub mod Rules
use rusty_alto.Base.{
  ℕ, zero, suc, Bool, List, [], ◌∷◌, Option, none, some, ◌>>=◌, get_elem?, map, if◌then◌else◌,
}
use rusty_alto.Base.Bits.{ones}
use rusty_alto.Util.DenseIndex.{DenseIndex, from_pairs, values, get}
use rusty_alto.Ids.{StateId, Symbol, is_stuck}
use rusty_alto.Explicit.Types.{StoredRule, Explicit}

module _ {ℓ} {W : Type ℓ} where
  -- the pairs of `result_index`: for each rule its result and its number
  unfoldable pub result_pairs : ℕ → List (StoredRule W) → List (StateId × ℕ)
  result_pairs i [] = []
  result_pairs i (r ∷ rs) = (r.result, i) ∷ result_pairs (suc i) rs

  -- `Explicit::result_index`
  unfoldable pub result_index : Explicit W → Option (DenseIndex ℕ)
  result_index a = from_pairs 0 a.num_states (result_pairs 0 a.rules)

  -- `Explicit::rule`, and `rule_by_id`
  unfoldable pub rule : Explicit W → ℕ → Option (StoredRule W)
  rule a rule_idx = get_elem? a.rules rule_idx

  -- the rules with a list of numbers
  unfoldable pub rules_at : Explicit W → List ℕ → Option (List (StoredRule W))
  unfolding rule
  rules_at a [] = some []
  rules_at a (idx ∷ idxs) = do r ← rule a idx; rs ← rules_at a idxs; some (r ∷ rs)

  -- `Explicit::rules_topdown`
  unfoldable pub rules_topdown : Explicit W → StateId → Option (List (StoredRule W))
  rules_topdown a parent = do index ← result_index a; idxs ← values index parent; rules_at a idxs

  -- the calls of `TopDownTa::step_topdown`
  abbrev pub calls : List (StoredRule W) → List (Symbol × List StateId)
  calls rules = map (λ r. (r.symbol, r.children)) rules

  -- `TopDownTa::step_topdown`
  unfoldable pub step_topdown : Explicit W → StateId → Option (List (Symbol × List StateId))
  step_topdown a parent = if is_stuck parent then some [] else do
    index ← result_index a
    rules ← elim (get index parent) [ none ↦ some [] | some idxs ↦ rules_at a idxs ]
    some (calls rules)

  -- `TopDownTa::initial_states`
  unfoldable pub initial_states : Explicit W → List StateId
  initial_states a = ones 0 a.accepting
