-- ===== src/Explicit/Partial.antt =====
-- src/explicit.rs: the index of rules by their children, and `IndexedBottomUpTa::step_partial`.
-- `none` is a panic.
pub mod Children
use rusty_alto.Base.{
  ℕ, zero, suc, List, [], ◌∷◌, ◌++◌, map, Option, none, some, ◌>>=◌, nat_eq, pair_eq,
}
use rusty_alto.Base.Assoc.{Assoc, lookup, entry}
use rusty_alto.Ids.{StateId, Symbol}
use rusty_alto.Explicit.Types.{StoredRule, Explicit}
use rusty_alto.Explicit.TopDown.{rules_at}

-- `Indexes`: the keys are a symbol, a position and the state there
abbrev pub ChildIndex : Type 0
ChildIndex = Assoc (Symbol × (ℕ × StateId)) (List ℕ)

-- the inner loop of `indexes`, from a position on
unfoldable pub index_children : ℕ → Symbol → ℕ → List StateId → ChildIndex → ChildIndex
index_children rule_idx f position [] ix = ix
index_children rule_idx f position (child ∷ children) ix =
    index_children rule_idx f (suc position) children
      (entry (f, (position, child)) [] (λ idxs. idxs ++ rule_idx ∷ []) ix)

module _ {ℓ} {W : Type ℓ} where
  -- the outer loop of `indexes`, from a rule number on
  unfoldable pub index_by_child : ℕ → List (StoredRule W) → ChildIndex → ChildIndex
  index_by_child rule_idx [] ix = ix
  index_by_child rule_idx (r ∷ rs) ix =
      index_by_child (suc rule_idx) rs (index_children rule_idx r.symbol 0 r.children ix)

  -- the calls of `step_partial`
  abbrev pub reports : List (StoredRule W) → List (List StateId × StateId)
  reports rules = map (λ r. (r.children, r.result)) rules

  -- `IndexedBottomUpTa::step_partial`
  unfoldable pub step_partial :
      Explicit W → Symbol → ℕ → StateId → Option (List (List StateId × StateId))
  step_partial a f position q = elim (lookup (f, (position, q)) (index_by_child 0 a.rules [])) [
    | none ↦ some []
    | some idxs ↦ do rules ← rules_at a idxs; some (reports rules)
  ]
