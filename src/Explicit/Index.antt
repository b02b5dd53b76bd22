-- ===== src/Explicit/Index.antt =====
-- src/explicit.rs: transitions by lookup. The bottom-up tables of `bottom_up_indexes`, the queries
-- of `BottomUpTa` and `DetBottomUpTa`, and the accepting states.
pub mod Lookup
use rusty_alto.Base.{
  ℕ, suc, ◌+◌, ◌<◌, Bool, true, false, not, ◌&&◌, List, [], ◌∷◌, ◌++◌, foldl, Option, none, some,
  ◌==◌, Eq, nat_eq, list_eq, pair_eq, contains, length, get_elem?, if◌then◌else◌, map,
}
use rusty_alto.Base.Assoc.{Assoc, lookup, entry}
use rusty_alto.Base.Bits.{has_bit}
use rusty_alto.Ids.{StateId, Symbol, is_stuck}
use rusty_alto.Traits.{BottomUpTa, DetBottomUpTa}
use rusty_alto.Explicit.Types.{StoredRule, Explicit}

-- `Results`
abbrev pub Results : Type 0
Results = List StateId

-- `BottomUpIndexes`: a table for each of the arities 0, 1 and 2, and one for the rest
pub record BottomUpIndexes : Type 0 where
  pub nullary : Assoc Symbol Results
  pub unary : Assoc (Symbol × StateId) Results
  pub binary : Assoc (Symbol × (StateId × StateId)) Results
  pub higher : Assoc (Symbol × List StateId) Results

-- `push_result`
unfoldable pub push_result : StateId → Results → Results
push_result q results = if contains results q then results else results ++ q ∷ []

-- the `match` on the number of children in `bottom_up_indexes`
unfoldable pub index_rule : Symbol → List StateId → StateId → BottomUpIndexes → BottomUpIndexes
index_rule f [] q ix = record ix { nullary = entry f [] (push_result q) ix.nullary }
index_rule f (c ∷ []) q ix = record ix { unary = entry (f, c) [] (push_result q) ix.unary }
index_rule f (c ∷ d ∷ []) q ix = record ix {
  binary = entry (f, (c, d)) [] (push_result q) ix.binary;
}
index_rule f (c ∷ d ∷ e ∷ cs) q ix = record ix {
  higher = entry (f, c ∷ d ∷ e ∷ cs) [] (push_result q) ix.higher;
}

abbrev pub empty_indexes : BottomUpIndexes
empty_indexes = record { nullary = []; unary = []; binary = []; higher = [] }

-- the same `match` in `step` and `step_det`; `lookup_higher` compares symbol and children
unfoldable pub lookup_results : BottomUpIndexes → Symbol → List StateId → Option Results
lookup_results ix f [] = lookup f ix.nullary
lookup_results ix f (c ∷ []) = lookup (f, c) ix.unary
lookup_results ix f (c ∷ d ∷ []) = lookup (f, (c, d)) ix.binary
lookup_results ix f (c ∷ d ∷ e ∷ cs) = lookup (f, c ∷ d ∷ e ∷ cs) ix.higher

-- `(results.len() == 1).then_some(results[0])`; every list in the tables has an element, so the
-- first clause, where `results[0]` would panic, is not reached
abbrev pub only : Results → Option StateId
only [] = none
only (q ∷ []) = some q
only (q ∷ p ∷ ps) = none

module _ {ℓ} {W : Type ℓ} where
  -- the loop of `bottom_up_indexes`
  unfoldable pub index_rules : BottomUpIndexes → List (StoredRule W) → BottomUpIndexes
  index_rules ix [] = ix
  index_rules ix (r ∷ rs) = index_rules (index_rule r.symbol r.children r.result ix) rs

  -- `Explicit::bottom_up_indexes`
  unfoldable pub bottom_up_indexes : Explicit W → BottomUpIndexes
  bottom_up_indexes a = index_rules empty_indexes a.rules

  -- `BottomUpTa::step`
  unfoldable pub step : Explicit W → Symbol → List StateId → List StateId
  step a f children = elim (lookup_results (bottom_up_indexes a) f children) [
    | none ↦ []
    | some results ↦ results
  ]

  -- `BottomUpTa::is_accepting`
  unfoldable pub is_accepting : Explicit W → StateId → Bool
  is_accepting a q = not (is_stuck q) && has_bit a.accepting q

  -- `DetBottomUpTa::step_det`
  unfoldable pub step_det : Explicit W → Symbol → List StateId → Option StateId
  step_det a f children = elim (lookup_results (bottom_up_indexes a) f children) [
    | none ↦ none
    | some results ↦ only results
  ]

  -- `Explicit` as an automaton
  abbrev pub explicit_ta : Explicit W → BottomUpTa StateId
  explicit_ta a = record { step = step a; is_accepting = is_accepting a }

  -- `Explicit` as a deterministic automaton
  abbrev pub explicit_det : Explicit W → DetBottomUpTa StateId
  explicit_det a = record { oracle = explicit_ta a; step_det = step_det a }
