-- ===== src/Combinators/Determinized.antt =====
-- src/combinators/determinized.rs, and `product_step_sets` of src/combinators/product.rs: the lazy
-- subset construction. A `BTreeSet` is its sorted list of elements. The case `none` of `step` is
-- where `cartesian_product` would panic or run on (`Language` shows that it does not occur).
pub mod Language
use rusty_alto.Base.{Bool, List, [], ◌∷◌, Option, none, some, ◌>>=◌, any}
use rusty_alto.Base.Order.{Ord, set_insert}
use rusty_alto.Base.Flat.{flat_map}
use rusty_alto.Ids.{Symbol}
use rusty_alto.Traits.{BottomUpTa, DetBottomUpTa}
use rusty_alto.Run.Tuples.{cartesian_product}

module _ {ℓ} {S : Type ℓ} ⦃o : Ord S⦄ where
  -- a loop that inserts what it is called with
  unfoldable pub insert_all : List S → List S → List S
  insert_all result [] = result
  insert_all result (q ∷ qs) = insert_all (set_insert q result) qs

  -- `deterministic_result`
  unfoldable pub deterministic_result : BottomUpTa S → Symbol → List (List S) → Option (List S)
  deterministic_result automaton f children = do
    tuples ← cartesian_product children
    some (insert_all [] (flat_map (λ tuple. automaton.step f tuple) tuples))

  -- `DetBottomUpTa::step_det`
  unfoldable pub step_det : BottomUpTa S → Symbol → List (List S) → Option (List S)
  step_det automaton f children = elim (deterministic_result automaton f children) [
    | none ↦ none
    | some [] ↦ none
    | some (q ∷ qs) ↦ some (q ∷ qs)
  ]

  -- `BottomUpTa::step`
  unfoldable pub step : BottomUpTa S → Symbol → List (List S) → List (List S)
  step automaton f children = elim (deterministic_result automaton f children) [
    | none ↦ []
    | some [] ↦ []
    | some (q ∷ qs) ↦ (q ∷ qs) ∷ []
  ]

  -- `BottomUpTa::is_accepting`
  unfoldable pub is_accepting : BottomUpTa S → List S → Bool
  is_accepting automaton qs = any automaton.is_accepting qs

  -- `Determinized` as an automaton
  abbrev pub determinized : BottomUpTa S → BottomUpTa (List S)
  determinized a = record { step = step a; is_accepting = is_accepting a }
