-- ===== src/Combinators/Product.antt =====
-- src/combinators/product.rs: the intersection product. What a callback is called with, call by
-- call, is a list.
pub mod Language
pub mod Joins
pub mod Det
use rusty_alto.Base.{
  ℕ, Bool, true, false, not, ◌&&◌, List, [], ◌∷◌, ◌++◌, map, Option, none, some, ◌>>=◌, ◌==◌,
  nat_eq, length, if◌then◌else◌,
}
use rusty_alto.Base.Flat.{flat_map, zip, firsts, seconds}
use rusty_alto.Ids.{Symbol}
use rusty_alto.Traits.{BottomUpTa, DetBottomUpTa, IndexedBottomUpTa, TopDownTa}

module _ {ℓ κ} {S : Type ℓ} {T : Type κ} where
  -- two nested loops that emit pairs
  abbrev pub pairs : List S → List T → List (S × T)
  pairs left right = flat_map (λ p. map (λ q. (p, q)) right) left

  -- `BottomUpTa::step`
  unfoldable pub step : BottomUpTa S → BottomUpTa T → Symbol → List (S × T) → List (S × T)
  step a b f children = elim (a.step f (firsts children)) [
    | [] ↦ []
    | p ∷ ps ↦ pairs (p ∷ ps) (b.step f (seconds children))
  ]

  -- `BottomUpTa::is_accepting`
  unfoldable pub is_accepting : BottomUpTa S → BottomUpTa T → S × T → Bool
  is_accepting a b (p, q) = a.is_accepting p && b.is_accepting q

  -- `DetBottomUpTa::step_det`
  unfoldable pub step_det :
      DetBottomUpTa S → DetBottomUpTa T → Symbol → List (S × T) → Option (S × T)
  step_det a b f children = do
    p ← a.step_det f (firsts children)
    q ← b.step_det f (seconds children)
    some (p, q)

  -- the body of the inner callback of `step_partial`
  abbrev pub join_partial : List S × S → List T × T → List (List (S × T) × (S × T))
  join_partial (cs, p) (ds, q) = if length cs == length ds then (zip cs ds, (p, q)) ∷ [] else []

  -- `IndexedBottomUpTa::step_partial`
  unfoldable pub step_partial :
      IndexedBottomUpTa S → IndexedBottomUpTa T → Symbol → ℕ → S × T → List (List (S × T) × (S × T))
  step_partial a b f position (p, q) =
      flat_map (λ left. flat_map (λ right. join_partial left right) (b.step_partial f position q))
        (a.step_partial f position p)

  -- the body of the inner callback of `step_topdown`
  abbrev pub join_topdown : Symbol × List S → Symbol × List T → List (Symbol × List (S × T))
  join_topdown (f, cs) (g, ds) =
      if not (f == g) then [] else if length cs == length ds then (f, zip cs ds) ∷ [] else []

  -- `TopDownTa::step_topdown`
  unfoldable pub step_topdown : TopDownTa S → TopDownTa T → S × T → List (Symbol × List (S × T))
  step_topdown a b (p, q) =
      flat_map (λ left. flat_map (λ right. join_topdown left right) (b.step_topdown q))
        (a.step_topdown p)

  -- `TopDownTa::initial_states`
  unfoldable pub initial_states : TopDownTa S → TopDownTa T → List (S × T)
  initial_states a b = pairs a.initial_states b.initial_states

  -- `Product` as an automaton
  abbrev pub product : BottomUpTa S → BottomUpTa T → BottomUpTa (S × T)
  product a b = record { step = step a b; is_accepting = is_accepting a b }
