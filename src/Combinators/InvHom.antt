-- ===== src/Combinators/InvHom.antt =====
-- src/combinators/invhom.rs: the automaton that reads a source tree as its image under a
-- homomorphism. A panic is `none`.
pub mod Evaluation
pub mod Steps
pub mod Images
pub mod Language
use rusty_alto.Base.{
  Bool, true, false, List, [], ◌∷◌, Option, none, some, ◌>>=◌, Eq, contains, get_elem?,
  if◌then◌else◌,
}
use mathlib.Core.Option
use rusty_alto.Base.Assoc.{listed}
use rusty_alto.Base.Flat.{flat_map}
use rusty_alto.Ids.{Symbol}
use rusty_alto.Traits.{BottomUpTa, DetBottomUpTa}
use rusty_alto.Run.Tuples.{cartesian_product}
use rusty_alto.Homomorphism.Rhs.{HomTerm, HomTerms, var, symbol, no_terms, and_term}
use rusty_alto.Homomorphism.{Homomorphism, get}

module _ {ℓ} {S : Type ℓ} where
  -- one more pool in front, unless it is empty: then `eval_term` returns
  abbrev pub add_pool : List S → Option (List (List S)) → Option (List (List S))
  add_pool [] rest = none
  add_pool (q ∷ qs) none = none
  add_pool (q ∷ qs) (some pools) = some ((q ∷ qs) ∷ pools)

  -- the steps from all tuples of the pools
  unfoldable pub combine : BottomUpTa S → Symbol → Option (List (List S)) → Option (List S)
  combine inner f none = some []
  combine inner f (some pools) = do
    combos ← cartesian_product pools
    some (flat_map (λ combo. inner.step f combo) combos)

  -- a variable's state as the calls of `out`
  abbrev pub child_state : Option S → List S
  child_state none = []
  child_state (some q) = q ∷ []

  unfoldable mutual
    -- `eval_term`
    pub eval_term : BottomUpTa S → HomTerm → List S → Option (List S)
    eval_term inner (var i) src_children = some (child_state (get_elem? src_children i))
    eval_term inner (symbol f no_terms) src_children = some (inner.step f [])
    eval_term inner (symbol f (and_term t ts)) src_children = do
      states ← eval_term inner t src_children
      pools ← eval_terms inner ts src_children
      combine inner f (add_pool states pools)

    -- the loop over the children: the pools, or none when one is empty
    pub eval_terms : BottomUpTa S → HomTerms → List S → Option (Option (List (List S)))
    eval_terms inner no_terms src_children = some (some [])
    eval_terms inner (and_term t ts) src_children = do
      states ← eval_term inner t src_children
      pools ← eval_terms inner ts src_children
      some (add_pool states pools)

    -- `eval_term_det`
    pub eval_term_det : DetBottomUpTa S → HomTerm → List S → Option S
    eval_term_det inner (var i) src_children = get_elem? src_children i
    eval_term_det inner (symbol f ts) src_children = do
      combo ← eval_terms_det inner ts src_children
      inner.step_det f combo

    pub eval_terms_det : DetBottomUpTa S → HomTerms → List S → Option (List S)
    eval_terms_det inner no_terms src_children = some []
    eval_terms_det inner (and_term t ts) src_children = do
      q ← eval_term_det inner t src_children
      qs ← eval_terms_det inner ts src_children
      some (q ∷ qs)

  -- `step_det`
  unfoldable pub step_det : Homomorphism → DetBottomUpTa S → Symbol → List S → Option S
  step_det h inner f_src children = do term ← get h f_src; eval_term_det inner term children

module _ {ℓ} {S : Type ℓ} ⦃e : Eq S⦄ where
  -- the calls that pass the set `seen`
  unfoldable pub unseen : List S → List S → List S
  unseen seen [] = []
  unseen seen (q ∷ qs) =
      let skipped = unseen seen qs in
      let taken = unseen (q ∷ seen) qs in if contains seen q then skipped else q ∷ taken

  -- `step`
  unfoldable pub step : Homomorphism → BottomUpTa S → Symbol → List S → Option (List S)
  step h inner f_src children = elim (get h f_src) [
    | none ↦ some []
    | some term ↦ do states ← eval_term inner term children; some (unseen [] states)
  ]

  -- `InvHom` as an automaton; `Evaluation` shows that `step` returns.
  abbrev pub inv_hom : Homomorphism → BottomUpTa S → BottomUpTa S
  inv_hom h inner = record {
    step = λ f children. listed (step h inner f children);
    is_accepting = inner.is_accepting;
  }
