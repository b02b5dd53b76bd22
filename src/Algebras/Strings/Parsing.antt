-- ===== src/Algebras/Strings/Parsing.antt =====
-- Parsing as a composition: a grammar automaton joined with the inverse homomorphism of the
-- decomposition automaton of a sentence.
use rusty_alto.Base.{◌≡◌, ◌↔◌, List, some}
use rusty_alto.Base.Result.{ok}
use rusty_alto.Ids.{Symbol}
use rusty_alto.Term.{Term}
use rusty_alto.Traits.{BottomUpTa}
use rusty_alto.Traits.Runs.{Accepts}
use rusty_alto.Combinators.Product.{product}
use rusty_alto.Combinators.Product.Language.{product-Accepts_iff}
use rusty_alto.Homomorphism.{Homomorphism, apply}
use rusty_alto.Combinators.InvHom.{inv_hom}
use rusty_alto.Homomorphism.Adding.{IsNondeleting}
use rusty_alto.Combinators.InvHom.Language.{IsRanked, inv_hom-Accepts_iff}
use rusty_alto.Algebras.Strings.{
  StringAlgebra, span_eq, evaluate_term_internal, decompose, automaton,
}
use rusty_alto.Algebras.Strings.Meaning.{decompose-Accepts_iff}

-- The product of a grammar automaton with the inverse homomorphism of the decomposition automaton
-- of a sentence accepts a derivation tree of the right arities exactly if the grammar does and the
-- image of the tree evaluates to the sentence.
pub parse-Accepts_iff {ℓ} :
    {S : Type ℓ} (grammar : BottomUpTa S) (h : Homomorphism) (a : StringAlgebra) (xs : List Symbol)
    (t : Term)
    → IsNondeleting h
    → IsRanked h t
    → Accepts (product grammar (inv_hom h (automaton (decompose a xs)))) t ↔ (
        Accepts grammar t
        × ((u : Term) × (apply h t ≡ ok u) × (evaluate_term_internal a u ≡ some xs)))
parse-Accepts_iff grammar h a xs t linear ranks =
    let joint = product-Accepts_iff grammar (inv_hom h (automaton (decompose a xs))) t in
    let inverse = inv_hom-Accepts_iff h (automaton (decompose a xs)) t linear ranks in
    (
      λ run.
          let (left, right) = joint.0 run in
          let (u, made, there) = inverse.0 right in
          (left, (u, made, (decompose-Accepts_iff a xs u).0 there)),
      λ (left, (u, made, value)).
          joint.1 (left, inverse.1 (u, made, (decompose-Accepts_iff a xs u).1 value)),
    )
