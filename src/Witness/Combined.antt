-- ===== src/Witness/Combined.antt =====
-- src/combinators and `cartesian_product` of src/run.rs at concrete inputs: an automaton with the
-- rules `0 -> 5` and `1(5) -> 6`, where `6` accepts.
use rusty_alto.Base.{
  ℕ, zero, suc, ◌≡◌, refl, ◌↔◌, inl, inr, ◌&&◌, List, [], ◌∷◌, Memᴰ, not-mem-nil, mem-cons, Option,
  none, some, get_elem?, arith, ◌==◌, nat_eq, list_eq, pair_eq, list_beq_iff, if◌then◌else◌,
  Bool-cases,
}
use rusty_alto.Base.Order.{nat_ord}
use rusty_alto.Ids.{Symbol, StateId}
use rusty_alto.Term.{Term, node, nil, cons}
use rusty_alto.Traits.{BottomUpTa, DetBottomUpTa, IndexedBottomUpTa, TopDownTa}
use rusty_alto.Traits.Runs.{Accepts}
use rusty_alto.Traits.Views.{IsTopDown, IsIndexed, IsDet}
use rusty_alto.Run.Tuples.{cartesian_product}
use rusty_alto.Run.Tuples.Odometer.{tuples}
use rusty_alto.Run.Tuples.Enumeration.{cartesian_product-eq-tuples}
use rusty_alto.Combinators.Product.{product, step_topdown, step_partial, step_det, initial_states}
use rusty_alto.Combinators.Product.Language.{product-Accepts_iff}
use rusty_alto.Combinators.Product.Joins.{product-IsTopDown, product-IsIndexed}
use rusty_alto.Combinators.Product.Det.{product-IsDet}
use rusty_alto.Combinators.Mapped.{mapped, mapped-Accepts_iff, relabel}
use rusty_alto.Combinators.Determinized.{determinized}
use rusty_alto.Combinators.Determinized.Language.{determinized-Accepts_iff}

abbrev chain_step : Symbol → List StateId → List StateId
chain_step f cs =
    if (f == 0) && (cs == []) then 5 ∷ [] else if (f == 1) && (cs == 5 ∷ []) then 6 ∷ [] else []

abbrev pub chain : BottomUpTa StateId
chain = record { step = chain_step; is_accepting = λ q. q == 6 }

abbrev chain_topdown : StateId → List (Symbol × List StateId)
chain_topdown q = if q == 5 then (0, []) ∷ [] else if q == 6 then (1, 5 ∷ []) ∷ [] else []

abbrev chain_det : Symbol → List StateId → Option StateId
chain_det f cs =
    if (f == 0) && (cs == []) then some 5 else if (f == 1) && (cs == 5 ∷ []) then some 6 else none

abbrev chain_partial : Symbol → ℕ → StateId → List (List StateId × StateId)
chain_partial f position p =
    if (f == 1) && ((position == 0) && (p == 5)) then (5 ∷ [], 6) ∷ [] else []

abbrev down : TopDownTa StateId
down = record { oracle = chain; step_topdown = chain_topdown; initial_states = 6 ∷ [] }

abbrev indexed : IndexedBottomUpTa StateId
indexed = record { oracle = chain; step_partial = chain_partial }

abbrev pub det : DetBottomUpTa StateId
det = record { oracle = chain; step_det = chain_det }

abbrev pub tree : Term
tree = node 1 (cons (node 0 nil) nil)

down-IsTopDown : IsTopDown down
unfolding IsTopDown
down-IsTopDown f cs q = ground (
  arith,
  list_beq_iff cs [],
  list_beq_iff cs (5 ∷ []),
  mem-cons {A = Symbol × List StateId} (f, cs) (0, []) [],
  mem-cons {A = Symbol × List StateId} (f, cs) (1, 5 ∷ []) [],
  not-mem-nil {A = Symbol × List StateId} (f, cs),
  mem-cons {A = StateId} q 5 [],
  mem-cons {A = StateId} q 6 [],
  not-mem-nil {A = StateId} q,
)

indexed-IsIndexed : IsIndexed indexed
unfolding IsIndexed
indexed-IsIndexed f position p cs q = ground (
  arith,
  list_beq_iff cs [],
  list_beq_iff cs (5 ∷ []),
  mem-cons {A = List StateId × StateId} (cs, q) (5 ∷ [], 6) [],
  not-mem-nil {A = List StateId × StateId} (cs, q),
  mem-cons {A = StateId} q 5 [],
  mem-cons {A = StateId} q 6 [],
  not-mem-nil {A = StateId} q,
  at position,
)
  where
    at : (i : ℕ) → (get_elem? (5 ∷ []) i ≡ some p) ↔ ((i ≡ 0) × (p ≡ 5))
    at zero = ground arith
    at (suc i) = ground arith

only_member : (p q : StateId) → Memᴰ p (q ∷ []) → p ≡ q
only_member p q m = ground (arith, mem-cons p q [], not-mem-nil p)

det-IsDet : IsDet det
unfolding IsDet
det-IsDet f cs q = elim (Bool-cases ((f == 0) && (cs == []))) [
  | inl first ↦ rw first (
    λ h. let same : q ≡ 5 = ground arith in rw same (Memᴰ.head refl, λ p m. only_member p 5 m),
    λ h. let same : q ≡ 5 = only_member q 5 h.0 in rw same refl,
  )
  | inr other ↦ elim (Bool-cases ((f == 1) && (cs == 5 ∷ []))) [
    | inl second ↦
        rw (other, second)
          (
            λ h.
                let same : q ≡ 6 = ground arith in
                rw same (Memᴰ.head refl, λ p m. only_member p 6 m),
            λ h. let same : q ≡ 6 = only_member q 6 h.0 in rw same refl,
          )
    | inr third ↦ rw (other, third) (λ h. cc, λ h. absurd (not-mem-nil q h.0))
  ]
]

abbrev pools : List (List ℕ)
pools = (1 ∷ 2 ∷ []) ∷ (3 ∷ 4 ∷ 5 ∷ []) ∷ []

cartesian_product-eq-tuples_example : cartesian_product pools ≡ some (tuples pools)
cartesian_product-eq-tuples_example = cartesian_product-eq-tuples pools

product-Accepts_iff_example :
    Accepts (product chain chain) tree ↔ (Accepts chain tree × Accepts chain tree)
product-Accepts_iff_example = product-Accepts_iff chain chain tree

product-IsTopDown_example : IsTopDown (record {
  oracle = product chain chain;
  step_topdown = step_topdown down down;
  initial_states = initial_states down down;
})
product-IsTopDown_example = product-IsTopDown down down down-IsTopDown down-IsTopDown

product-IsIndexed_example :
    IsIndexed (record { oracle = product chain chain; step_partial = step_partial indexed indexed })
product-IsIndexed_example = product-IsIndexed indexed indexed indexed-IsIndexed indexed-IsIndexed

product-IsDet_example : IsDet (record { oracle = product chain chain; step_det = step_det det det })
product-IsDet_example = product-IsDet det det det-IsDet det-IsDet

mapped-Accepts_iff_example :
    Accepts (mapped (λ f. 1) chain) tree ↔ Accepts chain (relabel (λ f. 1) tree)
mapped-Accepts_iff_example = mapped-Accepts_iff (λ f. 1) chain tree

determinized-Accepts_iff_example : Accepts (determinized chain) tree ↔ Accepts chain tree
determinized-Accepts_iff_example = determinized-Accepts_iff chain tree
