-- ===== src/Combinators/Product/Joins.antt =====
-- The joins of partial rules and of top-down rules.
use rusty_alto.Base.{
  ◌≡◌, refl, sym, ◌↔◌, List, [], Memᴰ, not-mem-nil, mem-cons, length, arith, nat_eq,
}
use rusty_alto.Base.Flat.{
  flat_map, mem-flat_map, zip, firsts, seconds, firsts-zip, seconds-zip, zip-firsts-seconds,
  length-firsts-seconds, get_elem?-pair,
}
use rusty_alto.Ids.{Symbol}
use rusty_alto.Traits.{IndexedBottomUpTa, TopDownTa}
use rusty_alto.Traits.Views.{IsTopDown, IsIndexed}
use rusty_alto.Combinators.Product.{
  join_partial, join_topdown, step_partial, step_topdown, initial_states, product,
}
use rusty_alto.Combinators.Product.Language.{mem-step}

-- a nested loop whose body emits at most one joint value of a left and a right one
module _ {ℓ κ μ} {A : Type ℓ} {B : Type κ} {C : Type μ} (body : A → B → List C) (l : C → A)
    (r : C → B) (only : (x : A) (y : B) (z : C) → Memᴰ z (body x y) ↔ ((l z ≡ x) × (r z ≡ y))) where
  mem-join :
      (xs : List A) (ys : List B) (z : C)
      → Memᴰ z (flat_map (λ x. flat_map (λ y. body x y) ys) xs) ↔ (Memᴰ (l z) xs × Memᴰ (r z) ys)
  mem-join xs ys z = (
    λ m.
        let (x, at, n) = (mem-flat_map (λ x. flat_map (λ y. body x y) ys) xs z).0 m in
        let (y, here, o) = (mem-flat_map (λ y. body x y) ys z).0 n in
        let (e₁, e₂) = (only x y z).0 o in (rw e₁ at, rw e₂ here),
    λ (m, n). (mem-flat_map (λ x. flat_map (λ y. body x y) ys) xs z).1 (
      l z,
      m,
      (mem-flat_map (λ y. body (l z) y) ys z).1 (r z, n, (only (l z) (r z) z).1 (refl, refl)),
    ),
  )

module _ {ℓ κ} {S : Type ℓ} {T : Type κ} where
  abbrev left_rule : Symbol × List (S × T) → Symbol × List S
  left_rule (f, es) = (f, firsts es)

  abbrev right_rule : Symbol × List (S × T) → Symbol × List T
  right_rule (f, es) = (f, seconds es)

  abbrev left_result : List (S × T) × (S × T) → List S × S
  left_result (es, (p, q)) = (firsts es, p)

  abbrev right_result : List (S × T) × (S × T) → List T × T
  right_result (es, (p, q)) = (seconds es, q)

  -- the rows that two rows make
  zip_iff :
      (cs : List S) (ds : List T) (es : List (S × T))
      → ((length cs ≡ length ds) × (es ≡ zip cs ds)) ↔ ((firsts es ≡ cs) × (seconds es ≡ ds))
  zip_iff cs ds es = (
    λ (same, e). rw e (firsts-zip cs ds same, seconds-zip cs ds same),
    λ (e₁, e₂). rw (← e₁, ← e₂) (length-firsts-seconds es, sym (zip-firsts-seconds es)),
  )

  mem-join_topdown :
      (x : Symbol × List S) (y : Symbol × List T) (z : Symbol × List (S × T))
      → Memᴰ z (join_topdown x y) ↔ ((left_rule z ≡ x) × (right_rule z ≡ y))
  mem-join_topdown (f, cs) (g, ds) (h, es) = ground (
    arith,
    zip_iff cs ds es,
    mem-cons {A = Symbol × List (S × T)} (h, es) (f, zip cs ds) [],
    not-mem-nil {A = Symbol × List (S × T)} (h, es),
  )

  mem-join_partial :
      (x : List S × S) (y : List T × T) (z : List (S × T) × (S × T))
      → Memᴰ z (join_partial x y) ↔ ((left_result z ≡ x) × (right_result z ≡ y))
  mem-join_partial (cs, p) (ds, q) (es, (u, v)) = ground (
    arith,
    zip_iff cs ds es,
    mem-cons {A = List (S × T) × (S × T)} (es, (u, v)) (zip cs ds, (p, q)) [],
    not-mem-nil {A = List (S × T) × (S × T)} (es, (u, v)),
  )

  -- The product's top-down rules are those whose two parts are top-down rules of the automata, so
  -- if both report exactly their bottom-up rules, so does the product.
  pub product-IsTopDown :
      (a : TopDownTa S) (b : TopDownTa T)
      → IsTopDown a
      → IsTopDown b
      → IsTopDown (record {
        oracle = product a.oracle b.oracle;
        step_topdown = step_topdown a b;
        initial_states = initial_states a b;
      })
  unfolding IsTopDown step_topdown
  product-IsTopDown a b left right f es (p, q) =
      let joint =
        mem-join join_topdown left_rule right_rule mem-join_topdown (a.step_topdown p)
          (b.step_topdown q) (f, es) in
      let both = mem-step a.oracle b.oracle f es p q in
      (
        λ m.
            both.1
              ((left f (firsts es) p).0 (joint.0 m).0, (right f (seconds es) q).0 (joint.0 m).1),
        λ m.
            joint.1
              ((left f (firsts es) p).1 (both.0 m).0, (right f (seconds es) q).1 (both.0 m).1),
      )

  -- If both automata report exactly their rules with a given state at a given position, so does the
  -- product.
  pub product-IsIndexed :
      (a : IndexedBottomUpTa S) (b : IndexedBottomUpTa T)
      → IsIndexed a
      → IsIndexed b
      → IsIndexed (record { oracle = product a.oracle b.oracle; step_partial = step_partial a b })
  unfolding IsIndexed step_partial
  product-IsIndexed a b left right f i (u, v) es (p, q) =
      let joint =
        mem-join join_partial left_result right_result mem-join_partial (a.step_partial f i u)
          (b.step_partial f i v) (es, (p, q)) in
      let both = mem-step a.oracle b.oracle f es p q in
      let at = get_elem?-pair es i u v in
      let on_left = left f i u (firsts es) p in
      let on_right = right f i v (seconds es) q in
      (
        λ m.
            let (m₁, e₁) = on_left.0 (joint.0 m).0 in
            let (m₂, e₂) = on_right.0 (joint.0 m).1 in (both.1 (m₁, m₂), at.1 (e₁, e₂)),
        λ (m, e).
            let (m₁, m₂) = both.0 m in
            let (e₁, e₂) = at.0 e in joint.1 (on_left.1 (m₁, e₁), on_right.1 (m₂, e₂)),
      )
