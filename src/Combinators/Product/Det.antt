-- ===== src/Combinators/Product/Det.antt =====
-- The deterministic steps of a product.
use rusty_alto.Base.{◌≡◌, refl, ap, ◌↔◌, List, some, >>=-eq-some}
use rusty_alto.Base.Flat.{firsts, seconds}
use rusty_alto.Ids.{Symbol}
use rusty_alto.Traits.{DetBottomUpTa}
use rusty_alto.Traits.Views.{IsDet}
use rusty_alto.Combinators.Product.{step_det, product}
use rusty_alto.Combinators.Product.Language.{mem-step}

module _ {ℓ κ} {S : Type ℓ} {T : Type κ} (a : DetBottomUpTa S) (b : DetBottomUpTa T) where
  step_det_parts :
      (f : Symbol) (cs : List (S × T)) (p : S) (q : T)
      → (step_det a b f cs ≡ some (p, q))
        ↔ ((a.step_det f (firsts cs) ≡ some p) × (b.step_det f (seconds cs) ≡ some q))
  unfolding step_det
  step_det_parts f cs p q = (
    λ h.
        let (x, e₁, h₁) = >>=-eq-some (a.step_det f (firsts cs)) _ h in
        let (y, e₂, h₂) = >>=-eq-some (b.step_det f (seconds cs)) _ h₁ in
        let left : x ≡ p = cc in let right : y ≡ q = cc in (rw (← left) e₁, rw (← right) e₂),
    λ (e₁, e₂). rw (e₁, e₂),
  )

  -- If both automata return the only state that they report, so does the product.
  pub product-IsDet :
      IsDet a
      → IsDet b
      → IsDet (record { oracle = product a.oracle b.oracle; step_det = step_det a b })
  unfolding IsDet
  product-IsDet left right f cs (p, q) =
      let parts = step_det_parts f cs p q in
      let on_left = left f (firsts cs) p in
      let on_right = right f (seconds cs) q in
      let both = λ (x : S) (y : T). mem-step a.oracle b.oracle f cs x y in
      (
        λ h.
            let (m, one) = on_left.0 (parts.0 h).0 in
            let (n, other) = on_right.0 (parts.0 h).1 in
            (
              (both p q).1 (m, n),
              λ (x, y) k.
                  let e₁ : x ≡ p = one x ((both x y).0 k).0 in
                  let e₂ : y ≡ q = other y ((both x y).0 k).1 in rw (e₁, e₂) refl,
            ),
        λ (m, only).
            let (m₁, m₂) = (both p q).0 m in
            parts.1 (
              on_left.1 (m₁, λ x k. ap (λ z. z.0) (only (x, q) ((both x q).1 (k, m₂)))),
              on_right.1 (m₂, λ y k. ap (λ z. z.1) (only (p, y) ((both p y).1 (m₁, k)))),
            ),
      )
