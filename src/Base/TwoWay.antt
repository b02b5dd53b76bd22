-- ===== src/Base/TwoWay.antt =====
-- A map from values to dense numbers beside the list of the values: the pair that the interner
-- and the signature keep.
use Prim.Native.Nat.{ℕ, zero, suc}
use mathlib.Core.Path.{◌≡◌, refl}
use mathlib.Core.Logic.{◌⊎◌, inl, inr}
use mathlib.Core.List.{List, [], ◌∷◌, ◌++◌}
use mathlib.Core.Option.{none, some}
use native.Mathlib.Omega.{arith}
use rusty_alto.Base.Tests.{Bool-cases}
use rusty_alto.Base.Lists.{
  length, get_elem?, get_elem?-append_left, get_elem?-append_length, lt-length_of_get_elem?,
}
use rusty_alto.Base.Equality.{Eq, ◌==◌}
use rusty_alto.Base.Assoc.{Assoc, lookup, insert, lookup-insert}

module _ {ℓ} {T : Type ℓ} where
  get_elem?-concat :
      (xs : List T) (t s : T) (k : ℕ)
      → get_elem? (xs ++ t ∷ []) k ≡ some s
      → (get_elem? xs k ≡ some s) ⊎ ((k ≡ length xs) × (t ≡ s))
  get_elem?-concat [] t s zero h = inr (refl, ground arith)
  get_elem?-concat [] t s (suc k) h = cc
  get_elem?-concat (x ∷ xs) t s zero h = inl h
  get_elem?-concat (x ∷ xs) t s (suc k) h = ground (arith, get_elem?-concat xs t s k h)

module _ {ℓ} {T : Type ℓ} ⦃e : Eq T⦄ where
  pub record TwoWay (forward : Assoc T ℕ) (backward : List T) : Type ℓ where
    pub to_backward : (t : T) (k : ℕ) → lookup t forward ≡ some k → get_elem? backward k ≡ some t
    pub to_forward : (t : T) (k : ℕ) → get_elem? backward k ≡ some t → lookup t forward ≡ some k

  pub empty-TwoWay : TwoWay [] []
  unfolding lookup
  empty-TwoWay = record { to_backward = λ t k h. cc; to_forward = λ t k h. cc }

  -- A new value takes the next number.
  pub insert-TwoWay :
      (forward : Assoc T ℕ) (backward : List T) (t : T) (n : ℕ)
      → TwoWay forward backward
      → lookup t forward ≡ none
      → n ≡ length backward
      → TwoWay (insert t n forward) (backward ++ t ∷ [])
  insert-TwoWay forward backward t n v unknown at = record {
    to_backward = λ s k m.
        let read = rw lookup-insert at m in
        elim (Bool-cases (t == s)) [
          | inl same ↦
              let here : n ≡ k = ground (arith, read) in
              let value : t ≡ s = (e.same_iff t s).0 same in
              rw (← here, at, ← value) (get_elem?-append_length backward [] t)
          | inr other ↦
              let old : get_elem? backward k ≡ some s = v.to_backward s k (rw other at read) in
              rw (get_elem?-append_left backward (t ∷ []) k (lt-length_of_get_elem? backward k old))
                old
        ];
    to_forward = λ s k m. ground (
      arith,
      lookup-insert t s n forward,
      v.to_forward s k,
      get_elem?-concat backward t s k m,
      e.same_iff t s,
    );
  }

  -- The pair of a new value can be read both ways.
  pub insert-TwoWay_known :
      (forward : Assoc T ℕ) (backward : List T) (t : T) (n : ℕ)
      → n ≡ length backward
      → (lookup t (insert t n forward) ≡ some n) × (get_elem? (backward ++ t ∷ []) n ≡ some t)
  insert-TwoWay_known forward backward t n at = (
    ground (arith, lookup-insert t t n forward, e.same_iff t t),
    ground (arith, get_elem?-append_length backward [] t),
  )
