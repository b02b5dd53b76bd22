-- ===== src/Base/Rows.antt =====
-- Vectors of vectors: a push to one row.
use Prim.Native.Nat.{ℕ, zero, suc, ◌<◌}
use mathlib.Core.Path.{◌≡◌, refl, ap}
use mathlib.Core.Logic.{inl, inr}
use mathlib.Core.Bool.{false}
use mathlib.Core.List.{List, [], ◌∷◌, ◌++◌}
use mathlib.Core.Option.{Option, some}
use native.Mathlib.Omega.{arith}
use rusty_alto.Base.Tests.{if◌then◌else◌, Bool-cases, nat_beq_iff}
use rusty_alto.Base.Equality.{◌==◌, nat_eq}
use rusty_alto.Base.Lists.{length, get_elem?, set, length-set, get_elem?_of_lt}
use rusty_alto.Base.Fallible.{◌>>=◌}
use rusty_alto.Base.Assoc.{listed}

module _ {ℓ} {A : Type ℓ} where
  -- `rows[i].push(item)`
  unfoldable pub push_at : List (List A) → ℕ → A → Option (List (List A))
  push_at rows i item = do row ← get_elem? rows i; some (set rows i (row ++ item ∷ []))

  get_elem?-set_self :
      (xs : List A) (i : ℕ) (v : A) → i < length xs → get_elem? (set xs i v) i ≡ some v
  get_elem?-set_self [] i v h = absurd (omega arith)
  get_elem?-set_self (x ∷ xs) zero v h = refl
  get_elem?-set_self (x ∷ xs) (suc i) v h = get_elem?-set_self xs i v (omega arith)

  get_elem?-set_ne :
      (xs : List A) (i j : ℕ) (v : A) → (i == j) ≡ false → get_elem? (set xs i v) j ≡ get_elem? xs j
  get_elem?-set_ne [] i j v h = refl
  get_elem?-set_ne (x ∷ xs) zero zero v h = cc
  get_elem?-set_ne (x ∷ xs) zero (suc j) v h = refl
  get_elem?-set_ne (x ∷ xs) (suc i) zero v h = refl
  get_elem?-set_ne (x ∷ xs) (suc i) (suc j) v h = get_elem?-set_ne xs i j v (ground arith)

module _ {ℓ} {A : Type ℓ} where
  -- What a push leaves: the row has one more item, and the others are as before.
  pub record Pushed (rows : List (List A)) (i : ℕ) (item : A) (more : List (List A)) : Type ℓ where
    pub size : length more ≡ length rows
    pub row_of :
        (j : ℕ)
        → listed (get_elem? more j)
          ≡ (if i == j then listed (get_elem? rows j) ++ item ∷ [] else listed (get_elem? rows j))

  pub push_at_lem :
      (rows : List (List A)) (i : ℕ) (item : A)
      → i < length rows
      → (more : List (List A)) × (push_at rows i item ≡ some more) × Pushed rows i item more
  unfolding push_at
  push_at_lem rows i item h =
      let (row, at) = get_elem?_of_lt rows i h in
      (
        set rows i (row ++ item ∷ []),
        rw at refl,
        record {
          size = length-set rows i (row ++ item ∷ []);
          row_of = λ j. elim (Bool-cases (i == j)) [
            | inl here ↦
                let same : i ≡ j = (nat_beq_iff i j).0 here in
                rw here (rw (← same) (rw (at, get_elem?-set_self rows i (row ++ item ∷ []) h) refl))
            | inr other ↦ rw other (ap listed (get_elem?-set_ne rows i j (row ++ item ∷ []) other))
          ];
        },
      )
