-- ===== src/Base/Flat.antt =====
-- Nested loops over lists, and rows of pairs.
use Prim.Native.Nat.{ℕ, zero, suc}
use mathlib.Core.Path.{◌≡◌, refl, ap}
use mathlib.Core.Logic.{◌↔◌, inl, inr, ⊎_elim}
use mathlib.Core.List.{List, [], ◌∷◌, ◌++◌, map, Memᴰ}
use native.Mathlib.Omega.{arith}
use mathlib.Core.Option.{some}
use rusty_alto.Base.Lists.{length, get_elem?}
use rusty_alto.Base.Members.{not-mem-nil, mem-cons, mem-append}

module _ {ℓ κ} {A : Type ℓ} {B : Type κ} where
  -- `for x in xs { for y in f(x) { out(y) } }`
  abbrev pub flat_map : (A → List B) → List A → List B
  flat_map f [] = []
  flat_map f (x ∷ xs) = f x ++ flat_map f xs

  pub mem-flat_map :
      (f : A → List B) (xs : List A) (b : B)
      → Memᴰ b (flat_map f xs) ↔ ((x : A) × Memᴰ x xs × Memᴰ b (f x))
  mem-flat_map f [] b = (λ m. absurd (not-mem-nil b m), λ (x, m, _). absurd (not-mem-nil x m))
  mem-flat_map f (x ∷ xs) b = (
    λ m.
        ⊎_elim (λ here. (x, Memᴰ.head refl, here))
          (λ later. let (y, at, n) = (mem-flat_map f xs b).0 later in (y, Memᴰ.tail at, n))
          ((mem-append b (f x) (flat_map f xs)).0 m),
    λ (y, at, n). (mem-append b (f x) (flat_map f xs)).1 (
        ⊎_elim (λ (e : y ≡ x). inl (rw (← e) n))
          (λ later. inr ((mem-flat_map f xs b).1 (y, later, n))) ((mem-cons y x xs).0 at)),
  )

  pub mem-map :
      (f : A → B) (xs : List A) (b : B) → Memᴰ b (map f xs) ↔ ((x : A) × Memᴰ x xs × (b ≡ f x))
  mem-map f [] b = (λ m. absurd (not-mem-nil b m), λ (x, m, _). absurd (not-mem-nil x m))
  mem-map f (x ∷ xs) b = (
    λ m.
        ⊎_elim (λ here. (x, Memᴰ.head refl, here))
          (λ later. let (y, at, e) = (mem-map f xs b).0 later in (y, Memᴰ.tail at, e))
          ((mem-cons b (f x) (map f xs)).0 m),
    λ (y, at, e).
        ⊎_elim (λ (same : y ≡ x). Memᴰ.head (rw (← same) e))
          (λ later. Memᴰ.tail ((mem-map f xs b).1 (y, later, e))) ((mem-cons y x xs).0 at),
  )

  -- `xs.iter().zip(ys)`
  abbrev pub zip : List A → List B → List (A × B)
  zip [] ys = []
  zip (x ∷ xs) [] = []
  zip (x ∷ xs) (y ∷ ys) = (x, y) ∷ zip xs ys

  abbrev pub firsts : List (A × B) → List A
  firsts [] = []
  firsts ((x, _) ∷ ps) = x ∷ firsts ps

  abbrev pub seconds : List (A × B) → List B
  seconds [] = []
  seconds ((_, y) ∷ ps) = y ∷ seconds ps

  pub firsts-zip : (xs : List A) (ys : List B) → length xs ≡ length ys → firsts (zip xs ys) ≡ xs
  firsts-zip [] ys e = refl
  firsts-zip (x ∷ xs) [] e = absurd (omega arith)
  firsts-zip (x ∷ xs) (y ∷ ys) e = ap (λ l. x ∷ l) (firsts-zip xs ys (omega arith))

  pub seconds-zip : (xs : List A) (ys : List B) → length xs ≡ length ys → seconds (zip xs ys) ≡ ys
  seconds-zip [] [] e = refl
  seconds-zip [] (y ∷ ys) e = absurd (omega arith)
  seconds-zip (x ∷ xs) [] e = absurd (omega arith)
  seconds-zip (x ∷ xs) (y ∷ ys) e = ap (λ l. y ∷ l) (seconds-zip xs ys (omega arith))

  pub zip-firsts-seconds : (ps : List (A × B)) → zip (firsts ps) (seconds ps) ≡ ps
  zip-firsts-seconds [] = refl
  zip-firsts-seconds ((x, y) ∷ ps) = ap (λ l. (x, y) ∷ l) (zip-firsts-seconds ps)

  pub length-firsts-seconds : (ps : List (A × B)) → length (firsts ps) ≡ length (seconds ps)
  length-firsts-seconds [] = refl
  length-firsts-seconds ((x, y) ∷ ps) = ap suc (length-firsts-seconds ps)

  pub get_elem?-pair :
      (ps : List (A × B)) (i : ℕ) (x : A) (y : B)
      → (get_elem? ps i ≡ some (x, y))
        ↔ ((get_elem? (firsts ps) i ≡ some x) × (get_elem? (seconds ps) i ≡ some y))
  get_elem?-pair [] i x y = (λ h. cc, λ h. cc)
  get_elem?-pair ((a, b) ∷ ps) zero x y = (λ h. (cc, cc), λ h. cc)
  get_elem?-pair (p ∷ ps) (suc i) x y = get_elem?-pair ps i x y
