-- ===== src/Base/Members.antt =====
-- Membership: the library's `Memᴰ`, its laws as equivalences that the tactics read, and the
-- Boolean test `contains`.
use Prim.Native.Nat.{ℕ, zero, suc}
use mathlib.Core.Option.{some}
use mathlib.Core.Path.{◌≡◌, refl}
use mathlib.Core.Logic.{◌↔◌, ◌⊎◌, inl, inr, ⊎_elim}
use mathlib.Core.Bool.{Bool, true, false, ◌||◌}
use mathlib.Core.List.{List, [], ◌∷◌, ◌++◌, Memᴰ}
use mathlib.Core.List.Memᴰ
use native.Mathlib.Omega.{arith}
use rusty_alto.Base.Tests.{Bool-cases}
use rusty_alto.Base.Lists.{select, any, All, get_elem?}
use rusty_alto.Base.Equality.{Eq, ◌==◌}

module _ {ℓ} {A : Type ℓ} where
  pub not-mem-nil : (a : A) → ¬ Memᴰ a []
  not-mem-nil a m = Memᴰ.not-nil m

  pub mem-cons : (a x : A) (xs : List A) → Memᴰ a (x ∷ xs) ↔ ((a ≡ x) ⊎ Memᴰ a xs)
  mem-cons a x xs = (Memᴰ.cases_cons, ⊎_elim Memᴰ.head Memᴰ.tail)

  pub mem-append : (a : A) (xs ys : List A) → Memᴰ a (xs ++ ys) ↔ (Memᴰ a xs ⊎ Memᴰ a ys)
  mem-append a xs ys = (Memᴰ.append_cases xs, ⊎_elim (Memᴰ.append_left ys) (Memᴰ.append_right xs))

  pub mem-select :
      (p : A → Bool) (a : A) (xs : List A) → Memᴰ a (select p xs) ↔ (Memᴰ a xs × (p a ≡ true))
  mem-select p a [] = (λ m. absurd (not-mem-nil a m), λ m. absurd (not-mem-nil a m.0))
  mem-select p a (x ∷ xs) = elim (Bool-cases (p x)) [
    | inl passes ↦
        rw passes ground (arith, mem-cons a x xs, mem-cons a x (select p xs), mem-select p a xs)
    | inr fails ↦ rw fails (ground (arith, mem-cons a x xs, mem-select p a xs))
  ]

  pub all-mem {κ} : (P : A → Type κ) {a : A} (xs : List A) → All P xs → Memᴰ a xs → P a
  all-mem P [] h m = absurd (not-mem-nil _ m)
  all-mem P (x ∷ xs) h (Memᴰ.head e) = rw e h.0
  all-mem P (x ∷ xs) h (Memᴰ.tail m) = all-mem P xs h.1 m

  pub All-of_mem {κ} : (P : A → Type κ) (xs : List A) → ((a : A) → Memᴰ a xs → P a) → All P xs
  All-of_mem P [] h = tt
  All-of_mem P (x ∷ xs) h = (h x (Memᴰ.head refl), All-of_mem P xs (λ a m. h a (Memᴰ.tail m)))

  -- A list without repetition.
  abbrev pub Distinct : List A → Type ℓ
  Distinct [] = Unit
  Distinct (q ∷ qs) = (¬ Memᴰ q qs) × Distinct qs

  pub Distinct-concat : (q : A) (qs : List A) → Distinct qs → ¬ Memᴰ q qs → Distinct (qs ++ q ∷ [])
  Distinct-concat q [] d h = (not-mem-nil q, tt)
  Distinct-concat q (p ∷ qs) d h = (
    λ m. ground (arith, mem-append p qs (q ∷ []), mem-cons p q [], not-mem-nil p, mem-cons q p qs),
    Distinct-concat q qs d.1 (λ m. ground (arith, mem-cons q p qs)),
  )

  pub mem_of_get_elem? : (xs : List A) (i : ℕ) (x : A) → get_elem? xs i ≡ some x → Memᴰ x xs
  mem_of_get_elem? [] i x h = cc
  mem_of_get_elem? (y ∷ xs) zero x h = Memᴰ.head (ground arith)
  mem_of_get_elem? (y ∷ xs) (suc i) x h = Memᴰ.tail (mem_of_get_elem? xs i x h)

  pub get_elem?_of_mem : (x : A) (xs : List A) → Memᴰ x xs → (i : ℕ) × (get_elem? xs i ≡ some x)
  get_elem?_of_mem x [] m = absurd (not-mem-nil x m)
  get_elem?_of_mem x (y ∷ xs) (Memᴰ.head e) = (0, rw e)
  get_elem?_of_mem x (y ∷ xs) (Memᴰ.tail m) = let (i, h) = get_elem?_of_mem x xs m in (suc i, h)

module _ {ℓ} {A : Type ℓ} ⦃e : Eq A⦄ where
  abbrev pub contains : List A → A → Bool
  contains [] a = false
  contains (x ∷ xs) a = (x == a) || contains xs a

  pub contains_iff : (xs : List A) (a : A) → (contains xs a ≡ true) ↔ Memᴰ a xs
  contains_iff [] a = (λ h. cc, λ m. absurd (not-mem-nil a m))
  contains_iff (x ∷ xs) a = ground (arith, mem-cons a x xs, e.same_iff x a, contains_iff xs a)

-- Some element passes the test.
pub any_iff {ℓ} :
    {A : Type ℓ} (p : A → Bool) (xs : List A)
    → (any p xs ≡ true) ↔ ((x : A) × Memᴰ x xs × (p x ≡ true))
any_iff p [] = (λ h. cc, λ (x, m, e). absurd (not-mem-nil x m))
any_iff p (x ∷ xs) = elim (Bool-cases (p x)) [
  | inl here ↦ rw here (λ h. (x, Memᴰ.head refl, here), λ h. refl)
  | inr skip ↦ rw skip (
    λ h. let (y, m, e) = (any_iff p xs).0 h in (y, Memᴰ.tail m, e),
    λ (y, m, e).
        ⊎_elim (λ (at : y ≡ x). absurd (let both : p x ≡ true = rw (← at) e in cc))
          (λ later. (any_iff p xs).1 (y, later, e)) ((mem-cons y x xs).0 m),
  )
]
