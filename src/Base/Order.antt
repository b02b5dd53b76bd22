-- ===== src/Base/Order.antt =====
-- Strict total orders, and sorted lists without repetition: how the program keeps its small sets.
use Prim.Native.Nat.{ℕ}
use mathlib.Core.Path.{◌≡◌}
use mathlib.Core.Logic.{◌↔◌, ◌⊎◌}
use mathlib.Core.Bool.{Bool, true, false}
use mathlib.Core.List.{List, [], ◌∷◌, Memᴰ}
use native.Mathlib.Omega.{arith}
use rusty_alto.Base.Tests.{ltb, if◌then◌else◌}
use rusty_alto.Base.Lists.{All}
use rusty_alto.Base.Members.{not-mem-nil, mem-cons, all-mem}

pub record Ord {ℓ} (A : Type ℓ) : Type ℓ where
  pub below : A → A → Bool
  pub below_irrefl : (a : A) → below a a ≡ false
  pub below_trans : (a b c : A) → below a b ≡ true → below b c ≡ true → below a c ≡ true
  pub below_total : (a b : A) → below a b ≡ false → below b a ≡ false → a ≡ b

pub ltb_irrefl : (a : ℕ) → ltb a a ≡ false
ltb_irrefl a = ground arith

pub ltb_trans : (a b c : ℕ) → ltb a b ≡ true → ltb b c ≡ true → ltb a c ≡ true
ltb_trans a b c h k = ground arith

pub ltb_total : (a b : ℕ) → ltb a b ≡ false → ltb b a ≡ false → a ≡ b
ltb_total a b h k = ground arith

instance abbrev pub nat_ord : Ord ℕ
nat_ord = record {
  below = ltb;
  below_irrefl = ltb_irrefl;
  below_trans = ltb_trans;
  below_total = ltb_total;
}

module _ {ℓ} {A : Type ℓ} ⦃o : Ord A⦄ where
  -- `match v.binary_search(&s) { Ok(_) => {} Err(idx) => v.insert(idx, s) }` on a sorted vector
  unfoldable pub set_insert : A → List A → List A
  set_insert a [] = a ∷ []
  set_insert a (x ∷ xs) =
      if o.below a x then a ∷ x ∷ xs else if o.below x a then x ∷ set_insert a xs else x ∷ xs

  -- `v.binary_search(&s).is_ok()` on a sorted vector
  unfoldable pub set_contains : A → List A → Bool
  set_contains a [] = false
  set_contains a (x ∷ xs) =
      if o.below a x then false else if o.below x a then set_contains a xs else true

  abbrev pub IsSorted : List A → Type 0
  IsSorted [] = Unit
  IsSorted (x ∷ xs) = All (λ y. o.below x y ≡ true) xs × IsSorted xs

  -- A set holds after an insertion the new element and the old ones.
  pub mem-set_insert : (b a : A) (xs : List A) → Memᴰ b (set_insert a xs) ↔ ((b ≡ a) ⊎ Memᴰ b xs)
  unfolding set_insert
  mem-set_insert b a [] = mem-cons b a []
  mem-set_insert b a (x ∷ xs) = ground (
    arith,
    mem-cons b a (x ∷ xs),
    mem-cons b x xs,
    mem-cons b x (set_insert a xs),
    mem-set_insert b a xs,
    o.below_total a x,
  )

  All-below :
      (a x : A) (xs : List A)
      → o.below a x ≡ true
      → All (λ y. o.below x y ≡ true) xs
      → All (λ y. o.below a y ≡ true) xs
  All-below a x [] h k = tt
  All-below a x (y ∷ ys) h k = (o.below_trans a x y h k.0, All-below a x ys h k.1)

  All-set_insert {κ} :
      (P : A → Type κ) (a : A) (xs : List A) → P a → All P xs → All P (set_insert a xs)
  unfolding set_insert
  All-set_insert P a [] p h = (p, tt)
  All-set_insert P a (x ∷ xs) p h = ground (arith, All-set_insert P a xs p)

  -- An insertion keeps a set sorted and without repetition.
  pub set_insert-IsSorted : (a : A) (xs : List A) → IsSorted xs → IsSorted (set_insert a xs)
  unfolding set_insert
  set_insert-IsSorted a [] h = (tt, tt)
  set_insert-IsSorted a (x ∷ xs) h = ground (
    arith,
    All-set_insert (λ y. o.below x y ≡ true) a xs,
    set_insert-IsSorted a xs,
    All-below a x xs,
  )

  pub set_contains_iff :
      (a : A) (xs : List A) → IsSorted xs → (set_contains a xs ≡ true) ↔ Memᴰ a xs
  unfolding set_contains
  set_contains_iff a [] h = (λ e. cc, λ m. absurd (not-mem-nil a m))
  set_contains_iff a (x ∷ xs) h = ground (
    arith,
    mem-cons a x xs,
    set_contains_iff a xs h.1,
    λ (m : Memᴰ a xs). all-mem (λ y. o.below x y ≡ true) xs h.0 m,
    o.below_irrefl a,
    o.below_trans a x a,
    o.below_total a x,
  )
