-- ===== src/Base/Assoc.antt =====
-- A map as an association list, with at most one entry for a key: what the program uses of its
-- hash maps. `entry` is `*map.entry(k).or_default()` changed by a function.
use mathlib.Core.Path.{◌≡◌, refl}
use mathlib.Core.List.{List, [], ◌∷◌, ◌++◌}
use mathlib.Core.Option.{Option, none, some, get_or as option_or}
use native.Mathlib.Omega.{arith}
use mathlib.Core.Logic.{inl, inr}
use rusty_alto.Base.Tests.{if◌then◌else◌, Bool-cases}
use rusty_alto.Base.Equality.{Eq, ◌==◌}

abbrev pub Assoc {ℓ κ} : Type ℓ → Type κ → Type (ℓ ⊔ κ)
Assoc K V = List (K × V)

module _ {ℓ κ} {K : Type ℓ} {V : Type κ} ⦃e : Eq K⦄ where
  unfoldable pub lookup : K → Assoc K V → Option V
  lookup k [] = none
  lookup k ((j, v) ∷ m) = if j == k then some v else lookup k m

  unfoldable pub insert : K → V → Assoc K V → Assoc K V
  insert key new [] = (key, new) ∷ []
  insert key new ((k, v) ∷ rest) =
      if k == key then (key, new) ∷ rest else (k, v) ∷ insert key new rest

  -- A lookup after an insertion.
  pub lookup-insert :
      (key asked : K) (new : V) (rest : Assoc K V)
      → lookup asked (insert key new rest) ≡ (if key == asked then some new else lookup asked rest)
  unfolding insert lookup
  lookup-insert key asked new ((k, v) ∷ rest) = ground (
    arith,
    lookup-insert key asked new rest,
    e.same_iff key asked,
    e.same_iff k key,
    e.same_iff k asked,
  )
  lookup-insert key asked new [] = refl

  -- The entry of `k`, the default if there is none, is replaced by its image.
  unfoldable pub entry : K → V → (V → V) → Assoc K V → Assoc K V
  entry k d f m = insert k (f (option_or (lookup k m) d)) m

  pub lookup-entry :
      (k j : K) (d : V) (f : V → V) (m : Assoc K V)
      → lookup j (entry k d f m)
        ≡ (if k == j then some (f (option_or (lookup k m) d)) else lookup j m)
  unfolding entry
  lookup-entry k j d f m = lookup-insert k j (f (option_or (lookup k m) d)) m

-- The list that a map holds for a key, empty if there is none.
abbrev pub listed {ℓ} : {A : Type ℓ} → Option (List A) → List A
listed none = []
listed (some items) = items

-- The lists after `map.entry(key).or_default().push(n)`.
pub listed-entry_at {ℓ κ} :
    {K : Type ℓ} {A : Type κ} ⦃e : Eq K⦄ (key asked : K) (n : A) (ix : Assoc K (List A))
    → listed (lookup asked (entry key [] (λ items. items ++ n ∷ []) ix))
      ≡ (if key == asked then listed (lookup asked ix) ++ n ∷ [] else listed (lookup asked ix))
listed-entry_at {A = A} ⦃e⦄ key asked n ix = rw lookup-entry (elim (Bool-cases (key == asked)) [
  | inr other ↦ rw other
  | inl hit ↦
      let equal : key ≡ asked = (e.same_iff key asked).0 hit in
      rw (hit, ← equal) (or_nothing (lookup key ix))
])
  where
    or_nothing :
        (o : Option (List A)) → listed (some (option_or o [] ++ n ∷ [])) ≡ listed o ++ n ∷ []
    or_nothing none = refl
    or_nothing (some items) = refl
