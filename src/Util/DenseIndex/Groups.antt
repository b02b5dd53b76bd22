-- ===== src/Util/DenseIndex/Groups.antt =====
-- The specification of the index: the values of a key, in order, and how many stand before a key.
use rusty_alto.Base.{
  ℕ, zero, suc, ◌+◌, ◌-◌, ◌≤◌, ◌<◌, ◌≡◌, ◌≢◌, refl, List, [], ◌∷◌, arith, ◌==◌, nat_eq, length,
  if◌then◌else◌, All, ◌++◌, Bool-cases, inl, inr,
}

module _ {ℓ} {V : Type ℓ} where
  -- The values that the pairs give to a key, in their order.
  unfoldable pub group : ℕ → List (ℕ × V) → List V
  group k [] = []
  group k ((j, v) ∷ pairs) = if j == k then v ∷ group k pairs else group k pairs

  abbrev pub count : ℕ → List (ℕ × V) → ℕ
  count k pairs = length (group k pairs)

  pub group-cons :
      (k j : ℕ) (v : V) (pairs : List (ℕ × V))
      → group k ((j, v) ∷ pairs) ≡ (if j == k then v ∷ group k pairs else group k pairs)
  unfolding group
  group-cons k j v pairs = refl

  pub group-nil : (k : ℕ) → group k [] ≡ []
  unfolding group
  group-nil k = refl

  pub group-append : (k : ℕ) (ps qs : List (ℕ × V)) → group k (ps ++ qs) ≡ group k ps ++ group k qs
  unfolding group
  group-append k [] qs = refl
  group-append k ((j, v) ∷ ps) qs =
      let rest = group-append k ps qs in
      elim (Bool-cases (j == k)) [ inl here ↦ rw (here, rest) | inr other ↦ rw (other, rest) ]

  pub count-cons :
      (k j : ℕ) (v : V) (pairs : List (ℕ × V))
      → count k ((j, v) ∷ pairs) ≡ (if j == k then suc (count k pairs) else count k pairs)
  unfolding group
  count-cons k j v pairs = ground arith

  -- A key with a value is one of the keys.
  pub lt_of_count :
      (n k i : ℕ) (pairs : List (ℕ × V)) → All (λ p. p.0 < n) pairs → i < count k pairs → k < n
  unfolding group
  lt_of_count n k i [] a h = absurd (omega arith)
  lt_of_count n k i ((j, v) ∷ pairs) a h =
      ground (arith, λ (m : i < count k pairs). lt_of_count n k i pairs a.1 m)

  -- The number of pairs with a key below `k`.
  pub before : ℕ → List (ℕ × V) → ℕ
  before zero pairs = 0
  before (suc k) pairs = before k pairs + count k pairs

  pub before-suc :
      (k : ℕ) (pairs : List (ℕ × V)) → before (suc k) pairs ≡ before k pairs + count k pairs
  unfolding before
  before-suc k pairs = refl

  pub before_zero : (pairs : List (ℕ × V)) → before 0 pairs ≡ 0
  unfolding before
  before_zero pairs = refl

  -- The groups stand one after another.
  pub before_mono :
      (d k l : ℕ) (pairs : List (ℕ × V))
      → suc k + d ≡ l
      → before k pairs + count k pairs ≤ before l pairs
  unfolding before
  before_mono zero k (suc l) pairs e = let same : k ≡ l = omega arith in rw same (omega arith)
  before_mono (suc d) k (suc l) pairs e = omega (arith, before_mono d k l pairs)
  before_mono d k zero pairs e = absurd (omega arith)

  pub group_apart :
      (k l i j : ℕ) (pairs : List (ℕ × V))
      → k < l
      → i < count k pairs
      → before k pairs + i ≢ before l pairs + j
  group_apart k l i j pairs lt hi e = omega (arith, before_mono (l - suc k) k l pairs (omega arith))

pub count-nil {ℓ} : (V : Type ℓ) (k : ℕ) → count {V = V} k [] ≡ 0
unfolding group
count-nil V k = refl
