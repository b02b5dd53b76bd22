-- ===== src/Base/Bits.antt =====
-- Bit sets of a fixed capacity, one Boolean for each index. Setting a bit beyond it panics.
use Prim.Native.Nat.{ℕ, zero, suc, ◌<◌, ◌≤◌, ◌-◌}
use mathlib.Core.Path.{◌≡◌, refl, ap}
use mathlib.Core.Logic.{◌↔◌, ◌⊎◌, inl, inr, ⊎_elim}
use mathlib.Core.Bool.{Bool, true, false}
use mathlib.Core.List.{List, [], ◌∷◌, Memᴰ}
use mathlib.Core.Option.{Option, some}
use native.Mathlib.Omega.{arith}
use rusty_alto.Base.Tests.{ltb}
use rusty_alto.Base.Lists.{length, get_or, set, length-set, All}
use rusty_alto.Base.Members.{not-mem-nil, mem-cons}
use rusty_alto.Base.Fallible.{◌>>=◌, ◌>>◌, guard}

-- `FixedBitSet::set(i, true)`
unfoldable pub set_bit : List Bool → ℕ → Option (List Bool)
set_bit bits i = do guard (ltb i (length bits)); some (set bits i true)

-- a loop that sets the bits of a list of indices
unfoldable pub set_bits : List Bool → List ℕ → Option (List Bool)
set_bits bits [] = some bits
set_bits bits (i ∷ is) = do more ← set_bit bits i; set_bits more is

-- `FixedBitSet::contains`
abbrev pub has_bit : List Bool → ℕ → Bool
has_bit bits i = get_or bits i false

pub has_bit-set :
    (bits : List Bool) (i j : ℕ)
    → i < length bits
    → (has_bit (set bits i true) j ≡ true) ↔ ((j ≡ i) ⊎ (has_bit bits j ≡ true))
has_bit-set [] i j h = absurd (omega arith)
has_bit-set (b ∷ bits) zero zero h = (λ e. inl refl, λ e. refl)
has_bit-set (b ∷ bits) zero (suc j) h = ground arith
has_bit-set (b ∷ bits) (suc i) zero h = ground arith
has_bit-set (b ∷ bits) (suc i) (suc j) h = ground (arith, has_bit-set bits i j)

pub lt-length_of_has_bit : (bits : List Bool) (i : ℕ) → has_bit bits i ≡ true → i < length bits
lt-length_of_has_bit [] i h = cc
lt-length_of_has_bit (b ∷ bits) zero h = omega arith
lt-length_of_has_bit (b ∷ bits) (suc i) h = omega (arith, lt-length_of_has_bit bits i h)

-- With all indices in range the loop does not panic, and sets exactly these bits.
pub set_bits_lem :
    (bits : List Bool) (is : List ℕ)
    → All (λ i. i < length bits) is
    → (r : List Bool) × (set_bits bits is ≡ some r)
      × (length r ≡ length bits)
      × ((j : ℕ) → (has_bit r j ≡ true) ↔ (Memᴰ j is ⊎ (has_bit bits j ≡ true)))
unfolding set_bits set_bit
set_bits_lem bits [] h =
    (bits, refl, refl, λ j. (λ e. inr e, ⊎_elim (λ m. absurd (not-mem-nil j m)) (λ e. e)))
set_bits_lem bits (i ∷ is) h =
    let size = length-set bits i true in
    let in_range : All (λ j. j < length (set bits i true)) is = rw size h.1 in
    let (r, runs, kept, bits_of) = set_bits_lem (set bits i true) is in_range in
    (
      r,
      ground arith,
      omega arith,
      λ j. ground (arith, bits_of j, mem-cons j i is, has_bit-set bits i j h.0),
    )

-- `FixedBitSet::ones`, with the index of the first bit
unfoldable pub ones : ℕ → List Bool → List ℕ
ones i [] = []
ones i (true ∷ bits) = i ∷ ones (suc i) bits
ones i (false ∷ bits) = ones (suc i) bits

-- The number of bits that are not set.
abbrev pub zeros : List Bool → ℕ
zeros [] = 0
zeros (true ∷ bits) = zeros bits
zeros (false ∷ bits) = suc (zeros bits)

pub zeros-set :
    (bits : List Bool) (i : ℕ)
    → i < length bits
    → has_bit bits i ≡ false
    → suc (zeros (set bits i true)) ≡ zeros bits
zeros-set [] i h e = absurd (omega arith)
zeros-set (b ∷ bits) zero h e = rw e
zeros-set (false ∷ bits) (suc i) h e = ap suc (zeros-set bits i (omega arith) e)
zeros-set (true ∷ bits) (suc i) h e = zeros-set bits i (omega arith) e

pub zeros-le-length : (bits : List Bool) → zeros bits ≤ length bits
zeros-le-length [] = omega arith
zeros-le-length (true ∷ bits) = omega (arith, zeros-le-length bits)
zeros-le-length (false ∷ bits) = omega (arith, zeros-le-length bits)

has_bit-cons :
    (b : Bool) (bits : List Bool) (s i : ℕ)
    → s < i
    → has_bit (b ∷ bits) (i - s) ≡ has_bit bits (i - suc s)
has_bit-cons b bits s i h = let next : i - s ≡ suc (i - suc s) = omega arith in rw next

-- The indices of the bits that are set.
pub mem-ones :
    (s i : ℕ) (bits : List Bool) → Memᴰ i (ones s bits) ↔ ((s ≤ i) × (has_bit bits (i - s) ≡ true))
unfolding ones
mem-ones s i [] = (λ m. absurd (not-mem-nil i m), λ h. cc)
mem-ones s i (false ∷ bits) =
    let here : i ≡ s → has_bit (false ∷ bits) (i - s) ≡ false =
      λ e. let at : i - s ≡ 0 = omega arith in rw at in
    ground (arith, mem-ones (suc s) i bits, has_bit-cons false bits s i, here)
mem-ones s i (true ∷ bits) =
    let here : i ≡ s → has_bit (true ∷ bits) (i - s) ≡ true =
      λ e. let at : i - s ≡ 0 = omega arith in rw at in
    ground (
      arith,
      mem-ones (suc s) i bits,
      mem-cons i s (ones (suc s) bits),
      has_bit-cons true bits s i,
      here,
    )

pub mem-ones_zero : (i : ℕ) (bits : List Bool) → Memᴰ i (ones 0 bits) ↔ (has_bit bits i ≡ true)
mem-ones_zero i bits =
    let whole : i - 0 ≡ i = omega arith in
    let listed = rw whole at (mem-ones 0 i bits) in
    (λ m. (listed.0 m).1, λ h. listed.1 (omega arith, h))
