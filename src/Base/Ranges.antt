-- ===== src/Base/Ranges.antt =====
-- Half-open ranges of numbers: what a counting loop runs over.
use Prim.Native.Nat.{ℕ, zero, suc, ◌+◌, ◌-◌, ◌<◌, ◌≤◌}
use mathlib.Core.Path.{◌≡◌, refl, ap}
use mathlib.Core.Logic.{◌↔◌}
use mathlib.Core.List.{List, [], ◌∷◌, Memᴰ}
use native.Mathlib.Omega.{arith}
use rusty_alto.Base.Lists.{length}
use rusty_alto.Base.Members.{not-mem-nil, mem-cons}

-- `count` numbers from `start` on
abbrev pub counting : ℕ → ℕ → List ℕ
counting start zero = []
counting start (suc count) = start ∷ counting (suc start) count

-- `start..end`
unfoldable pub range : ℕ → ℕ → List ℕ
range start end = counting start (end - start)

pub mem-counting :
    (i start count : ℕ) → Memᴰ i (counting start count) ↔ ((start ≤ i) × (i < start + count))
mem-counting i start zero = (λ m. absurd (not-mem-nil i m), λ h. absurd (omega (arith, h.0, h.1)))
mem-counting i start (suc count) =
    ground (arith, mem-cons i start (counting (suc start) count), mem-counting i (suc start) count)

pub mem-range : (i start end : ℕ) → Memᴰ i (range start end) ↔ ((start ≤ i) × (i < end))
unfolding range
mem-range i start end = ground (arith, mem-counting i start (end - start))

pub length-counting : (start count : ℕ) → length (counting start count) ≡ count
length-counting start zero = refl
length-counting start (suc count) = ap suc (length-counting (suc start) count)
