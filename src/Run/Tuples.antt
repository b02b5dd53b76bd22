-- ===== src/Run/Tuples.antt =====
-- src/run.rs: `cartesian_product`, an odometer over the pools that calls its callback with each
-- tuple. The calls are returned as a list; `none` is a panic or the end of the fuel. `copy_into`
-- leaves the tuple as it is where the program would panic: `Odometer` shows that each index it reads
-- is in range.
pub mod Odometer
pub mod Enumeration
use rusty_alto.Base.{
  ℕ, zero, suc, ◌+◌, ◌-◌, ◌*◌, Bool, true, false, List, [], ◌∷◌, map, Option, none, some, ◌>>=◌,
  ◌==◌, nat_eq, ltb, length, get_elem?, get_or, set, replicate, any, if◌then◌else◌,
}

module _ {ℓ} {A : Type ℓ} where
  -- `tuple[at] = pools[at][index].clone()`
  unfoldable pub copy_into : List (List A) → ℕ → ℕ → List A → List A
  copy_into pools at index tuple = elim (get_elem? (get_or pools at []) index) [
    | none ↦ tuple
    | some x ↦ set tuple at x
  ]

  -- `for reset in at..pools.len()`, with the number of rounds
  unfoldable pub reset_from : ℕ → ℕ → List (List A) → List ℕ × List A → List ℕ × List A
  reset_from zero at pools state = state
  reset_from (suc rounds) at pools (indices, tuple) =
      reset_from rounds (suc at) pools (set indices at 0, copy_into pools at 0 tuple)

  -- the inner loop with `pos`: `none` is its `return`
  unfoldable pub advance : ℕ → List (List A) → List ℕ → List A → Option (List ℕ × List A)
  advance zero pools indices tuple = none
  advance (suc pos) pools indices tuple =
      let next = get_or indices pos 0 + 1 in
      let bumped = set indices pos next in
      let earlier = advance pos pools bumped tuple in
      if ltb next (length (get_or pools pos []))
      then some (
          reset_from (length pools - suc pos) (suc pos) pools
            (bumped, copy_into pools pos next tuple))
      else earlier

  -- the outer loop
  unfoldable pub odometer : ℕ → List (List A) → List ℕ → List A → Option (List (List A))
  odometer zero pools indices tuple = none
  odometer (suc fuel) pools indices tuple = do
    rest ← elim (advance (length pools) pools indices tuple) [
      | none ↦ some []
      | some (later, next) ↦ odometer fuel pools later next
    ]
    some (tuple ∷ rest)

  -- `pools.iter().map(|pool| pool[0].clone())`
  unfoldable pub first_tuple : List (List A) → Option (List A)
  first_tuple [] = some []
  first_tuple (pool ∷ pools) = do x ← get_elem? pool 0; xs ← first_tuple pools; some (x ∷ xs)

  -- the number of tuples, the fuel of the outer loop
  unfoldable pub combinations : List (List A) → ℕ
  combinations [] = 1
  combinations (pool ∷ pools) = length pool * combinations pools

  abbrev pub is_empty_pool : List A → Bool
  is_empty_pool pool = length pool == 0

  -- `cartesian_product`
  unfoldable pub cartesian_product : List (List A) → Option (List (List A))
  cartesian_product pools =
      if any is_empty_pool pools then some [] else if length pools == 0 then some ([] ∷ []) else do
        tuple ← first_tuple pools
        odometer (combinations pools) pools (replicate (length pools) 0) tuple
