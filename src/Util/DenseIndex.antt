-- ===== src/Util/DenseIndex.antt =====
-- src/util/dense_index.rs: a compressed-sparse-row index, built by counting, prefix sums and a
-- second pass that writes each value to its slot. `none` is a panic. No write is out of range
-- once the assertion holds for every key (see `Counts` and `Scatter`).
pub mod Groups
mod Counts
mod Scatter
pub mod Grouping
use rusty_alto.Base.{
  ℕ, zero, suc, ◌+◌, ◌-◌, List, [], ◌∷◌, Option, none, some, ◌>>=◌, ◌>>◌, guard, ltb, length,
  get_or, set, take, drop, replicate, if◌then◌else◌,
}

pub record DenseIndex {ℓ} (V : Type ℓ) : Type ℓ where
  pub offsets : List ℕ
  pub values : List V

-- `offsets[i] += by`
abbrev pub increase : List ℕ → ℕ → ℕ → List ℕ
increase offsets i by = set offsets i (get_or offsets i 0 + by)

-- the second loop of `from_pairs`, over the keys still to come
unfoldable pub prefix_sums : ℕ → ℕ → List ℕ → List ℕ
prefix_sums zero key offsets = offsets
prefix_sums (suc rounds) key offsets =
    prefix_sums rounds (suc key) (increase offsets (suc key) (get_or offsets key 0))

module _ {ℓ} {V : Type ℓ} where
  -- the first loop of `from_pairs`, with its assertion
  unfoldable pub count_keys : ℕ → List ℕ → List (ℕ × V) → Option (List ℕ)
  count_keys key_count offsets [] = some offsets
  count_keys key_count offsets ((key, _) ∷ pairs) = do
    guard (ltb key key_count)
    count_keys key_count (increase offsets (suc key) 1) pairs

  -- the third loop of `from_pairs`
  unfoldable pub scatter : List ℕ → List V → List (ℕ × V) → List V
  scatter write_offsets values [] = values
  scatter write_offsets values ((key, value) ∷ pairs) =
      let slot = get_or write_offsets key 0 in
      scatter (set write_offsets key (slot + 1)) (set values slot value) pairs

  -- `DenseIndex::from_pairs`; `default` is `V::default()`
  unfoldable pub from_pairs : V → ℕ → List (ℕ × V) → Option (DenseIndex V)
  from_pairs default key_count pairs = do
    counts ← count_keys key_count (replicate (key_count + 1) 0) pairs
    let offsets = prefix_sums key_count 0 counts
    some (record {
      offsets = offsets;
      values =
          scatter (take key_count offsets) (replicate (get_or offsets key_count 0) default) pairs;
    })

  -- `self.values[self.offsets[key]..self.offsets[key + 1]]`
  abbrev pub slice : DenseIndex V → ℕ → List V
  slice ix key =
      let start = get_or ix.offsets key 0 in
      take (get_or ix.offsets (key + 1) 0 - start) (drop start ix.values)

  -- `DenseIndex::values`
  unfoldable pub values : DenseIndex V → ℕ → Option (List V)
  values ix key = do guard (ltb (key + 1) (length ix.offsets)); some (slice ix key)

  -- `DenseIndex::get`; here `none` is the code's own `None`
  unfoldable pub get : DenseIndex V → ℕ → Option (List V)
  get ix key = if ltb (key + 1) (length ix.offsets) then some (slice ix key) else none
