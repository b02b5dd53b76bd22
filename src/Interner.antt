-- ===== src/Interner.antt =====
-- src/interner.rs: the bidirectional map between values and dense state identifiers. A call that
-- panics returns `none`.
pub mod Laws
use rusty_alto.Base.{
  ℕ, Bool, List, [], ◌∷◌, ◌++◌, Option, none, some, Eq, ◌==◌, nat_eq, leb, length, get_elem?,
  if◌then◌else◌,
}
use rusty_alto.Base.Assoc.{Assoc, lookup, insert}
use rusty_alto.Ids.{StateId, stuck, u32_max, is_stuck}

pub record Interner {ℓ} (T : Type ℓ) : Type ℓ where
  pub forward : Assoc T StateId
  pub backward : List T

module _ {ℓ} {T : Type ℓ} where
  -- `Interner::new`
  abbrev pub new : Interner T
  new = record { forward = []; backward = [] }

  -- `Interner::len`
  unfoldable pub len : Interner T → ℕ
  len i = length i.backward

  -- `Interner::is_empty`
  unfoldable pub is_empty : Interner T → Bool
  unfolding len
  is_empty i = len i == 0

  -- `Interner::resolve`: panics at `STUCK` and out of range
  unfoldable pub resolve : Interner T → StateId → Option T
  resolve i id = if is_stuck id then none else get_elem? i.backward id

module _ {ℓ} {T : Type ℓ} ⦃e : Eq T⦄ where
  -- `Interner::get`
  unfoldable pub get : Interner T → T → Option StateId
  get i t = lookup t i.forward

  -- a value that has no identifier yet: `u32::try_from`, then `assert_ne!`
  unfoldable pub intern_fresh : Interner T → T → Option (Interner T × StateId)
  intern_fresh i t =
      let raw = length i.backward in
      if leb raw u32_max
      then (if raw == stuck
          then none
          else some
              (record { forward = insert t raw i.forward; backward = i.backward ++ t ∷ [] }, raw))
      else none

  -- `Interner::intern`
  unfoldable pub intern : Interner T → T → Option (Interner T × StateId)
  unfolding intern_fresh
  intern i t = elim (lookup t i.forward) [ some id ↦ some (i, id) | none ↦ intern_fresh i t ]
