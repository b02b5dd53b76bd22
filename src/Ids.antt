-- ===== src/Ids.antt =====
-- src/ids.rs: state and symbol identifiers. A `StateId` and a `Symbol` are the `u32` that they
-- wrap, as a number.
use rusty_alto.Base.{ℕ, ◌-◌, ◌^◌, ◌<◌, ◌≡◌, ◌↔◌, Bool, true, false, ◌==◌, nat_eq, arith}

abbrev pub StateId : Type 0
StateId = ℕ

abbrev pub Symbol : Type 0
Symbol = ℕ

-- `u32::MAX`
unfoldable pub u32_max : ℕ
u32_max = 2 ^ 32 - 1

-- `StateId::STUCK`
unfoldable pub stuck : StateId
unfolding u32_max
stuck = u32_max

unfoldable pub is_stuck : StateId → Bool
is_stuck q = q == stuck

pub is_stuck_iff : (q : StateId) → (is_stuck q ≡ true) ↔ (q ≡ stuck)
unfolding is_stuck
is_stuck_iff q = nat_eq.same_iff q stuck

pub is_stuck_of_lt : (q : StateId) → q < stuck → is_stuck q ≡ false
unfolding is_stuck
is_stuck_of_lt q h = ground arith
