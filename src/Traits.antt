-- ===== src/Traits.antt =====
-- src/traits.rs: automata as oracles. A callback's calls are the list of the values it is called
-- with, in order.
pub mod Runs
pub mod Views
use rusty_alto.Base.{ℕ, Bool, List, Option}
use rusty_alto.Ids.{Symbol}

-- `BottomUpTa`
pub record BottomUpTa {ℓ} (S : Type ℓ) : Type ℓ where
  pub step : Symbol → List S → List S
  pub is_accepting : S → Bool

-- `DetBottomUpTa`
pub record DetBottomUpTa {ℓ} (S : Type ℓ) : Type ℓ where
  pub oracle : BottomUpTa S
  pub open oracle use *
  pub step_det : Symbol → List S → Option S

-- `IndexedBottomUpTa`: full rules for a symbol, a child position and the state there
pub record IndexedBottomUpTa {ℓ} (S : Type ℓ) : Type ℓ where
  pub oracle : BottomUpTa S
  pub open oracle use *
  pub step_partial : Symbol → ℕ → S → List (List S × S)

-- `TopDownTa`
pub record TopDownTa {ℓ} (S : Type ℓ) : Type ℓ where
  pub oracle : BottomUpTa S
  pub open oracle use *
  pub step_topdown : S → List (Symbol × List S)
  pub initial_states : List S
