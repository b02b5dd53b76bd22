-- ===== src/Explicit/Types.antt =====
-- src/explicit.rs: the automaton and its rules. A weight is an `f64` in the program: here it is of
-- any type `W`, with the literal `1.0` and the test for a finite value in `[0, 1]`. The `OnceLock`
-- caches hold what a function of the other fields returns, so the model calls the function.
use rusty_alto.Base.{ℕ, Bool, List}
use rusty_alto.Ids.{StateId, Symbol}

pub record Weight {ℓ} (W : Type ℓ) : Type ℓ where
  pub one : W
  -- `w.is_finite() && (0.0..=1.0).contains(&w)`
  pub is_probability : W → Bool

-- `StoredRule`, and `Rule`, the borrowed view of one
pub record StoredRule {ℓ} (W : Type ℓ) : Type ℓ where
  pub symbol : Symbol
  pub children : List StateId
  pub result : StateId
  pub weight : W

-- `RuleKey`: a rule without its weight
abbrev pub RuleKey : Type 0
RuleKey = Symbol × (List StateId × StateId)

abbrev pub rule_key {ℓ} : {W : Type ℓ} → StoredRule W → RuleKey
rule_key r = (r.symbol, (r.children, r.result))

-- `Explicit`: `accepting` has one bit for each state
pub record Explicit {ℓ} (W : Type ℓ) : Type ℓ where
  pub num_states : ℕ
  pub accepting : List Bool
  pub rules : List (StoredRule W)
  pub probability_weights : Bool

-- `ExplicitBuilder`
pub record ExplicitBuilder {ℓ} (W : Type ℓ) : Type ℓ where
  pub next_state : ℕ
  pub accepting : List StateId
  pub rules : List (StoredRule W)

-- `ExplicitBuildError`
pub data ExplicitBuildError : Type 0 where
  duplicate_transition : Symbol → List StateId → StateId → ExplicitBuildError
