-- ===== src/Explicit/Weights.antt =====
-- src/explicit.rs: `validate_probability_weights`. The failed `expect` is a panic.
pub mod Validation
use rusty_alto.Base.{ℕ, suc, Bool, List, [], ◌∷◌, Option, none, some, if◌then◌else◌}
use rusty_alto.Base.Result.{Result, ok, err, panic}
use rusty_alto.Explicit.Types.{Weight, StoredRule, Explicit}

-- `ProbabilityWeightError`
pub record ProbabilityWeightError {ℓ} (W : Type ℓ) : Type ℓ where
  pub rule_index : ℕ
  pub weight : W

module _ {ℓ} {W : Type ℓ} ⦃w : Weight W⦄ where
  -- `enumerate().find(...)`, with the index of the first rule
  unfoldable pub find_invalid : ℕ → List (StoredRule W) → Option (ProbabilityWeightError W)
  find_invalid i [] = none
  find_invalid i (r ∷ rs) =
      let rest = find_invalid (suc i) rs in
      if w.is_probability r.weight
      then rest
      else some (record { rule_index = i; weight = r.weight })

  -- `Explicit::validate_probability_weights`
  unfoldable pub validate_probability_weights :
      Explicit W → Result (ProbabilityWeightError W) (Unit {0})
  validate_probability_weights a =
      if a.probability_weights
      then ok tt
      else elim (find_invalid 0 a.rules) [ none ↦ panic | some e ↦ err e ]
