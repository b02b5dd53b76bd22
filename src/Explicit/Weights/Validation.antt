-- ===== src/Explicit/Weights/Validation.antt =====
-- The validation names the first weight that is no probability.
use rusty_alto.Base.{
  ℕ, suc, ◌+◌, ◌≡◌, refl, sym, ◌⊎◌, inl, inr, ⊎_elim, Bool, true, false, List, [], ◌∷◌, some, arith,
  all, All, get_elem?, take, Bool-cases, leb, length,
}
use rusty_alto.Base.Result.{ok, err}
use rusty_alto.Ids.{u32_max}
use rusty_alto.Explicit.Types.{Weight, StoredRule, Explicit}
use rusty_alto.Explicit.Builder.{from_parts}
use rusty_alto.Explicit.Weights.{ProbabilityWeightError, find_invalid, validate_probability_weights}

module _ {ℓ} {W : Type ℓ} ⦃w : Weight W⦄ where
  abbrev pub AllProbabilities : List (StoredRule W) → Type 0
  AllProbabilities rules = All (λ r. w.is_probability r.weight ≡ true) rules

  -- The first rule whose weight is no probability.
  pub record FirstInvalid (rules : List (StoredRule W)) (e : ProbabilityWeightError W)
      : Type ℓ where
    pub offender : StoredRule W
    pub there : get_elem? rules e.rule_index ≡ some offender
    pub weighs : offender.weight ≡ e.weight
    pub invalid : w.is_probability offender.weight ≡ false
    pub earlier : AllProbabilities (take e.rule_index rules)

  -- `find` on the rules from number `i` on
  find-cases :
      (i : ℕ) (rules : List (StoredRule W))
      → ((all (λ r. w.is_probability r.weight) rules ≡ true) × AllProbabilities rules)
        ⊎ ((k : ℕ) × (v : W) × (all (λ r. w.is_probability r.weight) rules ≡ false)
            × (find_invalid i rules ≡ some (record { rule_index = i + k; weight = v }))
            × FirstInvalid rules (record { rule_index = k; weight = v }))
  unfolding find_invalid
  find-cases i [] = inl (refl, tt)
  find-cases i (r ∷ rs) = elim (Bool-cases (w.is_probability r.weight)) [
    | inl valid ↦
        ⊎_elim (λ (yes_all, each). inl (rw (valid, yes_all), (valid, each)))
          (λ (k, v, some_not, found, first).
            let at : suc i + k ≡ i + suc k = omega arith in
            inr (
              suc k,
              v,
              rw (valid, some_not),
              rw (valid, ← at) found,
              record {
                offender = first.offender;
                there = first.there;
                weighs = first.weighs;
                invalid = first.invalid;
                earlier = (valid, first.earlier);
              },
            ))
          (find-cases (suc i) rs)
    | inr wrong ↦
        let at : i + 0 ≡ i = omega arith in
        inr (
          0,
          r.weight,
          rw wrong,
          rw (wrong, at),
          record { offender = r; there = refl; weighs = refl; invalid = wrong; earlier = tt },
        )
  ]

  -- An automaton made by `from_parts` passes the validation exactly if all its weights are
  -- probabilities, and otherwise the error names the first rule whose weight is none. The `expect`
  -- does not fail.
  pub validate_lem :
      (num_states : ℕ) (accepting : List Bool) (rules : List (StoredRule W)) (a : Explicit W)
      → from_parts num_states accepting rules ≡ some a
      → ((validate_probability_weights a ≡ ok tt) × AllProbabilities rules)
        ⊎ ((e : ProbabilityWeightError W) × (validate_probability_weights a ≡ err e)
            × FirstInvalid rules e)
  unfolding from_parts validate_probability_weights
  validate_lem num_states accepting rules a h = elim (Bool-cases (leb (length rules) u32_max)) [
    | inr full ↦ absurd (let panics = rw full at h in cc)
    | inl room ↦
        let made = rw room at h in
        let flag : a.probability_weights ≡ all (λ r. w.is_probability r.weight) rules =
          sym (ground arith) in
        let kept : a.rules ≡ rules = ground arith in
        ⊎_elim (λ (yes_all, each). inl (rw (flag, yes_all), each))
          (λ (k, v, some_not, found, first).
            let at : 0 + k ≡ k = omega arith in
            inr
              (record { rule_index = k; weight = v }, rw (flag, some_not, kept, found, at), first))
          (find-cases 0 rules)
  ]
