-- ===== src/Explicit/Builder.antt =====
-- src/explicit.rs: `ExplicitBuilder` and `Explicit::from_parts`. `none`, and `panic` beside an
-- error, are panics.
pub mod Duplicates
pub mod Allocated
use rusty_alto.Base.{
  ℕ, ◌+◌, Bool, true, false, not, ◌&&◌, List, [], ◌∷◌, ◌++◌, Option, none, some, ◌>>=◌, ◌>>◌, guard,
  ◌==◌, nat_eq, list_eq, pair_eq, ltb, leb, length, set, all, replicate, contains, if◌then◌else◌,
}
use rusty_alto.Base.Bits.{set_bits}
use rusty_alto.Base.Result
use rusty_alto.Base.Result.{Result, ok, err, panic}
use rusty_alto.Ids.{StateId, Symbol, stuck, is_stuck, u32_max}
use rusty_alto.Explicit.Types.{
  Weight, StoredRule, RuleKey, rule_key, Explicit, ExplicitBuilder, ExplicitBuildError,
  duplicate_transition,
}

-- a call that may panic, where an error can be returned as well
abbrev pub or_panic {κ} : {A : Type κ} → Option A → Result ExplicitBuildError A
or_panic none = panic
or_panic (some a) = ok a

module _ {ℓ} {W : Type ℓ} where
  -- `ExplicitBuilder::new`
  abbrev pub new : ExplicitBuilder W
  new = record { next_state = 0; accepting = []; rules = [] }

  -- `ExplicitBuilder::new_state`
  unfoldable pub new_state : ExplicitBuilder W → Option (ExplicitBuilder W × StateId)
  new_state b = do
    guard (not (b.next_state == stuck))
    some (record b { next_state = b.next_state + 1 }, b.next_state)

  -- `ExplicitBuilder::check_state`
  unfoldable pub check_state : ExplicitBuilder W → StateId → Option (Unit {0})
  check_state b q = do guard (not (is_stuck q)); guard (ltb q b.next_state)

  -- the loop over the children in `add_weighted_rule_inline`
  unfoldable pub check_states : ExplicitBuilder W → List StateId → Option (Unit {0})
  check_states b [] = some tt
  check_states b (q ∷ qs) = check_state b q >> check_states b qs

  -- `ExplicitBuilder::add_accepting`
  unfoldable pub add_accepting : ExplicitBuilder W → StateId → Option (ExplicitBuilder W)
  add_accepting b q = do check_state b q; some (record b { accepting = b.accepting ++ q ∷ [] })

  -- `ExplicitBuilder::add_weighted_rule_inline`, and `add_weighted_rule` by a conversion
  unfoldable pub add_weighted_rule :
      ExplicitBuilder W → Symbol → List StateId → StateId → W → Option (ExplicitBuilder W)
  add_weighted_rule b f children q weight = do
    check_state b q
    check_states b children
    let rule : StoredRule W = record {
      symbol = f;
      children = children;
      result = q;
      weight = weight;
    }
    some (record b { rules = b.rules ++ rule ∷ [] })

  -- the loop of `finish` over the rules: `seen` is the hash set of keys, `stored` the vector
  unfoldable pub finish_rules :
      Bool
      → List RuleKey
      → List (StoredRule W)
      → List (StoredRule W)
      → Result ExplicitBuildError (List (StoredRule W))
  finish_rules check seen stored [] = ok stored
  finish_rules check seen stored (r ∷ rules) =
      let rest = finish_rules check (rule_key r ∷ seen) (stored ++ r ∷ []) rules in
      if check && contains seen (rule_key r)
      then err (duplicate_transition r.symbol r.children r.result)
      else rest

module _ {ℓ} {W : Type ℓ} ⦃w : Weight W⦄ where
  -- `ExplicitBuilder::add_rule`, and `add_rule_from_iter`
  unfoldable pub add_rule :
      ExplicitBuilder W → Symbol → List StateId → StateId → Option (ExplicitBuilder W)
  add_rule b f children q = add_weighted_rule b f children q w.one

  -- `Explicit::from_parts`
  unfoldable pub from_parts : ℕ → List Bool → List (StoredRule W) → Option (Explicit W)
  from_parts num_states accepting rules = do
    guard (leb (length rules) u32_max)
    some (record {
      num_states = num_states;
      accepting = accepting;
      rules = rules;
      probability_weights = all (λ r. w.is_probability r.weight) rules;
    })

  -- `ExplicitBuilder::finish`
  unfoldable pub finish : ExplicitBuilder W → Bool → Result ExplicitBuildError (Explicit W)
  finish b check =
      Result.◌>>=◌ (or_panic (set_bits (replicate b.next_state false) b.accepting)) (λ accepting.
        Result.◌>>=◌ (finish_rules check [] [] b.rules)
          (λ stored. or_panic (from_parts b.next_state accepting stored)))

  -- `ExplicitBuilder::try_build`
  unfoldable pub try_build : ExplicitBuilder W → Result ExplicitBuildError (Explicit W)
  unfolding finish
  try_build b = finish b true

  -- `ExplicitBuilder::build`
  unfoldable pub build : ExplicitBuilder W → Option (Explicit W)
  unfolding try_build
  build b = elim (try_build b) [ ok a ↦ some a | err e ↦ none | panic ↦ none ]

  -- `ExplicitBuilder::build_trusted`
  unfoldable pub build_trusted : ExplicitBuilder W → Option (Explicit W)
  build_trusted b = do
    accepting ← set_bits (replicate b.next_state false) b.accepting
    from_parts b.next_state accepting b.rules
