-- ===== src/Explicit/Builder/Duplicates.antt =====
-- `try_build` rejects exactly the builders that hold a transition twice, and names the first one.
use rusty_alto.Base.{
  ◌≤◌, ◌<◌, ◌≡◌, refl, ap, ◌∙◌, ◌⊎◌, inl, inr, ⊎_elim, true, false, List, [], ◌∷◌, ◌++◌, nat_eq,
  list_eq, pair_eq, append_assoc, Memᴰ, map, All, all, contains, contains_iff, length,
  length-replicate, replicate, Bool-cases, arith, leb, mem-cons, get_or-replicate, ◌↔◌, append-nil,
}
use rusty_alto.Base.Bits.{set_bits_lem, has_bit}
use rusty_alto.Base.Result.{ok, err}
use rusty_alto.Ids.{StateId, u32_max}
use rusty_alto.Explicit.Types.{
  Weight, StoredRule, RuleKey, rule_key, Explicit, ExplicitBuilder, ExplicitBuildError,
  duplicate_transition,
}
use rusty_alto.Explicit.Builder.{finish_rules, finish, try_build, from_parts}

module _ {ℓ} {W : Type ℓ} where
  -- No rule has the key of an earlier one or a key in `seen`.
  abbrev pub Fresh : List RuleKey → List (StoredRule W) → Type 0
  Fresh seen [] = Unit
  Fresh seen (r ∷ rs) = (¬ Memᴰ (rule_key r) seen) × Fresh (rule_key r ∷ seen) rs

  -- A first rule with a key that is in `seen` or that an earlier rule has.
  pub record FirstDuplicate (seen : List RuleKey) (rules : List (StoredRule W)) : Type ℓ where
    pub before : List (StoredRule W)
    pub again : StoredRule W
    pub after : List (StoredRule W)
    pub split : rules ≡ before ++ again ∷ after
    pub distinct : Fresh seen before
    pub repeated : Memᴰ (rule_key again) seen ⊎ Memᴰ (rule_key again) (map rule_key before)

  abbrev pub error_of :
      {seen : List RuleKey} {rules : List (StoredRule W)}
      → FirstDuplicate seen rules
      → ExplicitBuildError
  error_of d = duplicate_transition d.again.symbol d.again.children d.again.result

  later :
      (r : StoredRule W) (rs : List (StoredRule W)) (seen : List RuleKey)
      → (¬ Memᴰ (rule_key r) seen)
      → FirstDuplicate (rule_key r ∷ seen) rs
      → FirstDuplicate seen (r ∷ rs)
  later r rs seen unseen d = record {
    before = r ∷ d.before;
    again = d.again;
    after = d.after;
    split = ap (λ t. r ∷ t) d.split;
    distinct = (unseen, d.distinct);
    repeated = ground (
      arith,
      mem-cons (rule_key d.again) (rule_key r) seen,
      mem-cons (rule_key d.again) (rule_key r) (map rule_key d.before),
      d.repeated,
    );
  }

  finish_rules-cases :
      (seen : List RuleKey) (stored rules : List (StoredRule W))
      → Fresh seen rules × (finish_rules true seen stored rules ≡ ok (stored ++ rules))
        ⊎ ((d : FirstDuplicate seen rules) × (finish_rules true seen stored rules
              ≡ err (error_of d)))
  unfolding finish_rules later
  finish_rules-cases seen stored [] = inl (tt, rw append-nil)
  finish_rules-cases seen stored (r ∷ rs) = elim (Bool-cases (contains seen (rule_key r))) [
    | inl old ↦ inr (
      record {
        before = [];
        again = r;
        after = rs;
        split = refl;
        distinct = tt;
        repeated = inl ((contains_iff seen (rule_key r)).0 old);
      },
      rw old,
    )
    | inr new ↦
        let unseen : ¬ Memᴰ (rule_key r) seen =
          λ m. ground (arith, contains_iff seen (rule_key r)) in
        rw (new, ← append_assoc stored (r ∷ []) rs)
          (⊎_elim (λ fine. inl ((unseen, fine.0), fine.1))
            (λ (d, fails). inr (later r rs seen unseen d, fails))
            (finish_rules-cases (rule_key r ∷ seen) (stored ++ r ∷ []) rs))
  ]

module _ {ℓ} {W : Type ℓ} ⦃w : Weight W⦄ where
  -- What `try_build` makes of a builder whose accepting states are allocated.
  pub data BuildOutcome (b : ExplicitBuilder W) : Type ℓ where
    built :
        (a : Explicit W)
        → try_build b ≡ ok a
        → Fresh [] b.rules
        → a.rules ≡ b.rules
        → a.num_states ≡ b.next_state
        → length a.accepting ≡ b.next_state
        → ((q : StateId) → (has_bit a.accepting q ≡ true) ↔ Memᴰ q b.accepting)
        → BuildOutcome b
    duplicate : (d : FirstDuplicate [] b.rules) → try_build b ≡ err (error_of d) → BuildOutcome b

  -- With the accepting states allocated and at most `u32::MAX` rules, `try_build` does not panic.
  -- Either no transition occurs twice, and the automaton has exactly the builder's states, rules
  -- and accepting states; or the error names the first rule whose transition occurred before.
  pub try_build_outcome :
      (b : ExplicitBuilder W)
      → All (λ q. q < b.next_state) b.accepting
      → length b.rules ≤ u32_max
      → BuildOutcome b
  unfolding try_build finish from_parts
  try_build_outcome b in_range room =
      let size = length-replicate b.next_state false in
      let (bits, runs, kept, bits_of) =
        set_bits_lem (replicate b.next_state false) b.accepting (rw size in_range) in
      ⊎_elim
        (λ (fresh, stored).
          let rules_fit : leb (length b.rules) u32_max ≡ true = ground arith in
          built
            (record {
              num_states = b.next_state;
              accepting = bits;
              rules = b.rules;
              probability_weights = all (λ r. w.is_probability r.weight) b.rules;
            })
            (rw (runs, stored, rules_fit) refl) fresh refl refl (kept ∙ size)
            (λ q. ground (arith, bits_of q, get_or-replicate b.next_state q false)))
        (λ (d, fails). duplicate d (rw (runs, fails))) (finish_rules-cases [] [] b.rules)
