-- ===== src/Explicit/Builder/Allocated.antt =====
-- The builder's calls: they accept allocated states only, and keep all states allocated.
use rusty_alto.Base.{
  ℕ, ◌+◌, ◌≤◌, ◌<◌, ◌≡◌, refl, ◌↔◌, ◌⊎◌, inl, inr, ⊎_elim, List, [], ◌∷◌, ◌++◌, All, All-imp,
  All-concat, Bool-cases, arith, some, none, Option, ◌>>=◌, >>=-eq-some, ◌==◌, nat_eq,
}
use rusty_alto.Ids.{StateId, stuck, is_stuck, is_stuck_iff}
use rusty_alto.Explicit.Types.{StoredRule, ExplicitBuilder}
use rusty_alto.Explicit.Builder.{
  new, new_state, check_state, check_states, add_accepting, add_weighted_rule,
}

module _ {ℓ} {W : Type ℓ} where
  abbrev pub IsRuleBelow : ℕ → StoredRule W → Type 0
  IsRuleBelow n r = (r.result < n) × All (λ q. q < n) r.children

  -- Every state that the builder mentions was allocated by it.
  pub record IsAllocated (b : ExplicitBuilder W) : Type 0 where
    pub low : b.next_state ≤ stuck
    pub accepting : All (λ q. q < b.next_state) b.accepting
    pub rules : All (IsRuleBelow b.next_state) b.rules

  pub new-IsAllocated : IsAllocated new
  unfolding stuck
  new-IsAllocated = record { low = omega arith; accepting = tt; rules = tt }

  rules-grow :
      (n m : ℕ) (rs : List (StoredRule W)) → n ≤ m → All (IsRuleBelow n) rs → All (IsRuleBelow m) rs
  rules-grow n m [] h a = tt
  rules-grow n m (r ∷ rs) h a =
      ((omega arith, All-imp (λ q k. omega arith) r.children a.0.1), rules-grow n m rs h a.1)

  pub check_state_iff :
      (b : ExplicitBuilder W) (q : StateId)
      → IsAllocated b
      → (check_state b q ≡ some tt) ↔ (q < b.next_state)
  unfolding check_state
  check_state_iff b q v = elim (Bool-cases (is_stuck q)) [
    | inl at ↦
        let here : q ≡ stuck = (is_stuck_iff q).0 at in
        rw at (λ h. cc, λ h. absurd (omega (arith, v.low)))
    | inr off ↦ rw off (λ h. ground arith, λ h. ground arith)
  ]

  pub check_states_iff :
      (b : ExplicitBuilder W) (qs : List StateId)
      → IsAllocated b
      → (check_states b qs ≡ some tt) ↔ All (λ q. q < b.next_state) qs
  unfolding check_states
  check_states_iff b [] v = (λ h. tt, λ h. refl)
  check_states_iff b (q ∷ qs) v = ground (arith, check_state_iff b q v, check_states_iff b qs v)

  -- `new_state` returns the next number, unless all below `STUCK` are taken.
  pub new_state_lem :
      (b : ExplicitBuilder W)
      → IsAllocated b
      → (b.next_state ≡ stuck) × (new_state b ≡ none)
        ⊎ ((c : ExplicitBuilder W) × (new_state b ≡ some (c, b.next_state))
            × IsAllocated c
            × (c.rules ≡ b.rules))
  unfolding new_state
  new_state_lem b v = elim (Bool-cases (b.next_state == stuck)) [
    | inl full ↦ inl (ground arith, rw full)
    | inr room ↦ inr (
      record b { next_state = b.next_state + 1 },
      rw room,
      record {
        low = ground (arith, v.low);
        accepting = All-imp (λ q k. omega arith) b.accepting v.accepting;
        rules = rules-grow b.next_state (b.next_state + 1) b.rules (omega arith) v.rules;
      },
      refl,
    )
  ]

  -- `add_accepting` returns for an allocated state, and adds it.
  pub add_accepting_iff :
      (b : ExplicitBuilder W) (q : StateId) (c : ExplicitBuilder W)
      → IsAllocated b
      → (add_accepting b q ≡ some c)
        ↔ ((q < b.next_state) × (c ≡ record b { accepting = b.accepting ++ q ∷ [] }))
  unfolding add_accepting
  add_accepting_iff b q c v = ground (arith, check_state_iff b q v)

  -- `add_weighted_rule` returns when all states of the rule are allocated, and adds the rule.
  pub add_weighted_rule_iff :
      (b : ExplicitBuilder W) (r : StoredRule W) (c : ExplicitBuilder W)
      → IsAllocated b
      → (add_weighted_rule b r.symbol r.children r.result r.weight ≡ some c)
        ↔ (IsRuleBelow b.next_state r × (c ≡ record b { rules = b.rules ++ r ∷ [] }))
  unfolding add_weighted_rule
  add_weighted_rule_iff b r c v =
      ground (arith, check_state_iff b r.result v, check_states_iff b r.children v)

-- A call of the builder's interface.
pub data BuilderCall {ℓ} (W : Type ℓ) : Type ℓ where
  allocate : BuilderCall W
  accept : StateId → BuilderCall W
  rule : StoredRule W → BuilderCall W

module _ {ℓ} {W : Type ℓ} where
  unfoldable pub call : BuilderCall W → ExplicitBuilder W → Option (ExplicitBuilder W)
  call allocate b = do (c, q) ← new_state b; some c
  call (accept q) b = add_accepting b q
  call (rule r) b = add_weighted_rule b r.symbol r.children r.result r.weight

  -- Calls one after another; `none` is a panic.
  unfoldable pub run : List (BuilderCall W) → ExplicitBuilder W → Option (ExplicitBuilder W)
  run [] b = some b
  run (k ∷ ks) b = do c ← call k b; run ks c

  call-IsAllocated :
      (k : BuilderCall W) (b c : ExplicitBuilder W)
      → IsAllocated b
      → call k b ≡ some c
      → IsAllocated c
  unfolding call
  call-IsAllocated allocate b c v h =
      ⊎_elim (λ (full, fails). cc)
        (λ (d, returns, valid, _). let same : c ≡ d = cc in rw same valid) (new_state_lem b v)
  call-IsAllocated (accept q) b c v h =
      let (low, same) = (add_accepting_iff b q c v).0 h in
      rw same (record {
        low = v.low;
        accepting = All-concat (λ p. p < b.next_state) b.accepting q v.accepting low;
        rules = v.rules;
      })
  call-IsAllocated (rule r) b c v h =
      let (low, same) = (add_weighted_rule_iff b r c v).0 h in
      rw same (record {
        low = v.low;
        accepting = v.accepting;
        rules = All-concat (IsRuleBelow b.next_state) b.rules r v.rules low;
      })

  -- Whatever calls are made on a new builder, while none panics all states that it mentions are
  -- allocated, and `STUCK` is not among them.
  pub run-IsAllocated :
      (ks : List (BuilderCall W)) (b c : ExplicitBuilder W)
      → IsAllocated b
      → run ks b ≡ some c
      → IsAllocated c
  unfolding run
  run-IsAllocated [] b c v h = let same : c ≡ b = cc in rw same v
  run-IsAllocated (k ∷ ks) b c v h =
      let (d, first, rest) = >>=-eq-some (call k b) (run ks) h in
      run-IsAllocated ks d c (call-IsAllocated k b d v first) rest
