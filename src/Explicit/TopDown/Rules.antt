-- ===== src/Explicit/TopDown/Rules.antt =====
-- The top-down rules of a state are the rules with this result.
use rusty_alto.Base.{
  ℕ, suc, ◌+◌, ◌≤◌, ◌<◌, ◌≡◌, refl, sym, ap, ◌↔◌, inl, inr, List, [], ◌∷◌, Memᴰ, not-mem-nil, some,
  arith, ◌==◌, nat_eq, nat_beq_iff, get_elem?, All, Bool-cases, ltb, select, mem-select, all-mem,
}
use rusty_alto.Base.Flat.{mem-map}
use rusty_alto.Util.DenseIndex.Groups.{group, group-nil, group-cons}
use rusty_alto.Util.DenseIndex.Grouping.{from_pairs_lem}
use rusty_alto.Ids.{StateId, Symbol, is_stuck, is_stuck_of_lt}
use rusty_alto.Explicit.Types.{StoredRule, Explicit}
use rusty_alto.Explicit.Builder.Allocated.{IsRuleBelow}
use rusty_alto.Explicit.Reach.Empty.{IsSound}
use rusty_alto.Explicit.TopDown.{
  result_pairs, result_index, rule, rules_at, rules_topdown, calls, step_topdown,
}
use rusty_alto.Explicit.Index.{step}
use rusty_alto.Explicit.Index.Lookup.{HasRule, step_iff}

module _ {ℓ} {W : Type ℓ} where
  -- The rules with a given result, in their order.
  abbrev pub with_result : StateId → List (StoredRule W) → List (StoredRule W)
  with_result q rules = select (λ r. r.result == q) rules

  result_keys :
      (n i : ℕ) (rules : List (StoredRule W))
      → All (IsRuleBelow n) rules
      → All (λ p. p.0 < n) (result_pairs i rules)
  unfolding result_pairs
  result_keys n i [] low = tt
  result_keys n i (r ∷ rs) low = (low.0.0, result_keys n (suc i) rs low.1)

  rules_at-group :
      (a : Explicit W) (q i : ℕ) (rules : List (StoredRule W))
      → ((k : ℕ) (r : StoredRule W)
          → get_elem? rules k ≡ some r
          → get_elem? a.rules (i + k) ≡ some r)
      → rules_at a (group q (result_pairs i rules)) ≡ some (with_result q rules)
  unfolding result_pairs rules_at rule
  rules_at-group a q i [] at = rw group-nil
  rules_at-group a q i (r ∷ rs) at =
      let here : i + 0 ≡ i = omega arith in
      let first : get_elem? a.rules i ≡ some r = rw here at (at 0 r refl) in
      let later =
        rules_at-group a q (suc i) rs (λ k p e.
          let next : i + suc k ≡ suc i + k = omega arith in rw next at (at (suc k) p e)) in
      elim (Bool-cases (r.result == q)) [
        | inl same ↦ rw (group-cons, same) (rw (first, later))
        | inr other ↦ rw (group-cons, other) later
      ]

  -- For a state of the automaton `rules_topdown` returns the rules with this result, in their order.
  pub rules_topdown_lem :
      (a : Explicit W) (q : StateId)
      → All (IsRuleBelow a.num_states) a.rules
      → q < a.num_states
      → rules_topdown a q ≡ some (with_result q a.rules)
  unfolding rules_topdown result_index
  rules_topdown_lem a q low h =
      let (index, built, grouping) =
        from_pairs_lem 0 a.num_states (result_pairs 0 a.rules)
          (result_keys a.num_states 0 a.rules low) in
      rw (built, grouping.values_of q h)
        (rules_at-group a q 0 a.rules (λ k r e. let at : 0 + k ≡ k = omega arith in rw at e))

  mem-calls :
      (f : Symbol) (cs : List StateId) (q : StateId) (rules : List (StoredRule W))
      → Memᴰ (f, cs) (calls (with_result q rules)) ↔ HasRule rules f cs q
  mem-calls f cs q rules = (
    λ m.
        let (r, n, e) = (mem-map (λ r. (r.symbol, r.children)) (with_result q rules) (f, cs)).0 m in
        let (held, here) = (mem-select (λ r. r.result == q) r rules).0 n in
        (r, held, sym (ap (λ z. z.0) e), sym (ap (λ z. z.1) e), (nat_beq_iff r.result q).0 here),
    λ (r, held, e₁, e₂, e₃).
        (mem-map (λ r. (r.symbol, r.children)) (with_result q rules) (f, cs)).1 (
          r,
          (mem-select (λ r. r.result == q) r rules).1 (held, (nat_beq_iff r.result q).1 e₃),
          rw (e₁, e₂) refl,
        ),
  )

  beyond_rules :
      (a : Explicit W) (q : StateId)
      → All (IsRuleBelow a.num_states) a.rules
      → a.num_states ≤ q
      → (f : Symbol) (cs : List StateId)
      → Memᴰ {A = Symbol × List StateId} (f, cs) [] ↔ Memᴰ q (step a f cs)
  beyond_rules a q low h f cs = (
    λ m. absurd (not-mem-nil {A = Symbol × List StateId} (f, cs) m),
    λ m.
        let (r, held, _, _, e) = ((step_iff a f cs).0 q).0 m in
        absurd (omega (arith, (all-mem (IsRuleBelow a.num_states) a.rules low held).0)),
  )

  -- `step_topdown` returns, and reports exactly the symbols and children from which `step` reports
  -- the state, also for `STUCK` and for numbers that are no states of the automaton.
  pub step_topdown_lem :
      (a : Explicit W)
      → IsSound a
      → (q : StateId)
      → (rules : List (Symbol × List StateId)) × (step_topdown a q ≡ some rules)
        × ((f : Symbol) (cs : List StateId) → Memᴰ (f, cs) rules ↔ Memᴰ q (step a f cs))
  unfolding step_topdown result_index
  step_topdown_lem a v q =
      let (index, built, grouping) =
        from_pairs_lem 0 a.num_states (result_pairs 0 a.rules)
          (result_keys a.num_states 0 a.rules v.rules) in
      elim (Bool-cases (ltb q a.num_states)) [
        | inl within ↦
            let low : q < a.num_states = ground arith in
            let usual = is_stuck_of_lt q (omega (arith, v.low)) in
            let found =
              rules_at-group a q 0 a.rules (λ k r e. let at : 0 + k ≡ k = omega arith in rw at e) in
            (
              calls (with_result q a.rules),
              rw (usual, built, grouping.get_of q low, found),
              λ f cs. (
                λ m. ((step_iff a f cs).0 q).1 ((mem-calls f cs q a.rules).0 m),
                λ m. (mem-calls f cs q a.rules).1 (((step_iff a f cs).0 q).0 m),
              ),
            )
        | inr outside ↦
            let high : a.num_states ≤ q = ground arith in
            let nothing = beyond_rules a q v.rules high in
            elim (Bool-cases (is_stuck q)) [
              | inl special ↦ ([], rw special, nothing)
              | inr usual ↦ ([], rw (usual, built, (grouping.beyond q high).1), nothing)
            ]
      ]
