-- ===== src/Explicit/Reach/Correct.antt =====
-- `compute_reachable_states` returns exactly the states that some tree can receive.
use rusty_alto.Base.{
  ℕ, ◌≡◌, ◌↔◌, ⊎_elim, Bool, true, List, [], ◌∷◌, not-mem-nil, some, arith, length, All,
  get_elem?_of_mem,
}
use rusty_alto.Base.Bits.{has_bit}
use rusty_alto.Util.DenseIndex.Grouping.{from_pairs_lem}
use rusty_alto.Ids.{StateId}
use rusty_alto.Explicit.Types.{StoredRule, Explicit}
use rusty_alto.Explicit.Builder.Allocated.{IsRuleBelow}
use rusty_alto.Explicit.Reach.{Saturation, mention_pairs, start, compute_reachable_states}
use rusty_alto.Explicit.Reach.Productive.{Productive, AllProductive, by_rule, none_left, one_more}
use rusty_alto.Explicit.Reach.Invariant.{occurrences-nil, undone, undone-cons, undone-nil}
use rusty_alto.Explicit.Reach.Mentions.{mention_keys}
use rusty_alto.Explicit.Reach.Start.{start_lem}
use rusty_alto.Explicit.Reach.Saturated.{Saturated, saturate_lem}

module _ {ℓ} {W : Type ℓ} (rules : List (StoredRule W)) (n : ℕ) (low : All (IsRuleBelow n) rules)
    (t : Saturation) (end : Saturated rules n low t) where
  popped_of_marked : (q : StateId) → has_bit t.reachable q ≡ true → end.done q ≡ true
  popped_of_marked q h =
      ⊎_elim (λ e. e) (λ m. absurd (not-mem-nil q (rw end.finished at m)))
        ((end.frontier.marks q).0 h)

  mutual
    marked_of_Productive : (q : StateId) → Productive rules q → has_bit t.reachable q ≡ true
    marked_of_Productive q (by_rule r m e all) =
        let (i, at) = get_elem?_of_mem r rules m in
        rw (← e) (
          end.counted.closed i r at (
            omega (
              arith,
              end.counted.counts i r at,
              occurrences-nil i,
              undone_of_AllProductive r.children all,
            )))

    undone_of_AllProductive : (qs : List StateId) → AllProductive rules qs → undone end.done qs ≡ 0
    undone_of_AllProductive [] none_left = undone-nil end.done
    undone_of_AllProductive (q ∷ qs) (one_more p all) =
        let popped = popped_of_marked q (marked_of_Productive q p) in
        rw (undone-cons, popped) (undone_of_AllProductive qs all)

-- For rules that mention allocated states only, `compute_reachable_states` returns (it does not
-- panic, and the number of states bounds its rounds), and marks a state exactly if some tree can
-- receive it.
pub compute_reachable_states_lem {ℓ} :
    {W : Type ℓ} (a : Explicit W)
    → All (IsRuleBelow a.num_states) a.rules
    → (reachable : List Bool) × (compute_reachable_states a ≡ some reachable)
      × (length reachable ≡ a.num_states)
      × ((q : StateId) → (has_bit reachable q ≡ true) ↔ Productive a.rules q)
unfolding compute_reachable_states
compute_reachable_states_lem a low =
    let (mentions, built, grouping) =
      from_pairs_lem 0 a.num_states (mention_pairs 0 a.rules)
        (mention_keys a.num_states 0 a.rules low) in
    let (frontier, counted, fuel) = start_lem a low in
    let (t, runs, last) =
      saturate_lem a.rules a.num_states low mentions grouping.values_of a.num_states _ (start a)
        frontier counted fuel in
    (
      t.reachable,
      rw (built, runs),
      last.frontier.bits,
      λ q. (last.frontier.sound q, marked_of_Productive a.rules a.num_states low t last q),
    )
