-- ===== src/Explicit/Reach/Empty.antt =====
-- `is_empty` says whether the automaton accepts no tree.
use rusty_alto.Base.{
  ◌≤◌, ◌<◌, ◌≡◌, refl, ◌∙◌, sym, ◌↔◌, ⊎_elim, Bool, true, not, List, [], ◌∷◌, some, arith, any,
  any_iff, Bool-cases, All,
}
use rusty_alto.Base.Bits.{has_bit, lt-length_of_has_bit, ones, mem-ones_zero}
use rusty_alto.Ids.{StateId, stuck, is_stuck_of_lt}
use rusty_alto.Term.{Term, Terms, node, nil, cons}
use rusty_alto.Traits.Runs.{Assigns, AssignsAll, Accepts, assign, all_nil, all_cons}
use rusty_alto.Explicit.Types.{Explicit}
use rusty_alto.Explicit.Builder.Allocated.{IsRuleBelow}
use rusty_alto.Explicit.Index.{explicit_ta, is_accepting}
use rusty_alto.Explicit.Index.Lookup.{step_iff}
use rusty_alto.Explicit.Reach.{is_empty}
use rusty_alto.Explicit.Reach.Productive.{Productive, AllProductive, by_rule, none_left, one_more}
use rusty_alto.Explicit.Reach.Correct.{compute_reachable_states_lem}

module _ {ℓ} {W : Type ℓ} (a : Explicit W) where
  -- The rules mention states of the automaton only, and `STUCK` is no state.
  pub record IsSound : Type 0 where
    pub rules : All (IsRuleBelow a.num_states) a.rules
    pub low : a.num_states ≤ stuck

  mutual
    Productive-of_Assigns :
        (t : Term) (q : StateId) → Assigns (explicit_ta a) t q → Productive a.rules q
    Productive-of_Assigns (node f ts) q (assign {qs = qs} all m) =
        let (r, held, symbol, children, result) = ((step_iff a f qs).0 q).0 m in
        by_rule r held result (rw children (productive_of_AssignsAll ts qs all))

    productive_of_AssignsAll :
        (ts : Terms) (qs : List StateId)
        → AssignsAll (explicit_ta a) ts qs
        → AllProductive a.rules qs
    productive_of_AssignsAll nil [] all_nil = none_left
    productive_of_AssignsAll nil (q ∷ qs) run = elim run [ ]
    productive_of_AssignsAll (cons t ts) [] run = elim run [ ]
    productive_of_AssignsAll (cons t ts) (q ∷ qs) (all_cons one more) =
        one_more (Productive-of_Assigns t q one) (productive_of_AssignsAll ts qs more)

  mutual
    assigns_of_Productive :
        (q : StateId) → Productive a.rules q → (t : Term) × Assigns (explicit_ta a) t q
    assigns_of_Productive q (by_rule r m e all) =
        let (ts, run) = assigns_of_AllProductive r.children all in
        (
          node r.symbol ts,
          assign run (((step_iff a r.symbol r.children).0 q).1 (r, m, refl, refl, e)),
        )

    assigns_of_AllProductive :
        (qs : List StateId)
        → AllProductive a.rules qs
        → (ts : Terms) × AssignsAll (explicit_ta a) ts qs
    assigns_of_AllProductive [] none_left = (nil, all_nil)
    assigns_of_AllProductive (q ∷ qs) (one_more p all) =
        let (t, one) = assigns_of_Productive q p in
        let (ts, more) = assigns_of_AllProductive qs all in (cons t ts, all_cons one more)

  -- A state is accepting exactly if its bit is set, unless it is `STUCK`.
  accepting_below : (q : StateId) → q < stuck → is_accepting a q ≡ has_bit a.accepting q
  unfolding is_accepting
  accepting_below q h = ground (arith, is_stuck_of_lt q)

  -- For an automaton with rules over its own states, `is_empty` returns, and answers true exactly if
  -- the automaton accepts no tree.
  pub is_empty_iff :
      IsSound
      → (b : Bool) × (is_empty a ≡ some b)
        × ((b ≡ true) ↔ ((t : Term) → ¬ Accepts (explicit_ta a) t))
  unfolding is_empty
  is_empty_iff v =
      let (reachable, runs, size, marked) = compute_reachable_states_lem a v.rules in
      let below = λ (q : StateId) (h : has_bit reachable q ≡ true).
        accepting_below q (omega (arith, lt-length_of_has_bit reachable q h, size, v.low)) in
      let found = any_iff (λ q. has_bit a.accepting q) (ones 0 reachable) in
      let listed = λ (q : StateId). mem-ones_zero q reachable in
      (
        not (any (λ q. has_bit a.accepting q) (ones 0 reachable)),
        rw runs,
        (
          λ none_found t (q, run, final).
              let p = (marked q).1 (Productive-of_Assigns t q run) in
              let some_found = found.1 (q, (listed q).1 p, sym (below q p) ∙ final) in
              absurd (ground arith),
          λ none_accepted.
              ⊎_elim
                (λ some_found.
                  let (q, m, final) = found.0 some_found in
                  let p = (listed q).0 m in
                  let (t, run) = assigns_of_Productive q ((marked q).0 p) in
                  absurd (none_accepted t (q, run, below q p ∙ final)))
                (λ nothing. rw nothing)
                (Bool-cases (any (λ q. has_bit a.accepting q) (ones 0 reachable))),
        ),
      )
