-- ===== src/Explicit/Reach.antt =====
-- src/explicit.rs: `compute_reachable_states`, which saturates from the nullary rules, and
-- `is_empty`. States are numbers below `num_states` and rule numbers come from the rules, so no
-- access is out of range (`Builder.Allocated`, `Saturated`); a write out of range would change nothing here.
pub mod Productive
mod Invariant
mod Steps
mod Mentions
mod Start
mod Saturated
pub mod Correct
pub mod Empty
use rusty_alto.Base.{
  ℕ, zero, suc, ◌+◌, ◌-◌, Bool, true, false, not, List, [], ◌∷◌, ◌++◌, map, foldl, Option, none,
  some, ◌>>=◌, ◌==◌, nat_eq, length, get_elem?, get_or, set, replicate, any, if◌then◌else◌,
}
use rusty_alto.Base.Bits.{has_bit, ones}
use rusty_alto.Util.DenseIndex.{DenseIndex, from_pairs, values}
use rusty_alto.Ids.{StateId}
use rusty_alto.Explicit.Types.{StoredRule, Explicit}

-- the locals of `compute_reachable_states`; the end of the vector `worklist` is the list's head
pub record Saturation : Type 0 where
  pub reachable : List Bool
  pub worklist : List StateId
  pub remaining : List ℕ

-- `mark_reachable`
unfoldable pub mark_reachable : StateId → Saturation → Saturation
mark_reachable q s =
    if has_bit s.reachable q
    then s
    else record s { reachable = set s.reachable q true; worklist = q ∷ s.worklist }

module _ {ℓ} {W : Type ℓ} where
  -- the first loop: the results of the nullary rules
  unfoldable pub mark_nullary : List (StoredRule W) → Saturation → Saturation
  mark_nullary [] s = s
  mark_nullary (r ∷ rs) s =
      mark_nullary rs (elim r.children [ [] ↦ mark_reachable r.result s | _ ∷ _ ↦ s ])

  -- the pairs of `mentions`: one for each child of each rule, with the rule's number
  unfoldable pub mention_pairs : ℕ → List (StoredRule W) → List (StateId × ℕ)
  mention_pairs i [] = []
  mention_pairs i (r ∷ rs) = map (λ c. (c, i)) r.children ++ mention_pairs (suc i) rs

  -- the body of the inner loop, for the rule number `idx`
  unfoldable pub discharge : List (StoredRule W) → Saturation → ℕ → Saturation
  discharge rules s idx =
      let left = get_or s.remaining idx 0 in
      if left == 0
      then s
      else let s' = record s { remaining = set s.remaining idx (left - 1) } in
        if left - 1 == 0
        then elim (get_elem? rules idx) [ none ↦ s' | some r ↦ mark_reachable r.result s' ]
        else s'

  -- the inner loop
  unfoldable pub discharge_all : List (StoredRule W) → Saturation → List ℕ → Saturation
  discharge_all rules s [] = s
  discharge_all rules s (idx ∷ more) = discharge_all rules (discharge rules s idx) more

  -- the outer loop, on fuel; `none` is a panic or the end of the fuel
  unfoldable pub saturate : ℕ → List (StoredRule W) → DenseIndex ℕ → Saturation → Option Saturation
  saturate zero rules mentions s = elim s.worklist [ [] ↦ some s | _ ∷ _ ↦ none ]
  saturate (suc fuel) rules mentions s = elim s.worklist [
    | [] ↦ some s
    | q ∷ rest ↦ elim (values mentions q) [
      | none ↦ none
      | some idxs ↦
          saturate fuel rules mentions (discharge_all rules (record s { worklist = rest }) idxs)
    ]
  ]

  -- the state in which the outer loop starts
  unfoldable pub start : Explicit W → Saturation
  unfolding mark_nullary
  start a = mark_nullary a.rules (record {
    reachable = replicate a.num_states false;
    worklist = [];
    remaining = map (λ r. length r.children) a.rules;
  })

  -- `Explicit::compute_reachable_states`: every state is pushed at most once, so there are at most
  -- `num_states` rounds
  unfoldable pub compute_reachable_states : Explicit W → Option (List Bool)
  compute_reachable_states a = do
    mentions ← from_pairs 0 a.num_states (mention_pairs 0 a.rules)
    s ← saturate a.num_states a.rules mentions (start a)
    some s.reachable

  -- `Explicit::is_empty`
  unfoldable pub is_empty : Explicit W → Option Bool
  is_empty a = do
    reachable ← compute_reachable_states a
    some (not (any (λ idx. has_bit a.accepting idx) (ones 0 reachable)))
