-- ===== src/Run/Nondet.antt =====
-- src/run.rs: `run_nondet`. The arena is the one of `run_det`; a `StateSet` is its sorted list of
-- states. The case `none` of `local_states` is where `cartesian_product` would panic or run on
-- (`Sets` shows that it does not occur).
mod Sets
pub mod Correct
use rusty_alto.Base.{
  ℕ, Bool, true, false, List, [], ◌∷◌, Option, none, some, ◌>>=◌, get_or, set, replicate,
  if◌then◌else◌,
}
use rusty_alto.Base.Bits.{has_bit}
use rusty_alto.Base.Order.{Ord}
use rusty_alto.Base.Flat.{flat_map}
use rusty_alto.Ids.{Symbol}
use rusty_alto.Traits.{BottomUpTa}
use rusty_alto.Run.Det.{Arena}
use rusty_alto.Run.Tuples.{cartesian_product}
use rusty_alto.Combinators.Determinized.{insert_all}

-- the locals `states` and `visited` of `run_nondet`
pub record SetVisits {ℓ} (S : Type ℓ) : Type ℓ where
  pub states : List (List S)
  pub visited : List Bool

-- `NonDetRun`
pub record NonDetRun {ℓ} (S : Type ℓ) : Type ℓ where
  pub states : List (List S)
  pub root_states : List S

-- the loop over the children: `pools`, or none when `any_empty`
unfoldable pub gather_pools {ℓ} : {S : Type ℓ} → List (List S) → List ℕ → Option (List (List S))
gather_pools states [] = some []
gather_pools states (child ∷ children) =
    let rest = gather_pools states children in
    elim (get_or states child []) [ [] ↦ none | q ∷ qs ↦ do pools ← rest; some ((q ∷ qs) ∷ pools) ]

module _ {ℓ} {S : Type ℓ} ⦃o : Ord S⦄ (a : BottomUpTa S) (arena : Arena) where
  -- the set `local`, filled by the callbacks
  unfoldable pub local_states : Symbol → List (List S) → List S
  local_states f pools = elim (cartesian_product pools) [
    | none ↦ []
    | some tuples ↦ insert_all [] (flat_map (λ tuple. a.step f tuple) tuples)
  ]

  -- the loop over the nodes
  unfoldable pub visit_sets : SetVisits S → List ℕ → SetVisits S
  unfolding local_states
  visit_sets s [] = s
  visit_sets s (node ∷ nodes) =
      if has_bit s.visited node
      then visit_sets s nodes
      else elim (gather_pools s.states (arena.children node)) [
        | none ↦ visit_sets (record s { visited = set s.visited node true }) nodes
        | some pools ↦
            visit_sets
              (record {
                states = set s.states node (local_states (arena.label node) pools);
                visited = set s.visited node true;
              })
              nodes
      ]

  -- `run_nondet`
  unfoldable pub run_nondet : ℕ → NonDetRun S
  run_nondet root =
      let s =
        visit_sets (record { states = replicate arena.len []; visited = replicate arena.len false })
          (arena.post_order root) in
      record { states = s.states; root_states = get_or s.states root [] }
