-- ===== src/Run/Det.antt =====
-- src/run.rs: `run_det`. The arena of trees is another package: here it is a record of what the code
-- calls, with nodes as their indices. An index out of range panics; all nodes of an arena are below
-- its length. The default `stuck` stands for what is read there.
pub mod Evaluation
pub mod Language
use rusty_alto.Base.{
  ℕ, Bool, true, false, List, [], ◌∷◌, Option, none, some, ◌>>=◌, get_or, set, replicate,
  if◌then◌else◌,
}
use mathlib.Core.Option.{get_or as option_or}
use rusty_alto.Base.Bits.{has_bit}
use rusty_alto.Ids.{StateId, Symbol, stuck, is_stuck}
use rusty_alto.Traits.{DetBottomUpTa}

-- what `run_det` calls of `TreeArena<Symbol>`
pub record Arena : Type 0 where
  pub len : ℕ
  pub label : ℕ → Symbol
  pub children : ℕ → List ℕ
  pub post_order : ℕ → List ℕ

-- the locals `states` and `visited` of `run_det`
pub record Visits : Type 0 where
  pub states : List StateId
  pub visited : List Bool

-- `DetRun`
pub record DetRun : Type 0 where
  pub states : List StateId
  pub root_state : StateId

-- the loop over the children: `buf`, or none when `any_stuck`
unfoldable pub gather : List StateId → List ℕ → Option (List StateId)
gather states [] = some []
gather states (child ∷ children) =
    let rest = gather states children in
    if is_stuck (get_or states child stuck)
    then none
    else do buf ← rest; some (get_or states child stuck ∷ buf)

-- the loop over the nodes
unfoldable pub visit_all : DetBottomUpTa StateId → Arena → Visits → List ℕ → Visits
visit_all a arena s [] = s
visit_all a arena s (node ∷ nodes) =
    if has_bit s.visited node
    then visit_all a arena s nodes
    else elim (gather s.states (arena.children node)) [
      | none ↦ visit_all a arena (record s { visited = set s.visited node true }) nodes
      | some buf ↦
          visit_all a arena
            (record {
              states = set s.states node (option_or (a.step_det (arena.label node) buf) stuck);
              visited = set s.visited node true;
            })
            nodes
    ]

-- `run_det`
unfoldable pub run_det : DetBottomUpTa StateId → Arena → ℕ → DetRun
run_det a arena root =
    let s =
      visit_all a arena
        (record { states = replicate arena.len stuck; visited = replicate arena.len false })
        (arena.post_order root) in
    record { states = s.states; root_state = get_or s.states root stuck }
