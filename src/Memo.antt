-- ===== src/Memo.antt =====
-- src/memo.rs: a view of an automaton over dense states, which remembers the transitions asked for.
-- The cells that the program borrows are the fields of a state that each call takes and returns; a
-- panic is `none`.
pub mod Keys
pub mod Interning
pub mod Steps
pub mod Det
pub mod Views
use rusty_alto.Base.{
  ℕ, ◌+◌, Bool, true, false, List, [], ◌∷◌, ◌++◌, Option, none, some, ◌>>=◌, Eq, ◌==◌, nat_eq,
  contains, length, if◌then◌else◌,
}
use rusty_alto.Base.Assoc.{Assoc, lookup, insert, listed}
use rusty_alto.Ids.{StateId, Symbol, is_stuck}
use rusty_alto.Interner.{Interner, new as empty_interner, len as interned, intern, resolve}
use rusty_alto.Traits.{BottomUpTa, DetBottomUpTa, IndexedBottomUpTa, TopDownTa}
use rusty_alto.Memo.Keys.{CacheKey, key_of, key_eq}

pub record MemoStats : Type 0 where
  pub hits : ℕ
  pub misses : ℕ
  pub num_states : ℕ

-- The fields of `Memo` beside the automaton.
pub record Memo {ℓ} (S : Type ℓ) : Type ℓ where
  pub interner : Interner S
  pub cache : Assoc CacheKey (List StateId)
  pub accepting_cache : Assoc StateId Bool
  pub hits : ℕ
  pub misses : ℕ

-- `(results.len() == 1).then_some(results[0])`, where `results[0]` is evaluated first
unfoldable pub only_one : List StateId → Option (Option StateId)
only_one [] = none
only_one (q ∷ []) = some (some q)
only_one (q ∷ p ∷ qs) = some none

module _ {ℓ} {S : Type ℓ} where
  -- `Memo::new`
  abbrev pub new : Memo S
  new = record { interner = empty_interner; cache = []; accepting_cache = []; hits = 0; misses = 0 }

  -- `Memo::stats`, with the feature of this name
  unfoldable pub stats : Memo S → MemoStats
  stats m = record { hits = m.hits; misses = m.misses; num_states = interned m.interner }

  -- `resolve_children`
  unfoldable pub resolve_children : Interner S → List StateId → Option (List S)
  resolve_children i [] = some []
  resolve_children i (q ∷ qs) = do s ← resolve i q; ss ← resolve_children i qs; some (s ∷ ss)

  -- `record_hit`
  abbrev pub record_hit : Memo S → Memo S
  record_hit m = record m { hits = m.hits + 1 }

  -- `record_miss`
  abbrev pub record_miss : Memo S → Memo S
  record_miss m = record m { misses = m.misses + 1 }

module _ {ℓ} {S : Type ℓ} ⦃e : Eq S⦄ where
  -- the loop of `intern_results`, with the identifiers so far
  unfoldable pub intern_each :
      Interner S → List StateId → List S → Option (Interner S × List StateId)
  intern_each i dense [] = some (i, dense)
  intern_each i dense (q ∷ qs) = do
    (j, id) ← intern i q
    intern_each j (if contains dense id then dense else dense ++ id ∷ []) qs

  -- `intern_results`
  unfoldable pub intern_results : Interner S → List S → Option (Interner S × List StateId)
  intern_results i results = intern_each i [] results

  -- what `step` and `step_det` leave after a miss
  abbrev pub remember : Memo S → Interner S → CacheKey → List StateId → Memo S
  remember m i key dense = record (record_miss m) { interner = i; cache = insert key dense m.cache }

  -- `step` without an entry in the cache
  unfoldable pub step_miss :
      BottomUpTa S → Memo S → Symbol → List StateId → Option (Memo S × List StateId)
  step_miss inner m f children = do
    resolved ← resolve_children m.interner children
    (i, dense) ← intern_results m.interner (inner.step f resolved)
    some (
      remember m i (key_of f children) dense,
      listed (lookup (key_of f children) (insert (key_of f children) dense m.cache)),
    )

  -- `step`
  unfoldable pub step :
      BottomUpTa S → Memo S → Symbol → List StateId → Option (Memo S × List StateId)
  step inner m f children = elim (lookup (key_of f children) m.cache) [
    | some results ↦ some (record_hit m, results)
    | none ↦ step_miss inner m f children
  ]

  -- `is_accepting`
  unfoldable pub is_accepting : BottomUpTa S → Memo S → StateId → Option (Memo S × Bool)
  is_accepting inner m q =
      if is_stuck q then some (m, false) else elim (lookup q m.accepting_cache) [
        | some accepting ↦ some (m, accepting)
        | none ↦ do
          state ← resolve m.interner q
          some (
            record m { accepting_cache = insert q (inner.is_accepting state) m.accepting_cache },
            inner.is_accepting state,
          )
      ]

  -- the results of `step_det` as they are stored
  unfoldable pub intern_answer : Interner S → Option S → Option (Interner S × List StateId)
  intern_answer i none = some (i, [])
  intern_answer i (some q) = do (j, id) ← intern i q; some (j, id ∷ [])

  -- `step_det` without an entry in the cache
  unfoldable pub step_det_miss :
      DetBottomUpTa S → Memo S → Symbol → List StateId → Option (Memo S × Option StateId)
  step_det_miss inner m f children = do
    resolved ← resolve_children m.interner children
    (i, dense) ← intern_answer m.interner (inner.step_det f resolved)
    answer ← only_one dense
    some (remember m i (key_of f children) dense, answer)

  -- `step_det`
  unfoldable pub step_det :
      DetBottomUpTa S → Memo S → Symbol → List StateId → Option (Memo S × Option StateId)
  step_det inner m f children = elim (lookup (key_of f children) m.cache) [
    | some results ↦ do answer ← only_one results; some (record_hit m, answer)
    | none ↦ step_det_miss inner m f children
  ]

  -- the interner after a row of states, and their identifiers
  unfoldable pub intern_row : Interner S → List S → Option (Interner S × List StateId)
  intern_row i [] = some (i, [])
  intern_row i (q ∷ qs) = do (j, id) ← intern i q; (k, ids) ← intern_row j qs; some (k, id ∷ ids)

  -- the loop over the rules of `step_partial`
  unfoldable pub intern_rules :
      Interner S → List (List S × S) → Option (Interner S × List (List StateId × StateId))
  intern_rules i [] = some (i, [])
  intern_rules i ((children, result) ∷ raw) = do
    (j, ids) ← intern_row i children
    (k, id) ← intern j result
    (l, rules) ← intern_rules k raw
    some (l, (ids, id) ∷ rules)

  -- `step_partial`
  unfoldable pub step_partial :
      IndexedBottomUpTa S
      → Memo S
      → Symbol
      → ℕ
      → StateId
      → Option (Memo S × List (List StateId × StateId))
  step_partial inner m f position state = if is_stuck state then some (m, []) else do
    inner_state ← resolve m.interner state
    (i, rules) ← intern_rules m.interner (inner.step_partial f position inner_state)
    some (record m { interner = i }, rules)

  -- the loop over the rules of `step_topdown`
  unfoldable pub intern_calls :
      Interner S → List (Symbol × List S) → Option (Interner S × List (Symbol × List StateId))
  intern_calls i [] = some (i, [])
  intern_calls i ((symbol, children) ∷ raw) = do
    (j, ids) ← intern_row i children
    (k, calls) ← intern_calls j raw
    some (k, (symbol, ids) ∷ calls)

  -- `step_topdown`
  unfoldable pub step_topdown :
      TopDownTa S → Memo S → StateId → Option (Memo S × List (Symbol × List StateId))
  step_topdown inner m parent = if is_stuck parent then some (m, []) else do
    inner_parent ← resolve m.interner parent
    (i, calls) ← intern_calls m.interner (inner.step_topdown inner_parent)
    some (record m { interner = i }, calls)

  -- `initial_states`
  unfoldable pub initial_states : TopDownTa S → Memo S → Option (Memo S × List StateId)
  initial_states inner m = do
    (i, ids) ← intern_row m.interner inner.initial_states
    some (record m { interner = i }, ids)
