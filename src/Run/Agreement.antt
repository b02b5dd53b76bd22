-- ===== src/Run/Agreement.antt =====
-- `run_det` and `run_nondet` on the same tree of the arena.
use rusty_alto.Base.{
  ℕ, ◌≡◌, ◌≢◌, sym, ◌↔◌, List, [], ◌∷◌, Memᴰ, mem-cons, not-mem-nil, ⊎_elim, subst, All, get_or,
}
use rusty_alto.Base.Order.{Ord}
use rusty_alto.Ids.{StateId, stuck}
use rusty_alto.Term.{Term, Terms, node, nil, cons}
use rusty_alto.Traits.{DetBottomUpTa}
use rusty_alto.Run.Det.{Arena, run_det}
use rusty_alto.Run.Det.Evaluation.{
  IsTree, IsRow, IsOrdered, tree_at, row_nil, row_cons, run_det_lem,
}
use rusty_alto.Run.Det.Language.{IsFunctional, evaluate_iff}
use rusty_alto.Run.Nondet.{run_nondet}
use rusty_alto.Run.Nondet.Correct.{run_nondet_lem}

module _ (arena : Arena) where
  IsRow-of :
      (seen : List ℕ)
      → ((n : ℕ) → Memᴰ n seen → (t : Term) × IsTree arena n t)
      → (ns : List ℕ) → All (λ c. Memᴰ c seen) ns
      → (ts : Terms) × IsRow arena ns ts
  IsRow-of seen trees [] all = (nil, row_nil)
  IsRow-of seen trees (n ∷ ns) (here, all) =
      let (t, tree) = trees n here in
      let (ts, row) = IsRow-of seen trees ns all in (cons t ts, row_cons tree row)

  -- A node that is listed after its children is the root of a tree.
  IsTree-of :
      (seen ns : List ℕ)
      → IsOrdered arena seen ns
      → ((n : ℕ) → Memᴰ n seen → (t : Term) × IsTree arena n t)
      → (n : ℕ) → Memᴰ n ns
      → (t : Term) × IsTree arena n t
  unfolding IsOrdered
  IsTree-of seen [] ordered trees n m = absurd (not-mem-nil n m)
  IsTree-of seen (k ∷ ns) (low, below, later) trees n m =
      let (ts, row) = IsRow-of seen trees (arena.children k) below in
      let here : IsTree arena k (node (arena.label k) ts) = tree_at row in
      let grown : (j : ℕ) → Memᴰ j (k ∷ seen) → (t : Term) × IsTree arena j t = (λ j h.
        ⊎_elim
          (λ (same : j ≡ k).
            subst (λ z. (t : Term) × IsTree arena z t) (sym same) (node (arena.label k) ts, here))
          (λ old. trees j old) ((mem-cons j k seen).0 h)) in
      ⊎_elim (λ (same : n ≡ k). grown n (Memᴰ.head same))
        (λ old. IsTree-of (k ∷ seen) ns later grown n old) ((mem-cons n k ns).0 m)

module _ (a : DetBottomUpTa StateId) (arena : Arena) ⦃o : Ord StateId⦄ where
  -- For deterministic steps that never report `STUCK`, and an arena that lists the nodes in its
  -- length with children first: at each listed node, and for the root, `run_nondet` gives a state
  -- exactly if it is the state that `run_det` gives, and this is not `STUCK`.
  pub run_nondet-eq-run_det :
      (root : ℕ)
      → IsFunctional a
      → IsOrdered arena [] (arena.post_order root)
      → Memᴰ root (arena.post_order root)
      → ((n : ℕ) (q : StateId)
          → Memᴰ n (arena.post_order root)
          → Memᴰ q (get_or (run_nondet a.oracle arena root).states n [])
            ↔ ((get_or (run_det a arena root).states n stuck ≡ q) × (q ≢ stuck)))
        × ((q : StateId)
            → Memᴰ q (run_nondet a.oracle arena root).root_states
              ↔ (((run_det a arena root).root_state ≡ q) × (q ≢ stuck)))
  run_nondet-eq-run_det root v ordered listed =
      let none_seen : (n : ℕ) → Memᴰ n [] → (t : Term) × IsTree arena n t =
        (λ n m. absurd (not-mem-nil n m)) in
      let (sets, root_set) = run_nondet_lem a.oracle arena root ordered listed in
      let (states, root_state) = run_det_lem a arena root ordered listed in
      (
        λ n q m.
            let (t, tree) = IsTree-of arena [] (arena.post_order root) ordered none_seen n m in
            rw (states n t m tree) (
              λ k. (evaluate_iff a v t q).0 ((sets n t q m tree).0 k),
              λ e. (sets n t q m tree).1 ((evaluate_iff a v t q).1 e),
            ),
        λ q.
            let (t, tree) =
              IsTree-of arena [] (arena.post_order root) ordered none_seen root listed in
            rw (root_state t tree) (
              λ k. (evaluate_iff a v t q).0 ((root_set t q tree).0 k),
              λ e. (root_set t q tree).1 ((evaluate_iff a v t q).1 e),
            ),
      )
