-- ===== src/Witness/Runs.antt =====
-- `run_det` and `run_nondet` of src/run.rs on an arena with the tree `1(0, 0)`, whose leaf is shared.
use rusty_alto.Base.{
  ℕ, ◌≡◌, ◌≢◌, refl, sym, ◌∙◌, ◌↔◌, [], ◌∷◌, Memᴰ, mem-cons, not-mem-nil, some, arith, get_or, ◌==◌,
  nat_eq, if◌then◌else◌,
}
use rusty_alto.Ids.{StateId, Symbol, stuck, u32_max, is_stuck}
use rusty_alto.Term.{Term, node, nil, cons}
use rusty_alto.Traits.{DetBottomUpTa}
use rusty_alto.Traits.Runs.{Assigns}
use rusty_alto.Traits.Views.{IsDet}
use rusty_alto.Base.Order.{nat_ord}
use rusty_alto.Run.Nondet.{run_nondet}
use rusty_alto.Run.Nondet.Correct.{run_nondet_lem}
use rusty_alto.Run.Det.{Arena, run_det, visit_all, gather}
use rusty_alto.Run.Det.Evaluation.{IsTree, IsOrdered, evaluate, run_det_lem}
use rusty_alto.Run.Det.Language.{IsFunctional}
use rusty_alto.Run.Agreement.{run_nondet-eq-run_det}

abbrev state_for : Symbol → StateId
state_for f = if f == 1 then 6 else 5

abbrev labels : DetBottomUpTa StateId
labels = record {
  oracle = record { step = λ f cs. state_for f ∷ []; is_accepting = λ q. q == 6 };
  step_det = λ f cs. some (state_for f);
}

abbrev arena : Arena
arena = record {
  len = 2;
  label = λ n. n;
  children = λ n. if n == 1 then 0 ∷ 0 ∷ [] else [];
  post_order = λ n. 0 ∷ 0 ∷ 1 ∷ [];
}

abbrev tree : Term
tree = node 1 (cons (node 0 nil) (cons (node 0 nil) nil))

runs : (run_det labels arena 1).states ≡ 5 ∷ 6 ∷ []
unfolding run_det visit_all gather is_stuck stuck u32_max
runs = refl

arena-IsOrdered : IsOrdered arena [] (0 ∷ 0 ∷ 1 ∷ [])
unfolding IsOrdered
arena-IsOrdered =
    (omega arith, tt, (omega arith, tt, (omega arith, (Memᴰ.head refl, (Memᴰ.head refl, tt)), tt)))

run_det_lem_example :
    ((n : ℕ) (t : Term)
      → Memᴰ n (arena.post_order 1)
      → IsTree arena n t
      → get_or (run_det labels arena 1).states n stuck ≡ evaluate labels t)
    × ((t : Term) → IsTree arena 1 t → (run_det labels arena 1).root_state ≡ evaluate labels t)
run_det_lem_example =
    run_det_lem labels arena 1 arena-IsOrdered (Memᴰ.tail (Memᴰ.tail (Memᴰ.head refl)))

the_only : (p q : StateId) → Memᴰ p (q ∷ []) → p ≡ q
the_only p q m = ground (arith, mem-cons p q [], not-mem-nil p)

labels-IsFunctional : IsFunctional labels
unfolding IsDet stuck u32_max
labels-IsFunctional = record {
  det = λ f cs q. (
    λ h.
        let same : state_for f ≡ q = cc in
        (Memᴰ.head (sym same), λ p m. the_only p (state_for f) m ∙ same),
    λ h. let same : q ≡ state_for f = the_only q (state_for f) h.0 in rw same,
  );
  single = λ f cs p q m n. the_only p (state_for f) m ∙ sym (the_only q (state_for f) n);
  usual = λ f cs q m e. let same = the_only q (state_for f) m in absurd (ground arith);
}

run_nondet-eq-run_det_example :
    ((n : ℕ) (q : StateId)
      → Memᴰ n (arena.post_order 1)
      → Memᴰ q (get_or (run_nondet labels.oracle arena 1).states n [])
        ↔ ((get_or (run_det labels arena 1).states n stuck ≡ q) × (q ≢ stuck)))
    × ((q : StateId)
        → Memᴰ q (run_nondet labels.oracle arena 1).root_states
          ↔ (((run_det labels arena 1).root_state ≡ q) × (q ≢ stuck)))
run_nondet-eq-run_det_example =
    run_nondet-eq-run_det labels arena 1 labels-IsFunctional arena-IsOrdered
      (Memᴰ.tail (Memᴰ.tail (Memᴰ.head refl)))

run_nondet_lem_example :
    ((n : ℕ) (t : Term) (q : StateId)
      → Memᴰ n (arena.post_order 1)
      → IsTree arena n t
      → Memᴰ q (get_or (run_nondet labels.oracle arena 1).states n []) ↔ Assigns labels.oracle t q)
    × ((t : Term) (q : StateId)
        → IsTree arena 1 t
        → Memᴰ q (run_nondet labels.oracle arena 1).root_states ↔ Assigns labels.oracle t q)
run_nondet_lem_example =
    run_nondet_lem labels.oracle arena 1 arena-IsOrdered (Memᴰ.tail (Memᴰ.tail (Memᴰ.head refl)))
