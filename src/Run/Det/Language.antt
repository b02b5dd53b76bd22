-- ===== src/Run/Det/Language.antt =====
-- The evaluation of a tree by a deterministic automaton is the state that its root may receive.
use rusty_alto.Base.{
  ◌≡◌, ◌≢◌, refl, ◌∙◌, sym, ap, ◌↔◌, inl, inr, false, List, [], ◌∷◌, Memᴰ, some, Bool-cases,
  Option-cases,
}
use mathlib.Core.Option.{get_or as option_or}
use rusty_alto.Ids.{StateId, Symbol, stuck, is_stuck, is_stuck_iff}
use rusty_alto.Term.{Term, Terms, node, nil, cons}
use rusty_alto.Traits.{DetBottomUpTa}
use rusty_alto.Traits.Runs.{Assigns, AssignsAll, assign, all_nil, all_cons}
use rusty_alto.Traits.Views.{IsDet}
use rusty_alto.Run.Det.Evaluation.{evaluate, evaluate_all, state_of}

module _ (a : DetBottomUpTa StateId) where
  -- The steps are deterministic, and none reports `STUCK`.
  pub record IsFunctional : Type 0 where
    pub det : IsDet a
    pub single :
        (f : Symbol) (cs : List StateId) (p q : StateId)
        → Memᴰ p (a.step f cs)
        → Memᴰ q (a.step f cs)
        → p ≡ q
    pub usual : (f : Symbol) (cs : List StateId) (q : StateId) → Memᴰ q (a.step f cs) → q ≢ stuck

  module _ (v : IsFunctional) where
    step_det_of :
        (f : Symbol) (cs : List StateId) (q : StateId)
        → (a.step_det f cs ≡ some q) ↔ Memᴰ q (a.step f cs)
    unfolding IsDet
    step_det_of f cs q =
        (λ h. ((v.det f cs q).0 h).0, λ m. (v.det f cs q).1 (m, λ p k. v.single f cs p q k m))

    usual_test : (q : StateId) → q ≢ stuck → is_stuck q ≡ false
    usual_test q h = elim (Bool-cases (is_stuck q)) [
      | inl bad ↦ absurd (h ((is_stuck_iff q).0 bad))
      | inr good ↦ good
    ]

    mutual
      unfolding evaluate evaluate_all

      evaluate_of_Assigns :
          (t : Term) (q : StateId) → Assigns a.oracle t q → (evaluate a t ≡ q) × (q ≢ stuck)
      evaluate_of_Assigns (node f ts) q (assign {qs = qs} all m) =
          let row = evaluate_of_AssignsAll ts qs all in
          let found = (step_det_of f qs q).1 m in
          (ap (λ o. state_of a f o) row ∙ ap (λ o. option_or o stuck) found, v.usual f qs q m)

      evaluate_of_AssignsAll :
          (ts : Terms) (qs : List StateId) → AssignsAll a.oracle ts qs → evaluate_all a ts ≡ some qs
      evaluate_of_AssignsAll nil [] all_nil = refl
      evaluate_of_AssignsAll (cons t ts) (q ∷ qs) (all_cons one more) =
          let (here, good) = evaluate_of_Assigns t q one in
          let rest = evaluate_of_AssignsAll ts qs more in rw (here, rest, usual_test q good)
      evaluate_of_AssignsAll nil (q ∷ qs) run = elim run [ ]
      evaluate_of_AssignsAll (cons t ts) [] run = elim run [ ]

    mutual
      unfolding evaluate evaluate_all

      assigns_of_evaluate :
          (t : Term) (q : StateId) → evaluate a t ≡ q → q ≢ stuck → Assigns a.oracle t q
      assigns_of_evaluate (node f ts) q e good = elim (Option-cases (evaluate_all a ts)) [
        | inl gone ↦ absurd (good (sym e ∙ ap (λ o. state_of a f o) gone))
        | inr (qs, row) ↦ elim (Option-cases (a.step_det f qs)) [
          | inl gone ↦
              absurd
                (good (sym e ∙ ap (λ o. state_of a f o) row ∙ ap (λ o. option_or o stuck) gone))
          | inr (p, found) ↦
              let same : p ≡ q =
                sym (ap (λ o. option_or o stuck) found) ∙ sym (ap (λ o. state_of a f o) row) ∙ e in
              assign (AssignsAll-of_evaluate ts qs row) ((step_det_of f qs q).0 (rw (← same) found))
        ]
      ]

      AssignsAll-of_evaluate :
          (ts : Terms) (qs : List StateId) → evaluate_all a ts ≡ some qs → AssignsAll a.oracle ts qs
      AssignsAll-of_evaluate nil qs e = let same : qs ≡ [] = cc in rw same all_nil
      AssignsAll-of_evaluate (cons t ts) qs e = elim (Bool-cases (is_stuck (evaluate a t))) [
        | inl bad ↦ absurd (let wrong = rw bad at e in cc)
        | inr fine ↦
            let good : evaluate a t ≢ stuck =
              λ h. absurd (let bad = (is_stuck_iff (evaluate a t)).1 h in cc) in
            elim (Option-cases (evaluate_all a ts)) [
              | inl gone ↦ absurd (let wrong = rw (fine, gone) at e in cc)
              | inr (rest, row) ↦
                  let same : qs ≡ evaluate a t ∷ rest = (let right = rw (fine, row) at e in cc) in
                  rw same (
                    all_cons (assigns_of_evaluate t (evaluate a t) refl good)
                      (AssignsAll-of_evaluate ts rest row))
            ]
      ]

    -- For deterministic steps that never report `STUCK` the evaluation of a tree is a state other
    -- than `STUCK` exactly if the root of the tree may receive this state.
    pub evaluate_iff :
        (t : Term) (q : StateId) → Assigns a.oracle t q ↔ ((evaluate a t ≡ q) × (q ≢ stuck))
    evaluate_iff t q = (evaluate_of_Assigns t q, λ h. assigns_of_evaluate t q h.0 h.1)
