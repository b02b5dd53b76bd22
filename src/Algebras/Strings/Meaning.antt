-- ===== src/Algebras/Strings/Meaning.antt =====
-- The decomposition automaton accepts the terms that denote the sentence: a state that a term may
-- receive is a span of the sentence with the words that the term denotes.
use rusty_alto.Base.{
  ◌+◌, ◌<◌, ◌≡◌, refl, sym, ap, ◌∙◌, subst, ◌↔◌, true, List, [], ◌∷◌, ◌++◌, Memᴰ, some, >>=-eq-some,
  arith, nat_eq, length, length-append, All,
}
use rusty_alto.Ids.{Symbol}
use rusty_alto.Term.{Term, Terms, node, nil, cons}
use rusty_alto.Traits.Runs.{Assigns, AssignsAll, assign, all_nil, all_cons, Accepts}
use rusty_alto.Algebras.Strings.{
  Span, span_beq_iff, StringAlgebra, evaluate, evaluate_term_internal, evaluate_children, decompose,
  new_automaton, len, step, is_accepting, automaton,
}
use rusty_alto.Algebras.Strings.Covers.{
  Covers, Covers-join, Covers-split, Covers-bound, Covers-whole, Covers-self, Covers-word,
  word_of_Covers,
}
use rusty_alto.Algebras.Strings.Steps.{
  Shape, word, pair, step-word, step-joins, joins_iff, step-Shape,
}
use rusty_alto.Algebras.Strings.Values.{
  Value, a_word, a_pair, evaluate-pair, evaluate-word, evaluate-Value, IsProper, values-IsProper,
}

module _ (a : StringAlgebra) (xs : List Symbol) where
  -- The words at a span of the sentence that is not empty.
  abbrev Denotes : List Symbol → Span → Type 0
  Denotes w q = Covers xs q w × (0 < length w)

  abbrev DenotesAll : List (List Symbol) → List Span → Type 0
  DenotesAll [] [] = Unit
  DenotesAll (w ∷ ws) (q ∷ qs) = Denotes w q × DenotesAll ws qs
  DenotesAll _ _ = ¬ Unit {0}

  step_sound :
      (f : Symbol) (ws : List (List Symbol)) (qs : List Span) (q : Span)
      → Shape a xs f qs
      → DenotesAll ws qs
      → Memᴰ q (step (decompose a xs) f qs)
      → (w : List Symbol) × (evaluate a f ws ≡ some w) × Denotes w q
  step_sound f [] [] q (word e) h m =
      let (at, size) = (step-word a xs f q e).0 m in
      let same : q ≡ record { start = q.start; end = q.start + 1 } = ground arith in
      (f ∷ [], evaluate-word a f e, (rw same (Covers-word xs q.start f at), omega arith))
  step_sound f (w ∷ ws) [] q s h m = absurd (h tt)
  step_sound f (u ∷ v ∷ []) (l ∷ r ∷ []) q (pair e) ((c₁, n₁), ((c₂, n₂), _)) m =
      let (joint, same) = (step-joins a xs f l r q e).0 m in
      let (_, meet, _, _) = (joins_iff a xs l r).0 joint in
      (
        u ++ v,
        evaluate-pair a f u v e,
        (
          rw same (
              Covers-join xs l.start l.end r.end u v c₁
                (subst (λ m. Covers xs (record { start = m; end = r.end }) v) (sym meet) c₂)),
          omega (arith, length-append u v),
        ),
      )
  step_sound f (u ∷ ws) (l ∷ []) q s h m = elim s [ ]
  step_sound f (u ∷ ws) (l ∷ r ∷ x ∷ qs) q s h m = elim s [ ]
  step_sound f [] (l ∷ qs) q s h m = absurd (h tt)
  step_sound f (u ∷ []) (l ∷ r ∷ []) q s h m = absurd (h.1 tt)
  step_sound f (u ∷ v ∷ x ∷ ws) (l ∷ r ∷ []) q s h m = absurd (h.1.1 tt)

  mutual
    unfolding evaluate_term_internal

    -- A state that a term may receive has the words that the term denotes.
    Assigns-sound :
        (t : Term) (q : Span)
        → Assigns (automaton (decompose a xs)) t q
        → (w : List Symbol) × (evaluate_term_internal a t ≡ some w) × Denotes w q
    Assigns-sound (node f ts) q (assign {qs = qs} below m) =
        let (ws, values, h) = AssignsAll-sound ts qs below in
        let (w, value, done) = step_sound f ws qs q (step-Shape a xs f qs q m) h m in
        (w, rw values value, done)

    AssignsAll-sound :
        (ts : Terms) (qs : List Span)
        → AssignsAll (automaton (decompose a xs)) ts qs
        → (ws : List (List Symbol)) × (evaluate_children a ts ≡ some ws) × DenotesAll ws qs
    AssignsAll-sound nil (q ∷ qs) runs = elim runs [ ]
    AssignsAll-sound (cons t ts) [] runs = elim runs [ ]
    AssignsAll-sound nil [] all_nil = ([], refl, tt)
    AssignsAll-sound (cons t ts) (q ∷ qs) (all_cons first rest) =
        let (w, value, h) = Assigns-sound t q first in
        let (ws, values, k) = AssignsAll-sound ts qs rest in (w ∷ ws, rw (value, values), (h, k))

  -- A span with the value of an operation comes from spans with the values of the operands.
  step_complete :
      (f : Symbol) (ws : List (List Symbol)) (w : List Symbol) (q : Span)
      → Value a f ws w
      → All IsProper ws
      → Covers xs q w
      → (qs : List Span) × DenotesAll ws qs × Memᴰ q (step (decompose a xs) f qs)
  step_complete f (u ∷ []) w q s h c = elim s [ ]
  step_complete f (u ∷ v ∷ x ∷ ws) w q s h c = elim s [ ]
  step_complete f [] w q (a_word e) h c =
      let (size, at) = word_of_Covers xs q f c in ([], tt, (step-word a xs f q e).1 (at, size))
  step_complete f (u ∷ v ∷ []) w q (a_pair e) h c =
      let l : Span = record { start = q.start; end = q.start + length u } in
      let r : Span = record { start = q.start + length u; end = q.end } in
      let (c₁, c₂) = Covers-split xs q.start q.end u v c in
      let bound = Covers-bound xs r v c₂ h.1.0 in
      (
        l ∷ r ∷ [],
        ((c₁, h.0), ((c₂, h.1.0), tt)),
        (step-joins a xs f l r q e).1 (
          (joins_iff a xs l r).1 (omega (arith, h.0), refl, omega (arith, c₂.size, h.1.0), bound),
          refl,
        ),
      )

  mutual
    unfolding evaluate_term_internal

    -- A term may receive each span with the words that it denotes.
    Assigns-complete :
        (t : Term) (w : List Symbol) (q : Span)
        → evaluate_term_internal a t ≡ some w
        → Covers xs q w
        → Assigns (automaton (decompose a xs)) t q
    Assigns-complete (node f ts) w q e c =
        let (ws, values, value) = >>=-eq-some (evaluate_children a ts) _ e in
        let proper = values-IsProper a ts ws values in
        let (qs, h, m) = step_complete f ws w q (evaluate-Value a f ws w value) proper c in
        assign (AssignsAll-complete ts ws qs values h) m

    AssignsAll-complete :
        (ts : Terms) (ws : List (List Symbol)) (qs : List Span)
        → evaluate_children a ts ≡ some ws
        → DenotesAll ws qs
        → AssignsAll (automaton (decompose a xs)) ts qs
    AssignsAll-complete nil [] [] e h = all_nil
    AssignsAll-complete nil [] (q ∷ qs) e h = absurd (h tt)
    AssignsAll-complete nil (w ∷ ws) qs e h = cc
    AssignsAll-complete (cons t ts) [] qs e h =
        let (w, value, more) = >>=-eq-some (evaluate_term_internal a t) _ e in
        let (rest, values, all) = >>=-eq-some (evaluate_children a ts) _ more in cc
    AssignsAll-complete (cons t ts) (u ∷ us) [] e h = absurd (h tt)
    AssignsAll-complete (cons t ts) (u ∷ us) (q ∷ qs) e h =
        let (w, value, more) = >>=-eq-some (evaluate_term_internal a t) _ e in
        let (rest, values, all) = >>=-eq-some (evaluate_children a ts) _ more in
        let first : evaluate_term_internal a t ≡ some u = cc in
        let later : evaluate_children a ts ≡ some us = cc in
        all_cons (Assigns-complete t u q first h.0.0) (AssignsAll-complete ts us qs later h.1)

  accepting_iff :
      (q : Span)
      → (is_accepting (decompose a xs) q ≡ true) ↔ (q ≡ record { start = 0; end = length xs })
  unfolding is_accepting len decompose new_automaton
  accepting_iff q = span_beq_iff q (record { start = 0; end = length xs })

  -- The decomposition automaton of a sentence accepts a term exactly if the term evaluates to this
  -- sentence.
  pub decompose-Accepts_iff :
      (t : Term) → Accepts (automaton (decompose a xs)) t ↔ (evaluate_term_internal a t ≡ some xs)
  decompose-Accepts_iff t =
      let whole : Span = record { start = 0; end = length xs } in
      (
        λ (q, run, final).
            let (w, value, (c, _)) = Assigns-sound t q run in
            let same : q ≡ whole = (accepting_iff q).0 final in
            value ∙ ap some (Covers-whole xs w (subst (λ s. Covers xs s w) same c)),
        λ e. (whole, Assigns-complete t xs whole e (Covers-self xs), (accepting_iff whole).1 refl),
      )
