-- ===== src/Algebras/Strings/Queries.antt =====
-- `step_partial` of the decomposition automaton agrees with its steps.
use rusty_alto.Base.{
  map, ℕ, zero, suc, ◌+◌, ◌≤◌, ◌<◌, ◌≡◌, refl, ap, ◌∙◌, ◌↔◌, ◌⊎◌, ⊎_elim, inl, inr, true, List, [],
  ◌∷◌, Memᴰ, not-mem-nil, some, arith, ◌==◌, nat_eq, length, get_elem?,
}
use rusty_alto.Base.Flat.{mem-map, mem-flat_map}
use rusty_alto.Base.Ranges.{range, mem-range}
use rusty_alto.Ids.{Symbol}
use rusty_alto.Traits.Views.{IsIndexed}
use rusty_alto.Algebras.Strings.{
  Span, StringAlgebra, StringDecompositionAutomaton, decompose, new_automaton, len, valid_span,
  step, automaton, all_states, len, step_partial, right_partners, left_partners,
}
use rusty_alto.Algebras.Strings.Covers.{valid_span_iff}
use rusty_alto.Algebras.Strings.Steps.{Shape, word, pair, step-joins, joins_iff, step-Shape}

module _ (a : StringAlgebra) (xs : List Symbol) where
  abbrev d : StringDecompositionAutomaton
  d = decompose a xs

  abbrev n : ℕ
  n = length xs

  mem-right_partners :
      (p : Span) (cs : List Span) (q : Span)
      → Memᴰ {A = List Span × Span} (cs, q) (right_partners d p) ↔ (
          (r : Span) × (cs ≡ p ∷ r ∷ [])
          × (p.end ≡ r.start)
          × (r.start < r.end)
          × (r.end ≤ n)
          × (q ≡ record { start = p.start; end = r.end }))
  unfolding right_partners len decompose new_automaton
  mem-right_partners p cs q =
      let joint : ℕ → List Span × Span = (λ end.
        (p ∷ record { start = p.end; end = end } ∷ [], record { start = p.start; end = end })) in
      (
        λ m.
            let (end, at, e) = (mem-map joint (range (p.end + 1) (n + 1)) (cs, q)).0 m in
            let (low, high) = (mem-range end (p.end + 1) (n + 1)).0 at in
            (
              record { start = p.end; end = end },
              ap (λ z. z.0) e,
              refl,
              omega arith,
              omega arith,
              ap (λ z. z.1) e,
            ),
        λ (r, e₁, meet, proper, bound, e₂). (mem-map joint (range (p.end + 1) (n + 1)) (cs, q)).1 (
          r.end,
          (mem-range r.end (p.end + 1) (n + 1)).1 (omega arith, omega arith),
          (let same : r ≡ record { start = p.end; end = r.end } = ground arith in
              let first : cs ≡ p ∷ record { start = p.end; end = r.end } ∷ [] =
                e₁ ∙ ap (λ z. p ∷ z ∷ []) same in
              cc),
        ),
      )

  mem-left_partners :
      (p : Span) (cs : List Span) (q : Span)
      → Memᴰ {A = List Span × Span} (cs, q) (left_partners d p) ↔ (
          (l : Span) × (cs ≡ l ∷ p ∷ [])
          × (l.end ≡ p.start)
          × (l.start < l.end)
          × (q ≡ record { start = l.start; end = p.end }))
  unfolding left_partners
  mem-left_partners p cs q =
      let joint : ℕ → List Span × Span = (λ start. (
        record { start = start; end = p.start } ∷ p ∷ [],
        record { start = start; end = p.end },
      )) in
      (
        λ m.
            let (start, at, e) = (mem-map joint (range 0 p.start) (cs, q)).0 m in
            let (low, high) = (mem-range start 0 p.start).0 at in
            (record { start = start; end = p.start }, ap (λ z. z.0) e, refl, high, ap (λ z. z.1) e),
        λ (l, e₁, meet, proper, e₂). (mem-map joint (range 0 p.start) (cs, q)).1 (
          l.start,
          (mem-range l.start 0 p.start).1 (omega arith, omega arith),
          (let same : l ≡ record { start = l.start; end = p.start } = ground arith in
              let first : cs ≡ record { start = l.start; end = p.start } ∷ p ∷ [] =
                e₁ ∙ ap (λ z. z ∷ p ∷ []) same in
              cc),
        ),
      )

  valid_iff : (p : Span) → (valid_span d p ≡ true) ↔ ((p.start < p.end) × (p.end ≤ n))
  unfolding decompose new_automaton
  valid_iff p = valid_span_iff d p

  -- what `step_partial` does at a valid span
  step_partial_cases :
      (f : Symbol) (position : ℕ) (p : Span) (cs : List Span) (q : Span)
      → Memᴰ {A = List Span × Span} (cs, q) (step_partial d f position p) ↔ (
          ((f == a.concat) ≡ true)
          × (valid_span d p ≡ true)
          × (((position ≡ 0) × Memᴰ {A = List Span × Span} (cs, q) (right_partners d p))
              ⊎ ((position ≡ 1) × Memᴰ {A = List Span × Span} (cs, q) (left_partners d p))))
  unfolding step_partial decompose new_automaton
  step_partial_cases f position p cs q = ground (arith, not-mem-nil {A = List Span × Span} (cs, q))

  partial_of_Shape :
      (f : Symbol) (position : ℕ) (p : Span) (cs : List Span) (q : Span)
      → Shape a xs f cs
      → Memᴰ q (step d f cs)
      → get_elem? cs position ≡ some p
      → Memᴰ {A = List Span × Span} (cs, q) (step_partial d f position p)
  partial_of_Shape f position p [] q (word e) m at = cc
  partial_of_Shape f position p (l ∷ []) q s m at = elim s [ ]
  partial_of_Shape f position p (l ∷ r ∷ x ∷ cs) q s m at = elim s [ ]
  partial_of_Shape f zero p (l ∷ r ∷ []) q (pair e) m at =
      let same : l ≡ p = cc in
      let (joint, result) = (step-joins a xs f l r q e).0 m in
      let (proper, meet, low, high) = (joins_iff a xs l r).0 joint in
      (step_partial_cases f 0 p (l ∷ r ∷ []) q).1 (
        e,
        rw (← same) ((valid_iff l).1 (proper, omega arith)),
        inl (
          refl,
          rw (← same) ((mem-right_partners l (l ∷ r ∷ []) q).1 (r, refl, meet, low, high, result)),
        ),
      )
  partial_of_Shape f (suc zero) p (l ∷ r ∷ []) q (pair e) m at =
      let same : r ≡ p = cc in
      let (joint, result) = (step-joins a xs f l r q e).0 m in
      let (proper, meet, low, high) = (joins_iff a xs l r).0 joint in
      (step_partial_cases f 1 p (l ∷ r ∷ []) q).1 (
        e,
        rw (← same) ((valid_iff r).1 (low, high)),
        inr (
          refl,
          rw (← same) ((mem-left_partners r (l ∷ r ∷ []) q).1 (l, refl, meet, proper, result)),
        ),
      )
  partial_of_Shape f (suc (suc k)) p (l ∷ r ∷ []) q (pair e) m at = cc

  -- `step_partial` reports exactly the children and results of the transitions of `step` whose child
  -- at the position is the span.
  pub decompose-IsIndexed :
      IsIndexed (record {
        oracle = automaton (decompose a xs);
        step_partial = step_partial (decompose a xs);
      })
  unfolding IsIndexed
  decompose-IsIndexed f position p cs q = (
    λ m.
        let (here, valid, sides) = (step_partial_cases f position p cs q).0 m in
        let (proper, bound) = (valid_iff p).0 valid in
        ⊎_elim
          (λ (at, n₀).
            let (r, e, meet, low, high, result) = (mem-right_partners p cs q).0 n₀ in
            rw (at, e)
              (
                (step-joins a xs f p r q here).1
                    ((joins_iff a xs p r).1 (proper, meet, low, high), result),
                refl,
              ))
          (λ (at, n₁).
            let (l, e, meet, low, result) = (mem-left_partners p cs q).0 n₁ in
            rw (at, e)
              (
                (step-joins a xs f l p q here).1
                    ((joins_iff a xs l p).1 (low, meet, proper, bound), result),
                refl,
              ))
          sides,
    λ (m, at). partial_of_Shape f position p cs q (step-Shape a xs f cs q m) m at,
  )

  -- `all_states` lists exactly the spans of the sentence that are not empty.
  pub mem-all_states :
      (q : Span) → Memᴰ q (all_states (decompose a xs)) ↔ ((q.start < q.end) × (q.end ≤ length xs))
  unfolding all_states len decompose new_automaton
  mem-all_states q =
      let ends : ℕ → List Span =
        (λ start. map (λ end. record { start = start; end = end }) (range (start + 1) (n + 1))) in
      (
        λ m.
            let (start, in₁, m₁) = (mem-flat_map ends (range 0 n) q).0 m in
            let (end, in₂, e) =
              (mem-map (λ end. record { start = start; end = end }) (range (start + 1) (n + 1)) q).0
                m₁ in
            let (low, high) = (mem-range end (start + 1) (n + 1)).0 in₂ in
            rw e (omega arith, omega arith),
        λ (low, high). (mem-flat_map ends (range 0 n) q).1 (
          q.start,
          (mem-range q.start 0 n).1 (omega arith, omega arith),
          (mem-map (λ end. record { start = q.start; end = end }) (range (q.start + 1) (n + 1)) q).1
              (q.end, (mem-range q.end (q.start + 1) (n + 1)).1 (omega arith, omega arith), refl),
        ),
      )
