-- ===== src/Algebras/Strings/TopDown.antt =====
-- `step_topdown` of the decomposition automaton agrees with its steps.
use rusty_alto.Base.{
  ℕ, ◌+◌, ◌≤◌, ◌<◌, ◌≡◌, refl, sym, ap, ◌∙◌, ◌↔◌, ⊎_elim, inl, inr, true, false, List, [], ◌∷◌,
  Memᴰ, mem-cons, not-mem-nil, some, arith, ◌==◌, nat_eq, nat_beq_iff, length, get_elem?,
  lt-length_of_get_elem?, get_elem?_of_lt, mem_of_get_elem?, Bool-cases, map,
}
use rusty_alto.Base.Flat.{mem-map}
use rusty_alto.Base.Ranges.{range, mem-range}
use rusty_alto.Ids.{Symbol}
use rusty_alto.Algebras.Strings.{
  Span, StringAlgebra, StringDecompositionAutomaton, decompose, new_automaton, valid_span, span_len,
  step, step_topdown, word_rule,
}
use rusty_alto.Algebras.Strings.Covers.{valid_span_iff}
use rusty_alto.Algebras.Strings.Steps.{
  Shape, word, pair, step-word, step-joins, joins_iff, step-Shape, word-not_concat,
}

module _ (a : StringAlgebra) (xs : List Symbol) where
  abbrev d : StringDecompositionAutomaton
  d = decompose a xs

  abbrev n : ℕ
  n = length xs

  valid_iff : (p : Span) → (valid_span d p ≡ true) ↔ ((p.start < p.end) × (p.end ≤ n))
  unfolding decompose new_automaton
  valid_iff p = valid_span_iff d p

  -- Only spans of the sentence are reached.
  step-valid :
      (f : Symbol) (cs : List Span) (q : Span)
      → Shape a xs f cs
      → Memᴰ q (step d f cs)
      → (q.start < q.end) × (q.end ≤ n)
  step-valid f [] q (word e) m =
      let (at, size) = (step-word a xs f q e).0 m in
      (omega arith, omega (arith, lt-length_of_get_elem? xs q.start at))
  step-valid f (l ∷ []) q s m = elim s [ ]
  step-valid f (l ∷ r ∷ x ∷ cs) q s m = elim s [ ]
  step-valid f (l ∷ r ∷ []) q (pair e) m =
      let (joint, result) = (step-joins a xs f l r q e).0 m in
      let (proper, meet, low, high) = (joins_iff a xs l r).0 joint in rw result (omega arith, high)

  -- the two parts of a span at a split
  abbrev parts : Span → ℕ → Symbol × List Span
  parts p split = (
    a.concat,
    record { start = p.start; end = split } ∷ record { start = split; end = p.end } ∷ [],
  )

  step_topdown_invalid : (p : Span) → valid_span d p ≡ false → step_topdown d p ≡ some []
  unfolding step_topdown
  step_topdown_invalid p h = rw h

  step_topdown_word :
      (p : Span) (w : Symbol)
      → valid_span d p ≡ true
      → p.start + 1 ≡ p.end
      → get_elem? xs p.start ≡ some w
      → step_topdown d p ≡ some ((w, []) ∷ [])
  unfolding step_topdown span_len word_rule decompose new_automaton
  step_topdown_word p w h e at = ground arith

  step_topdown_splits :
      (p : Span)
      → valid_span d p ≡ true
      → p.start + 1 < p.end
      → step_topdown d p ≡ some (map (parts p) (range (p.start + 1) p.end))
  unfolding step_topdown span_len decompose new_automaton
  step_topdown_splits p h e = ground arith

  word-rules :
      (p : Span) (w f : Symbol) (cs : List Span)
      → ¬ Memᴰ a.concat xs
      → p.start + 1 ≡ p.end
      → get_elem? xs p.start ≡ some w
      → Memᴰ {A = Symbol × List Span} (f, cs) ((w, []) ∷ []) ↔ Memᴰ p (step d f cs)
  word-rules p w f cs h e at = (
    λ m.
        let same : (f, cs) ≡ (w, []) =
          ⊎_elim (λ s. s) (λ never. absurd (not-mem-nil {A = Symbol × List Span} (f, cs) never))
            ((mem-cons {A = Symbol × List Span} (f, cs) (w, []) []).0 m) in
        let f_w : f ≡ w = ap (λ z. z.0) same in
        let none_below : cs ≡ [] = ap (λ z. z.1) same in
        let found : get_elem? xs p.start ≡ some f = at ∙ ap some (sym f_w) in
        rw none_below (
          (step-word a xs f p (word-not_concat a xs f h (mem_of_get_elem? xs p.start f found))).1
            (found, sym e)),
    λ m. only cs (step-Shape a xs f cs p m) m,
  )
    where
      only :
          (cs : List Span)
          → Shape a xs f cs
          → Memᴰ p (step d f cs)
          → Memᴰ {A = Symbol × List Span} (f, cs) ((w, []) ∷ [])
      only [] (word other) m =
          let (there, _) = (step-word a xs f p other).0 m in
          let same : f ≡ w = (let both : some f ≡ some w = sym there ∙ at in cc) in
          Memᴰ.head (ap (λ s. (s, [])) same)
      only (l ∷ []) s m = elim s [ ]
      only (l ∷ r ∷ x ∷ cs) s m = elim s [ ]
      only (l ∷ r ∷ []) (pair here) m =
          let (joint, result) = (step-joins a xs f l r p here).0 m in
          let (proper, meet, low, high) = (joins_iff a xs l r).0 joint in
          let first : p.start ≡ l.start = ap (λ s. s.start) result in
          let last : p.end ≡ r.end = ap (λ s. s.end) result in absurd (omega arith)

  split-rules :
      (p : Span) (f : Symbol) (cs : List Span)
      → p.start + 1 < p.end
      → p.end ≤ n
      → Memᴰ {A = Symbol × List Span} (f, cs) (map (parts p) (range (p.start + 1) p.end))
        ↔ Memᴰ p (step d f cs)
  split-rules p f cs e bound = (
    λ m.
        let (split, at, same) = (mem-map (parts p) (range (p.start + 1) p.end) (f, cs)).0 m in
        let (low, high) = (mem-range split (p.start + 1) p.end).0 at in
        let l : Span = record { start = p.start; end = split } in
        let r : Span = record { start = split; end = p.end } in
        let concat : f ≡ a.concat = ap (λ z. z.0) same in
        let children : cs ≡ l ∷ r ∷ [] = ap (λ z. z.1) same in
        rw children (
          (step-joins a xs f l r p ((nat_beq_iff f a.concat).1 concat)).1
            ((joins_iff a xs l r).1 (omega arith, refl, high, bound), refl)),
    λ m. both cs (step-Shape a xs f cs p m) m,
  )
    where
      both :
          (cs : List Span)
          → Shape a xs f cs
          → Memᴰ p (step d f cs)
          → Memᴰ {A = Symbol × List Span} (f, cs) (map (parts p) (range (p.start + 1) p.end))
      both [] (word other) m =
          let (_, size) = (step-word a xs f p other).0 m in absurd (omega arith)
      both (l ∷ []) s m = elim s [ ]
      both (l ∷ r ∷ x ∷ cs) s m = elim s [ ]
      both (l ∷ r ∷ []) (pair here) m =
          let (joint, result) = (step-joins a xs f l r p here).0 m in
          let (proper, meet, low, high) = (joins_iff a xs l r).0 joint in
          let first : p.start ≡ l.start = ap (λ s. s.start) result in
          let last : p.end ≡ r.end = ap (λ s. s.end) result in
          let concat : f ≡ a.concat = (nat_beq_iff f a.concat).0 here in
          let left : l ≡ record { start = p.start; end = r.start } = ground arith in
          let right : r ≡ record { start = r.start; end = p.end } = ground arith in
          (mem-map (parts p) (range (p.start + 1) p.end) (f, l ∷ r ∷ [])).1
            (r.start, (mem-range r.start (p.start + 1) p.end).1 (omega arith, omega arith), cc)

  -- With no word of the sentence spelled like the concatenation, `step_topdown` returns and
  -- reports exactly the symbols and children from which `step` reports the span.
  pub decompose-step_topdown :
      (p : Span)
      → ¬ Memᴰ a.concat xs
      → (rules : List (Symbol × List Span)) × (step_topdown (decompose a xs) p ≡ some rules)
        × ((f : Symbol) (cs : List Span) → Memᴰ (f, cs) rules ↔ Memᴰ p (step (decompose a xs) f cs))
  decompose-step_topdown p h = elim (Bool-cases (valid_span d p)) [
    | inr invalid ↦ (
      [],
      step_topdown_invalid p invalid,
      λ f cs. (
        λ m. absurd (not-mem-nil {A = Symbol × List Span} (f, cs) m),
        λ m.
            let valid = (valid_iff p).1 (step-valid f cs p (step-Shape a xs f cs p m) m) in
            absurd (let both : true ≡ false = sym valid ∙ invalid in cc),
      ),
    )
    | inl valid ↦
        let (proper, bound) = (valid_iff p).0 valid in
        elim (Bool-cases (p.start + 1 == p.end)) [
          | inl one ↦
              let size : p.start + 1 ≡ p.end = (nat_beq_iff (p.start + 1) p.end).0 one in
              let (w, at) = get_elem?_of_lt xs p.start (omega arith) in
              (
                (w, []) ∷ [],
                step_topdown_word p w valid size at,
                λ f cs. word-rules p w f cs h size at,
              )
          | inr more ↦
              let size : p.start + 1 < p.end = ground arith in
              (
                map (parts p) (range (p.start + 1) p.end),
                step_topdown_splits p valid size,
                λ f cs. split-rules p f cs size bound,
              )
        ]
  ]
