-- ===== src/Algebras/Strings/Steps.antt =====
-- The transitions of the decomposition automaton: a word at its positions, and two spans that meet.
use rusty_alto.Base.{
  subst, ℕ, ◌+◌, ◌≤◌, ◌<◌, ◌≡◌, refl, ◌↔◌, inl, inr, true, false, List, [], ◌∷◌, Memᴰ, mem-cons,
  not-mem-nil, Option, none, some, arith, ◌==◌, nat_eq, length, get_elem?, Bool-cases,
}
use rusty_alto.Base.Assoc.{lookup, listed}
use rusty_alto.Base.Flat.{mem-map}
use rusty_alto.Ids.{Symbol}
use rusty_alto.Algebras.Strings.{
  Span, StringAlgebra, StringDecompositionAutomaton, decompose, new_automaton, index_words, joins,
  word_spans, step,
}
use rusty_alto.Algebras.Strings.Positions.{mem-index_words}
use rusty_alto.Algebras.Strings.Covers.{valid_span_iff}

mem-word_spans :
    (d : StringDecompositionAutomaton) (o : Option (List ℕ)) (q : Span)
    → Memᴰ q (word_spans d o)
      ↔ ((i : ℕ) × Memᴰ i (listed o) × (q ≡ record { start = i; end = i + 1 }))
unfolding word_spans
mem-word_spans d none q = (λ m. absurd (not-mem-nil q m), λ (i, m, _). absurd (not-mem-nil i m))
mem-word_spans d (some positions) q = mem-map (λ i. record { start = i; end = i + 1 }) positions q

-- The positions of a word in a decomposition automaton.
pub mem-decompose :
    (a : StringAlgebra) (xs : List Symbol) (f : Symbol) (q : Span)
    → Memᴰ q (word_spans (decompose a xs) (lookup f (index_words 0 xs [])))
      ↔ ((get_elem? xs q.start ≡ some f) × (q.end ≡ q.start + 1))
mem-decompose a xs f q = (
  λ m.
      let (i, at, e) = (mem-word_spans (decompose a xs) (lookup f (index_words 0 xs [])) q).0 m in
      let found = (mem-index_words xs f i).0 at in (rw e found, rw e refl),
  λ (at, e).
      (mem-word_spans (decompose a xs) (lookup f (index_words 0 xs [])) q).1
        (q.start, (mem-index_words xs f q.start).1 at, ground arith),
)

module _ (a : StringAlgebra) (xs : List Symbol) where
  pub step-word :
      (f : Symbol) (q : Span)
      → (f == a.concat) ≡ false
      → Memᴰ q (step (decompose a xs) f [])
        ↔ ((get_elem? xs q.start ≡ some f) × (q.end ≡ q.start + 1))
  unfolding step decompose new_automaton
  step-word f q e = rw e (mem-decompose a xs f q)

  pub step-joins :
      (f : Symbol) (l r q : Span)
      → (f == a.concat) ≡ true
      → Memᴰ q (step (decompose a xs) f (l ∷ r ∷ []))
        ↔ ((joins (decompose a xs) l r ≡ true) × (q ≡ record { start = l.start; end = r.end }))
  unfolding step decompose new_automaton
  step-joins f l r q e =
      rw e (ground (arith, mem-cons q (record { start = l.start; end = r.end }) [], not-mem-nil q))

  pub joins_iff :
      (l r : Span)
      → (joins (decompose a xs) l r ≡ true)
        ↔ ((l.start < l.end) × (l.end ≡ r.start) × (r.start < r.end) × (r.end ≤ length xs))
  unfolding joins decompose new_automaton
  joins_iff l r =
      ground (arith, valid_span_iff (decompose a xs) l, valid_span_iff (decompose a xs) r)

  -- The transitions are those of a word and of a concatenation.
  pub data Shape (f : Symbol) : List Span → Type 0 where
    word : (f == a.concat) ≡ false → Shape f []
    pair : {l r : Span} → (f == a.concat) ≡ true → Shape f (l ∷ r ∷ [])

  pub step-Shape :
      (f : Symbol) (qs : List Span) (q : Span) → Memᴰ q (step (decompose a xs) f qs) → Shape f qs
  unfolding step decompose new_automaton
  step-Shape f [] q m = elim (Bool-cases (f == a.concat)) [
    | inl here ↦ absurd (not-mem-nil q (rw here at m))
    | inr other ↦ word other
  ]
  step-Shape f (l ∷ []) q m = elim (Bool-cases (f == a.concat)) [
    | inl here ↦ absurd (not-mem-nil q (rw here at m))
    | inr other ↦ absurd (not-mem-nil q (rw other at m))
  ]
  step-Shape f (l ∷ r ∷ []) q m = elim (Bool-cases (f == a.concat)) [
    | inl here ↦ pair here
    | inr other ↦ absurd (not-mem-nil q (rw other at m))
  ]
  step-Shape f (l ∷ r ∷ x ∷ qs) q m = elim (Bool-cases (f == a.concat)) [
    | inl here ↦ absurd (not-mem-nil q (rw here at m))
    | inr other ↦ absurd (not-mem-nil q (rw other at m))
  ]

  pub word-not_concat : (f : Symbol) → ¬ Memᴰ a.concat xs → Memᴰ f xs → (f == a.concat) ≡ false
  word-not_concat f h m = elim (Bool-cases (f == a.concat)) [
    | inl here ↦
        let same : f ≡ a.concat = (nat_eq.same_iff f a.concat).0 here in
        absurd (h (subst (λ s. Memᴰ s xs) same m))
    | inr other ↦ other
  ]
