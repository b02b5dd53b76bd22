-- ===== src/Algebras/Strings/Unique.antt =====
-- `step_det` of the decomposition automaton agrees with its steps.
use rusty_alto.Base.{
  ℕ, ◌+◌, ◌≡◌, refl, sym, ap, ◌∙◌, subst, ◌↔◌, ⊎_elim, inl, inr, List, [], ◌∷◌, Memᴰ, mem-cons,
  not-mem-nil, Option, none, some, ◌==◌, nat_eq, Bool-cases, Distinct,
}
use rusty_alto.Base.Assoc.{lookup, listed}
use rusty_alto.Ids.{Symbol}
use rusty_alto.Traits.Views.{IsDet}
use rusty_alto.Algebras.Strings.{
  Span, StringAlgebra, decompose, new_automaton, index_words, joins, word_spans, step, automaton,
  step_det, only_position,
}
use rusty_alto.Algebras.Strings.Positions.{places, index_words-eq-places, places-Distinct}

module _ (a : StringAlgebra) (xs : List Symbol) where
  only_iff :
      (s q : Span) → (some s ≡ some q) ↔ (Memᴰ q (s ∷ []) × ((p : Span) → Memᴰ p (s ∷ []) → p ≡ q))
  only_iff s q = (
    λ k.
        let same : s ≡ q = cc in
        (
          Memᴰ.head (sym same),
          λ p m.
              ⊎_elim (λ at. at ∙ same) (λ never. absurd (not-mem-nil p never))
                ((mem-cons p s []).0 m),
        ),
    λ (m, only). ap some (only s (Memᴰ.head refl)),
  )

  word_spans-det :
      (f : Symbol) (ps : List ℕ) (o : Option (List ℕ)) (q : Span)
      → listed o ≡ ps
      → Distinct ps
      → (only_position (decompose a xs) o ≡ some q) ↔ (
          Memᴰ q (word_spans (decompose a xs) o)
          × ((p : Span) → Memᴰ p (word_spans (decompose a xs) o) → p ≡ q))
  unfolding only_position word_spans
  word_spans-det f ps none q e h = (λ k. cc, λ k. absurd (not-mem-nil q k.0))
  word_spans-det f ps (some []) q e h = (λ k. cc, λ k. absurd (not-mem-nil q k.0))
  word_spans-det f ps (some (i ∷ [])) q e h =
      let here : Span = record { start = i; end = i + 1 } in only_iff here q
  word_spans-det f ps (some (i ∷ j ∷ is)) q e h = (
    λ k. cc,
    λ (m, only).
        let first = only (record { start = i; end = i + 1 }) (Memᴰ.head refl) in
        let second = only (record { start = j; end = j + 1 }) (Memᴰ.tail (Memᴰ.head refl)) in
        let same : i ≡ j = ap (λ s. s.start) (first ∙ sym second) in
        absurd ((subst Distinct (sym e) h).0 (Memᴰ.head same)),
  )

  -- `step_det` returns the only span that `step` reports, and none if there is no such span.
  pub decompose-IsDet :
      IsDet (record { oracle = automaton (decompose a xs); step_det = step_det (decompose a xs) })
  unfolding IsDet step_det step decompose new_automaton
  decompose-IsDet f [] q = elim (Bool-cases (f == a.concat)) [
    | inl here ↦ rw here (λ k. cc, λ k. absurd (not-mem-nil q k.0))
    | inr other ↦ rw other (
        word_spans-det f (places 0 xs f) (lookup f (index_words 0 xs [])) q
          (index_words-eq-places xs f) (places-Distinct 0 xs f))
  ]
  decompose-IsDet f (l ∷ []) q = elim (Bool-cases (f == a.concat)) [
    | inl here ↦ rw here (λ k. cc, λ k. absurd (not-mem-nil q k.0))
    | inr other ↦ rw other (λ k. cc, λ k. absurd (not-mem-nil q k.0))
  ]
  decompose-IsDet f (l ∷ r ∷ []) q = elim (Bool-cases (f == a.concat)) [
    | inl here ↦ elim (Bool-cases (joins (decompose a xs) l r)) [
      | inl meet ↦ rw (here, meet) (only_iff (record { start = l.start; end = r.end }) q)
      | inr apart ↦ rw (here, apart) (λ k. cc, λ k. absurd (not-mem-nil q k.0))
    ]
    | inr other ↦ rw other (λ k. cc, λ k. absurd (not-mem-nil q k.0))
  ]
  decompose-IsDet f (l ∷ r ∷ x ∷ cs) q = elim (Bool-cases (f == a.concat)) [
    | inl here ↦ rw here (λ k. cc, λ k. absurd (not-mem-nil q k.0))
    | inr other ↦ rw other (λ k. cc, λ k. absurd (not-mem-nil q k.0))
  ]
