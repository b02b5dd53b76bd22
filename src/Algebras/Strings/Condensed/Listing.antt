-- ===== src/Algebras/Strings/Condensed/Listing.antt =====
-- The condensed rules are the transitions.
use rusty_alto.Base.{
  ℕ, suc, ◌+◌, ◌-◌, ◌≤◌, ◌<◌, ◌≡◌, refl, sym, ap, ◌∙◌, subst, ◌↔◌, ◌⊎◌, ⊎_elim, inl, inr, true,
  false, List, [], ◌∷◌, Memᴰ, mem-cons, mem-append, not-mem-nil, Option, some, arith, ◌==◌, nat_eq,
  nat_beq_iff, get_elem?, mem_of_get_elem?, Bool-cases, map,
}
use rusty_alto.Base.Flat.{mem-flat_map, mem-map}
use rusty_alto.Base.Ranges.{range, mem-range}
use rusty_alto.Ids.{Symbol}
use rusty_alto.Algebras.Strings.{
  Span, StringAlgebra, StringDecompositionAutomaton, decompose, new_automaton, len, step,
}
use rusty_alto.Algebras.Strings.Steps.{
  Shape, word, pair, step-word, step-joins, joins_iff, step-Shape, word-not_concat,
}
use rusty_alto.Algebras.Strings.Condensed.{
  CondensedRule, lexical_rules, concat_rule, rules_from, concat_rules, condensed_rules,
}

mem-lexical_rules :
    (i : ℕ) (xs : List Symbol) (cs : List Span) (fs : List Symbol) (q : Span)
    → Memᴰ {A = CondensedRule} (cs, fs, q) (lexical_rules i xs) ↔ (
        (f : Symbol) × (cs ≡ [])
        × (fs ≡ f ∷ [])
        × (i ≤ q.start)
        × (q.end ≡ q.start + 1)
        × (get_elem? xs (q.start - i) ≡ some f))
unfolding lexical_rules
mem-lexical_rules i [] cs fs q =
    (λ m. absurd (not-mem-nil {A = CondensedRule} (cs, fs, q) m), λ (f, _, _, _, _, at). cc)
mem-lexical_rules i (x ∷ xs) cs fs q =
    let rest = mem-lexical_rules (suc i) xs cs fs q in
    let here : CondensedRule = ([], x ∷ [], record { start = i; end = i + 1 }) in
    (
      λ m.
          ⊎_elim
            (λ (e : (cs, fs, q) ≡ here).
              let span : q ≡ record { start = i; end = i + 1 } = ap (λ z. z.2) e in
              let begins : q.start ≡ i = ap (λ s. s.start) span in
              let ends : q.end ≡ i + 1 = ap (λ s. s.end) span in
              let zeroth : q.start - i ≡ 0 = omega arith in
              (x, ap (λ z. z.0) e, ap (λ z. z.1) e, omega arith, omega arith, rw zeroth refl))
            (λ n.
              let (f, e₁, e₂, low, size, at) = rest.0 n in
              let next : q.start - i ≡ suc (q.start - suc i) = omega arith in
              (f, e₁, e₂, omega arith, size, rw next at))
            ((mem-cons {A = CondensedRule} (cs, fs, q) here (lexical_rules (suc i) xs)).0 m),
      λ (f, e₁, e₂, low, size, at). elim (Bool-cases (q.start == i)) [
        | inl first ↦
            let begins : q.start ≡ i = (nat_beq_iff q.start i).0 first in
            let zeroth : q.start - i ≡ 0 = omega arith in
            let same : x ≡ f = (let both : Option.some x ≡ some f = rw zeroth at at in cc) in
            let span : q ≡ record { start = i; end = i + 1 } = ground arith in Memᴰ.head cc
        | inr later ↦
            let beyond : suc i ≤ q.start = ground arith in
            let next : q.start - i ≡ suc (q.start - suc i) = omega arith in
            Memᴰ.tail (rest.1 (f, e₁, e₂, beyond, size, rw next at at))
      ],
    )

mem-concat_rules :
    (d : StringDecompositionAutomaton) (cs : List Span) (fs : List Symbol) (q : Span)
    → Memᴰ {A = CondensedRule} (cs, fs, q) (concat_rules d) ↔ (
        (l : Span) × (r : Span) × (cs ≡ l ∷ r ∷ [])
        × (fs ≡ d.concat ∷ [])
        × ((l.start < l.end) × (l.end ≡ r.start) × (r.start < r.end) × (r.end ≤ len d))
        × (q ≡ record { start = l.start; end = r.end }))
unfolding concat_rules rules_from concat_rule
mem-concat_rules d cs fs q = (
  λ m.
      let (start, in₁, m₁) = (mem-flat_map (rules_from d) (range 0 (len d)) (cs, fs, q)).0 m in
      let (split, in₂, m₂) =
        (mem-flat_map (λ split. map (concat_rule d start split) (range (split + 1) (len d + 1)))
            (range (start + 1) (len d)) (cs, fs, q)).0
          m₁ in
      let (end, in₃, e) =
        (mem-map (concat_rule d start split) (range (split + 1) (len d + 1)) (cs, fs, q)).0 m₂ in
      let (low₂, high₂) = (mem-range split (start + 1) (len d)).0 in₂ in
      let (low₃, high₃) = (mem-range end (split + 1) (len d + 1)).0 in₃ in
      (
        record { start = start; end = split },
        record { start = split; end = end },
        ap (λ z. z.0) e,
        ap (λ z. z.1) e,
        (omega arith, refl, omega arith, omega arith),
        ap (λ z. z.2) e,
      ),
  λ (l, r, e₁, e₂, (h₁, meet, h₂, h₃), e₃).
      (mem-flat_map (rules_from d) (range 0 (len d)) (cs, fs, q)).1 (
        l.start,
        (mem-range l.start 0 (len d)).1 (omega arith, omega arith),
        (mem-flat_map (λ split. map (concat_rule d l.start split) (range (split + 1) (len d + 1)))
              (range (l.start + 1) (len d)) (cs, fs, q)).1
            (
              r.start,
              (mem-range r.start (l.start + 1) (len d)).1 (omega arith, omega arith),
              (mem-map (concat_rule d l.start r.start) (range (r.start + 1) (len d + 1))
                    (cs, fs, q)).1
                  (
                    r.end,
                    (mem-range r.end (r.start + 1) (len d + 1)).1 (omega arith, omega arith),
                    (let left : l ≡ record { start = l.start; end = r.start } = ground arith in
                        let first : cs ≡ record { start = l.start; end = r.start } ∷ r ∷ [] =
                          e₁ ∙ ap (λ z. z ∷ r ∷ []) left in
                        cc),
                  ),
            ),
      ),
)

module _ (a : StringAlgebra) (xs : List Symbol) (f : Symbol) where
  only_one : (g : Symbol) → Memᴰ f (g ∷ []) → f ≡ g
  only_one g m = ⊎_elim (λ e. e) (λ never. absurd (not-mem-nil f never)) ((mem-cons f g []).0 m)

  lexical_iff :
      (cs : List Span) (q : Span)
      → ¬ Memᴰ a.concat xs
      → ((fs : List Symbol) × Memᴰ {A = CondensedRule} (cs, fs, q) (lexical_rules 0 xs) × Memᴰ f fs)
        ↔ ((cs ≡ []) × ((f == a.concat) ≡ false) × Memᴰ q (step (decompose a xs) f []))
  lexical_iff cs q h =
      let whole : q.start - 0 ≡ q.start = omega arith in
      (
        λ (fs, m, held).
            let (g, e, only, low, size, at) = (mem-lexical_rules 0 xs cs fs q).0 m in
            let same : f ≡ g = only_one g (subst (λ z. Memᴰ f z) only held) in
            let found : get_elem? xs q.start ≡ some f = rw whole at at ∙ ap some (sym same) in
            let other = word-not_concat a xs f h (mem_of_get_elem? xs q.start f found) in
            (e, other, (step-word a xs f q other).1 (found, size)),
        λ (e, other, m).
            let (at, size) = (step-word a xs f q other).0 m in
            (
              f ∷ [],
              (mem-lexical_rules 0 xs cs (f ∷ []) q).1 (f, e, refl, omega arith, size, rw whole at),
              Memᴰ.head refl,
            ),
      )

  concat_iff :
      (cs : List Span) (q : Span)
      → ((fs : List Symbol) × Memᴰ {A = CondensedRule} (cs, fs, q) (concat_rules (decompose a xs))
          × Memᴰ f fs)
        ↔ ((l : Span) × (r : Span) × (cs ≡ l ∷ r ∷ [])
            × ((f == a.concat) ≡ true)
            × Memᴰ q (step (decompose a xs) f (l ∷ r ∷ [])))
  unfolding decompose new_automaton len
  concat_iff cs q = (
    λ (fs, m, held).
        let (l, r, e, only, ordered, result) = (mem-concat_rules (decompose a xs) cs fs q).0 m in
        let same : f ≡ a.concat = only_one a.concat (subst (λ z. Memᴰ f z) only held) in
        let here = (nat_beq_iff f a.concat).1 same in
        (l, r, e, here, (step-joins a xs f l r q here).1 ((joins_iff a xs l r).1 ordered, result)),
    λ (l, r, e, here, m).
        let (joint, result) = (step-joins a xs f l r q here).0 m in
        (
          a.concat ∷ [],
          (mem-concat_rules (decompose a xs) cs (a.concat ∷ []) q).1
              (l, r, e, refl, (joins_iff a xs l r).0 joint, result),
          Memᴰ.head ((nat_beq_iff f a.concat).0 here),
        ),
  )

  all_rules :
      (cs : List Span) (fs : List Symbol) (q : Span)
      → Memᴰ {A = CondensedRule} (cs, fs, q) (condensed_rules (decompose a xs)) ↔ (
          Memᴰ {A = CondensedRule} (cs, fs, q) (lexical_rules 0 xs)
          ⊎ Memᴰ {A = CondensedRule} (cs, fs, q) (concat_rules (decompose a xs)))
  unfolding condensed_rules decompose new_automaton
  all_rules cs fs q =
      mem-append {A = CondensedRule} (cs, fs, q) (lexical_rules 0 xs)
        (concat_rules (decompose a xs))

  -- With no word of the sentence spelled like the concatenation, the condensed rules with a symbol
  -- are exactly the transitions of `step` with this symbol.
  pub condensed_rules_iff :
      (cs : List Span) (q : Span)
      → ¬ Memᴰ a.concat xs
      → ((fs : List Symbol) × Memᴰ {A = CondensedRule}
            (cs, fs, q)
            (condensed_rules (decompose a xs))
          × Memᴰ f fs)
        ↔ Memᴰ q (step (decompose a xs) f cs)
  condensed_rules_iff cs q h = (
    λ (fs, m, held).
        ⊎_elim (λ n. let (e, _, s) = (lexical_iff cs q h).0 (fs, n, held) in rw e s)
          (λ n. let (l, r, e, _, s) = (concat_iff cs q).0 (fs, n, held) in rw e s)
          ((all_rules cs fs q).0 m),
    λ m. found cs (step-Shape a xs f cs q m) m,
  )
    where
      found :
          (cs : List Span)
          → Shape a xs f cs
          → Memᴰ q (step (decompose a xs) f cs)
          → (fs : List Symbol) × Memᴰ {A = CondensedRule}
              (cs, fs, q)
              (condensed_rules (decompose a xs))
            × Memᴰ f fs
      found [] (word other) m =
          let (fs, n, held) = (lexical_iff [] q h).1 (refl, other, m) in
          (fs, (all_rules [] fs q).1 (inl n), held)
      found (l ∷ []) s m = elim s [ ]
      found (l ∷ r ∷ x ∷ cs) s m = elim s [ ]
      found (l ∷ r ∷ []) (pair here) m =
          let (fs, n, held) = (concat_iff (l ∷ r ∷ []) q).1 (l, r, refl, here, m) in
          (fs, (all_rules (l ∷ r ∷ []) fs q).1 (inr n), held)
