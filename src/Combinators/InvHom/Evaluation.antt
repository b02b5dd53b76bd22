-- ===== src/Combinators/InvHom/Evaluation.antt =====
-- `eval_term` reports the states that an image term receives when its variables have given states.
use rusty_alto.Base.{
  ℕ, ◌≡◌, refl, sym, ap, ◌↔◌, ⊎_elim, List, [], ◌∷◌, Memᴰ, mem-cons, not-mem-nil, Option, none,
  some, get_elem?,
}
use rusty_alto.Base.Flat.{flat_map, mem-flat_map}
use rusty_alto.Ids.{Symbol}
use rusty_alto.Traits.{BottomUpTa}
use rusty_alto.Run.Tuples.Odometer.{tuples}
use rusty_alto.Run.Tuples.Enumeration.{cartesian_product-eq-tuples}
use rusty_alto.Combinators.Determinized.Language.{RowIn, row_nil, row_cons, row_of_mem, mem_of_row}
use rusty_alto.Homomorphism.Rhs.{HomTerm, HomTerms, var, symbol, no_terms, and_term}
use rusty_alto.Combinators.InvHom.{add_pool, combine, child_state, eval_term, eval_terms}

module _ {ℓ} {S : Type ℓ} (inner : BottomUpTa S) where
  mutual
    -- The root of an image term may receive a state, if the variables have the states given.
    pub data Receives (σ : ℕ → Option S) : HomTerm → S → Type ℓ where
      at_var : {i : ℕ} {q : S} → σ i ≡ some q → Receives σ (var i) q
      at_symbol :
          {f : Symbol} {ts : HomTerms} {qs : List S} {q : S}
          → ReceivesAll σ ts qs
          → Memᴰ q (inner.step f qs)
          → Receives σ (symbol f ts) q

    pub data ReceivesAll (σ : ℕ → Option S) : HomTerms → List S → Type ℓ where
      at_none : ReceivesAll σ no_terms []
      at_more :
          {t : HomTerm} {ts : HomTerms} {q : S} {qs : List S}
          → Receives σ t q
          → ReceivesAll σ ts qs
          → ReceivesAll σ (and_term t ts) (q ∷ qs)

  -- The pools hold the rows of states that the terms may receive.
  data Pools : Option (List (List S)) → List S → Type ℓ where
    in_pools : {pools : List (List S)} {cs : List S} → RowIn cs pools → Pools (some pools) cs

  add_pool-Pools :
      (states : List S) (pools : Option (List (List S))) (q : S) (qs : List S)
      → Pools (add_pool states pools) (q ∷ qs) ↔ (Memᴰ q states × Pools pools qs)
  add_pool-Pools [] pools q qs = (λ p. elim p [ ], λ h. absurd (not-mem-nil q h.0))
  add_pool-Pools (s ∷ states) none q qs = (λ p. elim p [ ], λ h. elim h.1 [ ])
  add_pool-Pools (s ∷ states) (some pools) q qs = (λ p. split p, λ h. join h.0 h.1)
    where
      split :
          Pools (some ((s ∷ states) ∷ pools)) (q ∷ qs) → Memᴰ q (s ∷ states) × Pools (some pools) qs
      split (in_pools (row_cons m row)) = (m, in_pools row)

      join :
          Memᴰ q (s ∷ states) → Pools (some pools) qs → Pools (some ((s ∷ states) ∷ pools)) (q ∷ qs)
      join m (in_pools row) = in_pools (row_cons m row)

  no-Pools : (states : List S) (pools : Option (List (List S))) → ¬ Pools (add_pool states pools) []
  no-Pools [] pools p = elim p [ ]
  no-Pools (s ∷ states) none p = elim p [ ]
  no-Pools (s ∷ states) (some pools) (in_pools row) = elim row [ ]

  combine_lem :
      (f : Symbol) (pools : Option (List (List S)))
      → (states : List S) × (combine inner f pools ≡ some states)
        × ((q : S) → Memᴰ q states ↔ ((qs : List S) × Pools pools qs × Memᴰ q (inner.step f qs)))
  unfolding combine
  combine_lem f none = ([], refl, λ q. (λ m. absurd (not-mem-nil q m), λ (qs, p, _). elim p [ ]))
  combine_lem f (some pools) =
      let found = mem-flat_map (λ combo. inner.step f combo) (tuples pools) in
      (
        flat_map (λ combo. inner.step f combo) (tuples pools),
        rw (cartesian_product-eq-tuples pools) refl,
        λ q. (
          λ m. let (qs, at, n) = (found q).0 m in (qs, in_pools (row_of_mem pools qs at), n),
          λ (qs, p, n). (found q).1 (qs, row qs p, n),
        ),
      )
    where
      row : (qs : List S) → Pools (some pools) qs → Memᴰ qs (tuples pools)
      row qs (in_pools r) = mem_of_row r

  mem-child_state : (o : Option S) (q : S) → Memᴰ q (child_state o) ↔ (o ≡ some q)
  mem-child_state none q = (λ m. absurd (not-mem-nil q m), λ h. cc)
  mem-child_state (some p) q = (
    λ m.
        ⊎_elim (λ (e : q ≡ p). ap some (sym e)) (λ never. absurd (not-mem-nil q never))
          ((mem-cons q p []).0 m),
    λ h. Memᴰ.head (let same : p ≡ q = cc in sym same),
  )

  module _ (σ : ℕ → Option S) where
    given : (i : ℕ) (q : S) → Receives σ (var i) q → σ i ≡ some q
    given i q (at_var e) = e

    only : (f : Symbol) (q : S) → Receives σ (symbol f no_terms) q → Memᴰ q (inner.step f [])
    only f q (at_symbol at_none m) = m

    pub under :
        (f : Symbol) (ts : HomTerms) (q : S)
        → Receives σ (symbol f ts) q
        → (qs : List S) × ReceivesAll σ ts qs × Memᴰ q (inner.step f qs)
    under f ts q (at_symbol {qs = qs} below m) = (qs, below, m)

    nothing : (qs : List S) → Pools (some []) qs ↔ ReceivesAll σ no_terms qs
    nothing qs = (λ p. there qs p, λ r. back qs r)
      where
        there : (qs : List S) → Pools (some []) qs → ReceivesAll σ no_terms qs
        there [] p = at_none
        there (q ∷ qs) (in_pools row) = elim row [ ]

        back : (qs : List S) → ReceivesAll σ no_terms qs → Pools (some []) qs
        back [] r = in_pools row_nil
        back (q ∷ qs) r = elim r [ ]

    module _ (t : HomTerm) (ts : HomTerms) (states : List S) (pools : Option (List (List S)))
        (first : (q : S) → Memᴰ q states ↔ Receives σ t q)
        (rest : (qs : List S) → Pools pools qs ↔ ReceivesAll σ ts qs) where
      rows : (qs : List S) → Pools (add_pool states pools) qs → ReceivesAll σ (and_term t ts) qs
      rows [] p = absurd (no-Pools states pools p)
      rows (q ∷ qs) p =
          let (m, below) = (add_pool-Pools states pools q qs).0 p in
          at_more ((first q).0 m) ((rest qs).0 below)

      pooled : (qs : List S) → ReceivesAll σ (and_term t ts) qs → Pools (add_pool states pools) qs
      pooled [] r = elim r [ ]
      pooled (q ∷ qs) (at_more one more) =
          (add_pool-Pools states pools q qs).1 ((first q).1 one, (rest qs).1 more)

  module _ (cs : List S) where
    mutual
      unfolding eval_term

      -- `eval_term` returns, and reports exactly the states that the term may receive.
      pub eval_term_lem :
          (t : HomTerm)
          → (states : List S) × (eval_term inner t cs ≡ some states)
            × ((q : S) → Memᴰ q states ↔ Receives (λ i. get_elem? cs i) t q)
      eval_term_lem (var i) = (
        child_state (get_elem? cs i),
        refl,
        λ q. (
          λ m. at_var ((mem-child_state (get_elem? cs i) q).0 m),
          λ r. (mem-child_state (get_elem? cs i) q).1 (given (λ i. get_elem? cs i) i q r),
        ),
      )
      eval_term_lem (symbol f no_terms) = (
        inner.step f [],
        refl,
        λ q. (λ m. at_symbol at_none m, λ r. only (λ i. get_elem? cs i) f q r),
      )
      eval_term_lem (symbol f (and_term t ts)) =
          let (states, runs₁, first) = eval_term_lem t in
          let (pools, runs₂, rest) = eval_terms_lem ts in
          let (all, runs₃, found) = combine_lem f (add_pool states pools) in
          (
            all,
            rw runs₁ (rw runs₂ runs₃),
            λ q. (
              λ m.
                  let (qs, p, n) = (found q).0 m in
                  at_symbol (rows (λ i. get_elem? cs i) t ts states pools first rest qs p) n,
              λ r.
                  let (qs, below, n) = under (λ i. get_elem? cs i) f (and_term t ts) q r in
                  (found q).1
                    (qs, pooled (λ i. get_elem? cs i) t ts states pools first rest qs below, n),
            ),
          )

      eval_terms_lem :
          (ts : HomTerms)
          → (pools : Option (List (List S))) × (eval_terms inner ts cs ≡ some pools)
            × ((qs : List S) → Pools pools qs ↔ ReceivesAll (λ i. get_elem? cs i) ts qs)
      eval_terms_lem no_terms = (some [], refl, λ qs. nothing (λ i. get_elem? cs i) qs)
      eval_terms_lem (and_term t ts) =
          let (states, runs₁, first) = eval_term_lem t in
          let (pools, runs₂, rest) = eval_terms_lem ts in
          (
            add_pool states pools,
            rw runs₁ (rw runs₂ refl),
            λ qs. (
              λ p. rows (λ i. get_elem? cs i) t ts states pools first rest qs p,
              λ r. pooled (λ i. get_elem? cs i) t ts states pools first rest qs r,
            ),
          )
