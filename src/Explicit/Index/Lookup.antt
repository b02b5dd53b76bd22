-- ===== src/Explicit/Index/Lookup.antt =====
-- The four tables of an automaton answer a query like a scan of its rules.
use rusty_alto.Base.{
  Distinct, Distinct-concat, ◌≡◌, refl, ◌↔◌, ◌⊎◌, inl, inr, Bool, true, false, ◌&&◌, List, [], ◌∷◌,
  Memᴰ, Option, none, some, ◌==◌, nat_eq, list_eq, pair_eq, contains_iff, arith, Bool-cases,
  if◌then◌else◌, Eq, ap, sym, ◌∙◌, ⊎_elim, list_beq_iff, mem-cons, mem-append, not-mem-nil,
}
use mathlib.Core.List.Memᴰ
use mathlib.Core.Option.{get_or as option_or}
use rusty_alto.Base.Assoc.{Assoc, lookup, entry, lookup-entry}
use rusty_alto.Ids.{StateId, Symbol}
use rusty_alto.Traits.Views.{IsDet}
use rusty_alto.Explicit.Types.{StoredRule, Explicit}
use rusty_alto.Explicit.Index.{
  BottomUpIndexes, Results, push_result, index_rule, lookup_results, index_rules, empty_indexes,
  bottom_up_indexes, step, step_det, only, explicit_det,
}

-- The results that a query has in the tables, none as the empty list.
abbrev pub results_of : Option Results → Results
results_of none = []
results_of (some results) = results

results_of-entry {ℓ} :
    {K : Type ℓ} ⦃e : Eq K⦄ (k j : K) (q : StateId) (m : Assoc K Results)
    → results_of (lookup j (entry k [] (push_result q) m))
      ≡ (if k == j then push_result q (results_of (lookup j m)) else results_of (lookup j m))
results_of-entry ⦃e⦄ k j q m = rw lookup-entry (elim (Bool-cases (k == j)) [
  | inl same ↦
      let equal : k ≡ j = (e.same_iff k j).0 same in rw (same, ← equal) (or_empty (lookup k m))
  | inr other ↦ rw other
])
  where
    or_empty :
        (o : Option Results)
        → results_of (some (push_result q (option_or o []))) ≡ push_result q (results_of o)
    or_empty none = refl
    or_empty (some r) = refl

-- Indexing a rule changes the results of its own symbol and children, and no others.
results_of-index_rule :
    (f : Symbol) (cs : List StateId) (q : StateId) (ix : BottomUpIndexes) (g : Symbol)
    (ds : List StateId)
    → results_of (lookup_results (index_rule f cs q ix) g ds) ≡ (
        if (f == g) && (cs == ds)
        then push_result q (results_of (lookup_results ix g ds))
        else results_of (lookup_results ix g ds))
unfolding lookup_results index_rule
results_of-index_rule f [] q ix g [] = ground (arith, results_of-entry f g q ix.nullary)
results_of-index_rule f [] q ix g (d ∷ []) = ground arith
results_of-index_rule f [] q ix g (d ∷ d' ∷ []) = ground arith
results_of-index_rule f [] q ix g (d ∷ d' ∷ d'' ∷ ds) = ground arith
results_of-index_rule f (c ∷ []) q ix g [] = ground arith
results_of-index_rule f (c ∷ []) q ix g (d ∷ []) =
    ground (arith, results_of-entry (f, c) (g, d) q ix.unary)
results_of-index_rule f (c ∷ []) q ix g (d ∷ d' ∷ []) = ground arith
results_of-index_rule f (c ∷ []) q ix g (d ∷ d' ∷ d'' ∷ ds) = ground arith
results_of-index_rule f (c ∷ c' ∷ []) q ix g [] = ground arith
results_of-index_rule f (c ∷ c' ∷ []) q ix g (d ∷ []) = ground arith
results_of-index_rule f (c ∷ c' ∷ []) q ix g (d ∷ d' ∷ []) =
    ground (arith, results_of-entry (f, (c, c')) (g, (d, d')) q ix.binary)
results_of-index_rule f (c ∷ c' ∷ []) q ix g (d ∷ d' ∷ d'' ∷ ds) = ground arith
results_of-index_rule f (c ∷ c' ∷ c'' ∷ cs) q ix g [] = ground arith
results_of-index_rule f (c ∷ c' ∷ c'' ∷ cs) q ix g (d ∷ []) = ground arith
results_of-index_rule f (c ∷ c' ∷ c'' ∷ cs) q ix g (d ∷ d' ∷ []) = ground arith
results_of-index_rule f (c ∷ c' ∷ c'' ∷ cs) q ix g (d ∷ d' ∷ d'' ∷ ds) =
    results_of-entry (f, c ∷ c' ∷ c'' ∷ cs) (g, d ∷ d' ∷ d'' ∷ ds) q ix.higher

push_result-Distinct : (q : StateId) (qs : List StateId) → Distinct qs → Distinct (push_result q qs)
unfolding push_result
push_result-Distinct q qs d =
    ground (arith, contains_iff qs q, λ (h : ¬ Memᴰ q qs). Distinct-concat q qs d h)

Distinct-either :
    (b : Bool) (xs ys : Results) → Distinct xs → Distinct ys → Distinct (if b then xs else ys)
Distinct-either true xs ys x y = x
Distinct-either false xs ys x y = y

-- No table of the empty index answers.
results_of-empty :
    (f : Symbol) (cs : List StateId) → results_of (lookup_results empty_indexes f cs) ≡ []
unfolding lookup_results lookup
results_of-empty f [] = refl
results_of-empty f (c ∷ []) = refl
results_of-empty f (c ∷ d ∷ []) = refl
results_of-empty f (c ∷ d ∷ e ∷ cs) = refl

-- A state is the only one of a list without repetition exactly if the list holds it alone.
only_iff :
    (qs : Results) (q : StateId)
    → Distinct qs
    → (only qs ≡ some q) ↔ (Memᴰ q qs × ((p : StateId) → Memᴰ p qs → p ≡ q))
only_iff [] q d = (λ h. cc, λ h. absurd (not-mem-nil q h.0))
only_iff (p ∷ []) q d = (
  λ h.
      let same : p ≡ q = ground arith in
      (rw same (Memᴰ.head refl), λ r m. Memᴰ.eq_of_singleton m ∙ same),
  λ h. ap some (h.1 p (Memᴰ.head refl)),
)
only_iff (p ∷ r ∷ qs) q d = (
  λ h. cc,
  λ h. absurd (d.0 (Memᴰ.head (h.1 p (Memᴰ.head refl) ∙ sym (h.1 r (Memᴰ.tail (Memᴰ.head refl)))))),
)

mem-push_result :
    (p q : StateId) (qs : List StateId) → Memᴰ p (push_result q qs) ↔ ((p ≡ q) ⊎ Memᴰ p qs)
unfolding push_result
mem-push_result p q qs =
    ground (arith, contains_iff qs q, mem-append p qs (q ∷ []), mem-cons p q [], not-mem-nil p)

module _ {ℓ} {W : Type ℓ} where
  -- The rules hold `f(children) -> q`.
  abbrev pub HasRule : List (StoredRule W) → Symbol → List StateId → StateId → Type ℓ
  HasRule rs f cs q =
      (r : StoredRule W) × Memᴰ r rs × (r.symbol ≡ f) × (r.children ≡ cs) × (r.result ≡ q)

  not-HasRule-nil : (f : Symbol) (cs : List StateId) (q : StateId) → ¬ HasRule [] f cs q
  not-HasRule-nil f cs q (r, m, _, _, _) = not-mem-nil r m

  HasRule-cons :
      (r : StoredRule W) (rs : List (StoredRule W)) (f : Symbol) (cs : List StateId) (q : StateId)
      → HasRule (r ∷ rs) f cs q
        ↔ (((r.symbol ≡ f) × (r.children ≡ cs) × (r.result ≡ q)) ⊎ HasRule rs f cs q)
  HasRule-cons r rs f cs q = (
    λ (s, m, e₁, e₂, e₃).
        ⊎_elim (λ same. inl (rw (← same) (e₁, e₂, e₃))) (λ old. inr (s, old, e₁, e₂, e₃))
          ((mem-cons s r rs).0 m),
    ⊎_elim (λ (e₁, e₂, e₃). (r, (mem-cons r r rs).1 (inl refl), e₁, e₂, e₃))
        (λ (s, m, e₁, e₂, e₃). (s, (mem-cons s r rs).1 (inr m), e₁, e₂, e₃)),
  )

  mem-index_rules :
      (ix : BottomUpIndexes) (rs : List (StoredRule W)) (f : Symbol) (cs : List StateId)
      (q : StateId)
      → Memᴰ q (results_of (lookup_results (index_rules ix rs) f cs))
        ↔ (Memᴰ q (results_of (lookup_results ix f cs)) ⊎ HasRule rs f cs q)
  unfolding index_rules
  mem-index_rules ix [] f cs q = (inl, ⊎_elim (λ m. m) (λ h. absurd (not-HasRule-nil f cs q h)))
  mem-index_rules ix (r ∷ rs) f cs q = ground (
    arith,
    mem-index_rules (index_rule r.symbol r.children r.result ix) rs f cs q,
    results_of-index_rule r.symbol r.children r.result ix f cs,
    mem-push_result q r.result (results_of (lookup_results ix f cs)),
    HasRule-cons r rs f cs q,
    list_beq_iff r.children cs,
  )

  index_rules-Distinct :
      (ix : BottomUpIndexes) (rs : List (StoredRule W)) (f : Symbol) (cs : List StateId)
      → Distinct (results_of (lookup_results ix f cs))
      → Distinct (results_of (lookup_results (index_rules ix rs) f cs))
  unfolding index_rules
  index_rules-Distinct ix [] f cs d = d
  index_rules-Distinct ix (r ∷ rs) f cs d =
      index_rules-Distinct (index_rule r.symbol r.children r.result ix) rs f cs (
        rw results_of-index_rule (
          Distinct-either _ _ _
            (push_result-Distinct r.result (results_of (lookup_results ix f cs)) d) d))

  step-eq-results :
      (a : Explicit W) (f : Symbol) (cs : List StateId)
      → step a f cs ≡ results_of (lookup_results (bottom_up_indexes a) f cs)
  unfolding step
  step-eq-results a f cs = ground arith

  -- `step` reports a state exactly if a rule with this symbol and these children has it as its
  -- result, and reports no state twice.
  pub step_iff :
      (a : Explicit W) (f : Symbol) (cs : List StateId)
      → ((q : StateId) → Memᴰ q (step a f cs) ↔ HasRule a.rules f cs q) × Distinct (step a f cs)
  unfolding bottom_up_indexes
  step_iff a f cs = rw step-eq-results (
    λ q.
        let found = mem-index_rules empty_indexes a.rules f cs q in
        (
          λ m.
              ⊎_elim (λ none_there. absurd (not-mem-nil q (rw results_of-empty at none_there)))
                (λ h. h) (found.0 m),
          λ h. found.1 (inr h),
        ),
    index_rules-Distinct empty_indexes a.rules f cs (rw results_of-empty tt),
  )

  step_det-eq-only :
      (a : Explicit W) (f : Symbol) (cs : List StateId) → step_det a f cs ≡ only (step a f cs)
  unfolding step step_det
  step_det-eq-only a f cs = ground arith

  -- `step_det` returns a state exactly if it is the only result of the rules with this symbol and
  -- these children. With several results it returns none, as it does with none.
  pub step_det_iff :
      (a : Explicit W) (f : Symbol) (cs : List StateId) (q : StateId)
      → (step_det a f cs ≡ some q)
        ↔ (HasRule a.rules f cs q × ((p : StateId) → HasRule a.rules f cs p → p ≡ q))
  step_det_iff a f cs q =
      let (found, distinct) = step_iff a f cs in
      let unique = only_iff (step a f cs) q distinct in
      rw step_det-eq-only (
        λ h. ((found q).0 (unique.0 h).0, λ p r. (unique.0 h).1 p ((found p).1 r)),
        λ h. unique.1 ((found q).1 h.0, λ p m. h.1 p ((found p).0 m)),
      )

  -- `step_det` of an explicit automaton returns the only state that `step` reports, and none when
  -- it reports none or several.
  pub explicit-IsDet : (a : Explicit W) → IsDet (explicit_det a)
  unfolding IsDet
  explicit-IsDet a f cs q =
      let (found, distinct) = step_iff a f cs in
      rw step_det-eq-only (only_iff (step a f cs) q distinct)
