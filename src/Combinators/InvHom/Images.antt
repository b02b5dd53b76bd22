-- ===== src/Combinators/InvHom/Images.antt =====
-- The states of an image term against those of the tree it is instantiated to.
use rusty_alto.Base.{
  ℕ, ◌≡◌, refl, sym, ap, ◌∙◌, subst, inl, inr, ⊎_elim, List, [], ◌∷◌, ◌++◌, Memᴰ, mem-cons,
  mem-append, not-mem-nil, Option, none, some, nat_eq, contains, contains_iff, length, get_elem?,
  if◌then◌else◌, Bool-cases, Distinct,
}
use rusty_alto.Base.Result.{ok, >>=-eq-ok}
use rusty_alto.Ids.{Symbol}
use rusty_alto.Term.{Term, Terms, node, nil, cons}
use rusty_alto.Traits.{BottomUpTa}
use rusty_alto.Traits.Runs.{Assigns, AssignsAll, assign, all_nil, all_cons}
use rusty_alto.Homomorphism.Rhs.{HomTerm, HomTerms, var, symbol, no_terms, and_term}
use rusty_alto.Homomorphism.{
  apply_variable_out_of_range, ok_or, collect_vars, collect_all, instantiate, instantiate_all,
}
use rusty_alto.Combinators.InvHom.Evaluation.{
  Receives, ReceivesAll, at_var, at_symbol, at_none, at_more,
}

Distinct-parts {ℓ} :
    {A : Type ℓ} (xs ys : List A)
    → Distinct (xs ++ ys)
    → Distinct xs × Distinct ys × ((a : A) → Memᴰ a xs → ¬ Memᴰ a ys)
Distinct-parts [] ys d = (tt, d, λ a m. absurd (not-mem-nil a m))
Distinct-parts (x ∷ xs) ys (apart, d) =
    let (first, second, disjoint) = Distinct-parts xs ys d in
    (
      (λ m. apart ((mem-append x xs ys).1 (inl m)), first),
      second,
      λ a m n.
          ⊎_elim
            (λ (same : a ≡ x). apart ((mem-append x xs ys).1 (inr (subst (λ z. Memᴰ z ys) same n))))
            (λ later. disjoint a later n) ((mem-cons a x xs).0 m),
    )

module _ {ℓ} {S : Type ℓ} (inner : BottomUpTa S) where
  mutual
    unfolding instantiate

    -- With states that the instances of the variables may receive, the term has an instance, which
    -- may receive what the term does.
    pub instantiate_sound :
        (us : List Term) (σ : ℕ → Option S)
        → ((i : ℕ) (p : S)
            → σ i ≡ some p
            → (u : Term) × (get_elem? us i ≡ some u) × Assigns inner u p)
        → (t : HomTerm) (q : S) → Receives inner σ t q
        → (u : Term) × (instantiate t us ≡ ok u) × Assigns inner u q
    instantiate_sound us σ h (var i) q (at_var e) =
        let (u, at, run) = h i q e in (u, rw at refl, run)
    instantiate_sound us σ h (symbol f ts) q (at_symbol {qs = qs} below m) =
        let (vs, runs, all) = instantiate_all_sound us σ h ts qs below in
        (node f vs, rw runs refl, assign all m)

    pub instantiate_all_sound :
        (us : List Term) (σ : ℕ → Option S)
        → ((i : ℕ) (p : S)
            → σ i ≡ some p
            → (u : Term) × (get_elem? us i ≡ some u) × Assigns inner u p)
        → (ts : HomTerms) (qs : List S) → ReceivesAll inner σ ts qs
        → (vs : Terms) × (instantiate_all ts us ≡ ok vs) × AssignsAll inner vs qs
    instantiate_all_sound us σ h no_terms [] at_none = (nil, refl, all_nil)
    instantiate_all_sound us σ h no_terms (q ∷ qs) r = elim r [ ]
    instantiate_all_sound us σ h (and_term t ts) [] r = elim r [ ]
    instantiate_all_sound us σ h (and_term t ts) (q ∷ qs) (at_more one more) =
        let (v, runs₁, run) = instantiate_sound us σ h t q one in
        let (vs, runs₂, all) = instantiate_all_sound us σ h ts qs more in
        (cons v vs, rw (runs₁, runs₂) refl, all_cons run all)

  mutual
    unfolding collect_vars

    -- Only the states of the variables in it matter to a term.
    pub Receives-agree :
        (σ τ : ℕ → Option S) (t : HomTerm) (q : S)
        → ((i : ℕ) → Memᴰ i (collect_vars t) → σ i ≡ τ i)
        → Receives inner σ t q
        → Receives inner τ t q
    Receives-agree σ τ (var i) q h (at_var e) = at_var (sym (h i (Memᴰ.head refl)) ∙ e)
    Receives-agree σ τ (symbol f ts) q h (at_symbol {qs = qs} below m) =
        at_symbol (ReceivesAll-agree σ τ ts qs h below) m

    pub ReceivesAll-agree :
        (σ τ : ℕ → Option S) (ts : HomTerms) (qs : List S)
        → ((i : ℕ) → Memᴰ i (collect_all ts) → σ i ≡ τ i)
        → ReceivesAll inner σ ts qs
        → ReceivesAll inner τ ts qs
    ReceivesAll-agree σ τ no_terms [] h at_none = at_none
    ReceivesAll-agree σ τ no_terms (q ∷ qs) h r = elim r [ ]
    ReceivesAll-agree σ τ (and_term t ts) [] h r = elim r [ ]
    ReceivesAll-agree σ τ (and_term t ts) (q ∷ qs) h (at_more one more) =
        at_more
          (Receives-agree σ τ t q
            (λ i m. h i ((mem-append i (collect_vars t) (collect_all ts)).1 (inl m))) one)
          (ReceivesAll-agree σ τ ts qs
            (λ i m. h i ((mem-append i (collect_vars t) (collect_all ts)).1 (inr m))) more)

  -- Every variable has a state that its instance may receive.
  abbrev pub Supports : List Term → List ℕ → (ℕ → Option S) → Type ℓ
  Supports us vars σ =
      (i : ℕ)
      → Memᴰ i vars
      → (p : S) × (u : Term) × (σ i ≡ some p) × (get_elem? us i ≡ some u) × Assigns inner u p

  abbrev joined : List ℕ → (ℕ → Option S) → (ℕ → Option S) → ℕ → Option S
  joined vars σ τ i = if contains vars i then σ i else τ i

  joined-left : (vars : List ℕ) (σ τ : ℕ → Option S) (i : ℕ) → Memᴰ i vars → σ i ≡ joined vars σ τ i
  joined-left vars σ τ i m = let hit = (contains_iff vars i).1 m in rw hit refl

  joined-right :
      (vars : List ℕ) (σ τ : ℕ → Option S) (i : ℕ) → ¬ Memᴰ i vars → τ i ≡ joined vars σ τ i
  joined-right vars σ τ i h = elim (Bool-cases (contains vars i)) [
    | inl hit ↦ absurd (h ((contains_iff vars i).0 hit))
    | inr miss ↦ rw miss refl
  ]

  Supports-joined :
      (us : List Term) (xs ys : List ℕ) (σ τ : ℕ → Option S)
      → ((i : ℕ) → Memᴰ i xs → ¬ Memᴰ i ys)
      → Supports us xs σ
      → Supports us ys τ
      → Supports us (xs ++ ys) (joined xs σ τ)
  Supports-joined us xs ys σ τ apart h k i m =
      ⊎_elim
        (λ (n : Memᴰ i xs).
          let (p, u, e, at, run) = h i n in (p, u, sym (joined-left xs σ τ i n) ∙ e, at, run))
        (λ (n : Memᴰ i ys).
          let (p, u, e, at, run) = k i n in
          (p, u, sym (joined-right xs σ τ i (λ l. apart i l n)) ∙ e, at, run))
        ((mem-append i xs ys).0 m)

  ok_or-ok {κ} : {E : Type κ} (o : Option Term) (x : E) (u : Term) → ok_or o x ≡ ok u → o ≡ some u
  ok_or-ok none x u e = cc
  ok_or-ok (some v) x u e = let same : v ≡ u = cc in ap some same

  only_var :
      (us : List Term) (i j : ℕ) (u : Term)
      → Memᴰ j (i ∷ [])
      → get_elem? us i ≡ some u
      → get_elem? us j ≡ some u
  only_var us i j u m at =
      ⊎_elim (λ (e : j ≡ i). rw e at) (λ never. absurd (not-mem-nil j never))
        ((mem-cons j i []).0 m)

  below_node :
      (f : Symbol) (vs : Terms) (q : S)
      → Assigns inner (node f vs) q
      → (qs : List S) × AssignsAll inner vs qs × Memᴰ q (inner.step f qs)
  below_node f vs q (assign {qs = qs} below m) = (qs, below, m)

  mutual
    unfolding instantiate collect_vars

    -- If no variable occurs twice, what an instance may receive comes from states of the variables.
    pub instantiate_complete :
        (us : List Term) (t : HomTerm) (u : Term) (q : S)
        → Distinct (collect_vars t)
        → instantiate t us ≡ ok u
        → Assigns inner u q
        → (σ : ℕ → Option S) × Receives inner σ t q × Supports us (collect_vars t) σ
    instantiate_complete us (var i) u q d e run =
        let at = ok_or-ok (get_elem? us i) (apply_variable_out_of_range i (length us)) u e in
        (λ j. some q, at_var refl, λ j m. (q, u, refl, only_var us i j u m at, run))
    instantiate_complete us (symbol f ts) u q d e run =
        let (vs, runs, done) = >>=-eq-ok (instantiate_all ts us) _ e in
        let same : node f vs ≡ u = cc in
        let (qs, below, m) = below_node f vs q (subst (λ z. Assigns inner z q) (sym same) run) in
        let (σ, r, s) = instantiate_all_complete us ts vs qs d runs below in (σ, at_symbol r m, s)

    pub instantiate_all_complete :
        (us : List Term) (ts : HomTerms) (vs : Terms) (qs : List S)
        → Distinct (collect_all ts)
        → instantiate_all ts us ≡ ok vs
        → AssignsAll inner vs qs
        → (σ : ℕ → Option S) × ReceivesAll inner σ ts qs × Supports us (collect_all ts) σ
    instantiate_all_complete us no_terms nil [] d e all_nil =
        (λ i. none, at_none, λ i m. absurd (not-mem-nil i m))
    instantiate_all_complete us no_terms nil (q ∷ qs) d e run = elim run [ ]
    instantiate_all_complete us no_terms (cons v vs) qs d e run = cc
    instantiate_all_complete us (and_term t ts) nil qs d e run =
        let (w, first, more) = >>=-eq-ok (instantiate t us) _ e in
        let (ws, rest, done) = >>=-eq-ok (instantiate_all ts us) _ more in cc
    instantiate_all_complete us (and_term t ts) (cons v vs) [] d e run = elim run [ ]
    instantiate_all_complete us (and_term t ts) (cons v vs) (q ∷ qs) d e (all_cons one many) =
        let (w, first, more) = >>=-eq-ok (instantiate t us) _ e in
        let (ws, rest, done) = >>=-eq-ok (instantiate_all ts us) _ more in
        let here : instantiate t us ≡ ok v = (let same : w ≡ v = cc in first ∙ ap ok same) in
        let later : instantiate_all ts us ≡ ok vs =
          (let same : ws ≡ vs = cc in rest ∙ ap ok same) in
        let (d₁, d₂, apart) = Distinct-parts (collect_vars t) (collect_all ts) d in
        let (σ, r₁, s₁) = instantiate_complete us t v q d₁ here one in
        let (τ, r₂, s₂) = instantiate_all_complete us ts vs qs d₂ later many in
        let xs = collect_vars t in
        (
          joined xs σ τ,
          at_more (Receives-agree σ (joined xs σ τ) t q (λ i m. joined-left xs σ τ i m) r₁) (
              ReceivesAll-agree τ (joined xs σ τ) ts qs
                (λ i m. joined-right xs σ τ i (λ l. apart i l m)) r₂),
          Supports-joined us xs (collect_all ts) σ τ apart s₁ s₂,
        )
