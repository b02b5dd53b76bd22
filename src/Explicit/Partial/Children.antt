-- ===== src/Explicit/Partial/Children.antt =====
-- `step_partial` reports the rules with a given state at a given position.
use rusty_alto.Base.{
  ℕ, suc, ◌-◌, ◌≤◌, ◌≡◌, ◌≢◌, refl, ◌∙◌, sym, ap, ◌↔◌, ◌⊎◌, inl, inr, ⊎_elim, List, [], ◌∷◌, ◌++◌,
  Memᴰ, mem-cons, mem-append, not-mem-nil, none, some, arith, ◌==◌, nat_eq, pair_eq, nat_beq_iff,
  get_elem?, Bool-cases, Option-cases, mem_of_get_elem?, get_elem?_of_mem,
}
use rusty_alto.Base.Assoc.{lookup, entry, listed, listed-entry_at}
use rusty_alto.Base.Flat.{mem-map}
use rusty_alto.Ids.{StateId, Symbol}
use rusty_alto.Explicit.Types.{StoredRule, Explicit}
use rusty_alto.Explicit.TopDown.{rules_at, rule}
use rusty_alto.Explicit.Index.{step}
use rusty_alto.Explicit.Index.Lookup.{step_iff}
use rusty_alto.Explicit.Partial.{ChildIndex, index_children, index_by_child, reports, step_partial}

listed-entry :
    (f g : Symbol) (i k : ℕ) (c p : StateId) (n j : ℕ) (ix : ChildIndex)
    → Memᴰ j (listed (lookup (g, (k, p)) (entry (f, (i, c)) [] (λ idxs. idxs ++ n ∷ []) ix)))
      ↔ (Memᴰ j (listed (lookup (g, (k, p)) ix)) ⊎ ((j ≡ n) × (f ≡ g) × (i ≡ k) × (c ≡ p)))
listed-entry f g i k c p n j ix = ground (
  arith,
  listed-entry_at (f, (i, c)) (g, (k, p)) n ix,
  mem-append j (listed (lookup (g, (k, p)) ix)) (n ∷ []),
  mem-cons j n [],
  not-mem-nil j,
)

get-here {ℓ} :
    {A : Type ℓ} (c : A) (cs : List A) (i k : ℕ) → i ≡ k → get_elem? (c ∷ cs) (k - i) ≡ some c
get-here c cs i k e = let zeroth : k - i ≡ 0 = omega arith in rw zeroth

get-further {ℓ} :
    {A : Type ℓ} (c : A) (cs : List A) (i k : ℕ)
    → suc i ≤ k
    → get_elem? (c ∷ cs) (k - i) ≡ get_elem? cs (k - suc i)
get-further c cs i k h = let next : k - i ≡ suc (k - suc i) = omega arith in rw next

mem-index_children :
    (n : ℕ) (f : Symbol) (i : ℕ) (cs : List StateId) (ix : ChildIndex) (g : Symbol) (k : ℕ)
    (p : StateId) (j : ℕ)
    → Memᴰ j (listed (lookup (g, (k, p)) (index_children n f i cs ix))) ↔ (
        Memᴰ j (listed (lookup (g, (k, p)) ix))
        ⊎ ((j ≡ n) × (f ≡ g) × (i ≤ k) × (get_elem? cs (k - i) ≡ some p)))
unfolding index_children
mem-index_children n f i [] ix g k p j = (inl, ⊎_elim (λ m. m) (λ h. cc))
mem-index_children n f i (c ∷ cs) ix g k p j =
    let rest =
      mem-index_children n f (suc i) cs (entry (f, (i, c)) [] (λ idxs. idxs ++ n ∷ []) ix) g k p
        j in
    let first = listed-entry f g i k c p n j ix in
    ground (arith, rest, first, get-here c cs i k, get-further c cs i k)

module _ {ℓ} {W : Type ℓ} where
  -- The rule with a number has a symbol, and a state at a position.
  abbrev HasChild : List (StoredRule W) → Symbol → ℕ → StateId → ℕ → Type ℓ
  HasChild rules g k p j =
      (r : StoredRule W) × (get_elem? rules j ≡ some r)
      × (r.symbol ≡ g)
      × (get_elem? r.children k ≡ some p)

  mem-index_by_child :
      (n : ℕ) (rules : List (StoredRule W)) (ix : ChildIndex) (g : Symbol) (k : ℕ) (p : StateId)
      (j : ℕ)
      → Memᴰ j (listed (lookup (g, (k, p)) (index_by_child n rules ix)))
        ↔ (Memᴰ j (listed (lookup (g, (k, p)) ix)) ⊎ ((n ≤ j) × HasChild rules g k p (j - n)))
  unfolding index_by_child
  mem-index_by_child n [] ix g k p j = (inl, ⊎_elim (λ m. m) (λ (_, (r, e, _, _)). cc))
  mem-index_by_child n (r ∷ rules) ix g k p j =
      let rest =
        mem-index_by_child (suc n) rules (index_children n r.symbol 0 r.children ix) g k p j in
      let here = mem-index_children n r.symbol 0 r.children ix g k p j in
      let whole : k - 0 ≡ k = omega arith in
      (
        λ m.
            ⊎_elim
              (λ old.
                ⊎_elim inl
                  (λ (e, s, _, c).
                    inr (omega arith, (r, get-here r rules n j (sym e), s, rw whole at c)))
                  (here.0 old))
              (λ (l, (q, e, s, c)). inr (omega arith, (q, get-further r rules n j l ∙ e, s, c)))
              (rest.0 m),
        λ h.
            ⊎_elim (λ old. rest.1 (inl (here.1 (inl old))))
              (λ (l, (q, e, s, c)). elim (Bool-cases (n == j)) [
                | inl hit ↦
                    let at : n ≡ j = (nat_beq_iff n j).0 hit in
                    let first = get-here r rules n j at in
                    let same : r ≡ q = cc in
                    rest.1 (
                      inl (
                        here.1 (
                          inr (
                            sym at,
                            ap (λ x. x.symbol) same ∙ s,
                            omega arith,
                            rw (whole, same) c,
                          ))))
                | inr miss ↦
                    let beyond : suc n ≤ j =
                      (let apart : n ≢ j =
                          (λ e. absurd (let hit = (nat_beq_iff n j).1 e in ground arith)) in
                        omega arith) in
                    rest.1 (inr (beyond, (q, sym (get-further r rules n j beyond) ∙ e, s, c)))
              ])
              h,
      )

  -- the rules with the numbers
  rules_at_lem :
      (a : Explicit W) (idxs : List ℕ)
      → ((j : ℕ) → Memᴰ j idxs → (r : StoredRule W) × (get_elem? a.rules j ≡ some r))
      → (rs : List (StoredRule W)) × (rules_at a idxs ≡ some rs)
        × ((r : StoredRule W)
            → Memᴰ r rs ↔ ((j : ℕ) × Memᴰ j idxs × (get_elem? a.rules j ≡ some r)))
  unfolding rules_at rule
  rules_at_lem a [] h =
      ([], refl, λ r. (λ m. absurd (not-mem-nil r m), λ (j, m, _). absurd (not-mem-nil j m)))
  rules_at_lem a (i ∷ idxs) h =
      let (r, first) = h i (Memᴰ.head refl) in
      let (rs, runs, held) = rules_at_lem a idxs (λ j m. h j (Memᴰ.tail m)) in
      (
        r ∷ rs,
        rw (first, runs),
        λ p. (
          λ m.
              ⊎_elim (λ (e : p ≡ r). (i, Memᴰ.head refl, first ∙ ap some (sym e)))
                (λ k. let (j, n, at) = (held p).0 k in (j, Memᴰ.tail n, at))
                ((mem-cons p r rs).0 m),
          λ (j, m, at).
              ⊎_elim
                (λ (e : j ≡ i).
                  let found = rw e at at in
                  Memᴰ.head (let both : some r ≡ some p = sym first ∙ found in cc))
                (λ n. Memᴰ.tail ((held p).1 (j, n, at))) ((mem-cons j i idxs).0 m),
        ),
      )

  mem-numbers :
      (rules : List (StoredRule W)) (f : Symbol) (k : ℕ) (p : StateId) (j : ℕ)
      → Memᴰ j (listed (lookup (f, (k, p)) (index_by_child 0 rules []))) ↔ HasChild rules f k p j
  unfolding lookup
  mem-numbers rules f k p j =
      let found = mem-index_by_child 0 rules [] f k p j in
      let whole : j - 0 ≡ j = omega arith in
      (
        λ m. ⊎_elim (λ old. absurd (not-mem-nil j old)) (λ (_, h). rw whole at h) (found.0 m),
        λ h. found.1 (inr (omega arith, rw whole h)),
      )

  reports_lem :
      (a : Explicit W) (f : Symbol) (k : ℕ) (p : StateId) (idxs : List ℕ)
      → ((j : ℕ) → Memᴰ j idxs ↔ HasChild a.rules f k p j)
      → (rs : List (StoredRule W)) × (rules_at a idxs ≡ some rs)
        × ((cs : List StateId) (q : StateId)
            → Memᴰ {A = List StateId × StateId} (cs, q) (reports rs)
              ↔ (Memᴰ q (step a f cs) × (get_elem? cs k ≡ some p)))
  reports_lem a f k p idxs numbers =
      let (rs, runs, held) =
        rules_at_lem a idxs (λ j m. let (r, e, _, _) = (numbers j).0 m in (r, e)) in
      (
        rs,
        runs,
        λ cs q. (
          λ m.
              let (r, at, e) = (mem-map (λ r. (r.children, r.result)) rs (cs, q)).0 m in
              let (j, listed_at, there) = (held r).0 at in
              let (x, same, symbol, child) = (numbers j).0 listed_at in
              let one : x ≡ r = (let both : some x ≡ some r = sym same ∙ there in cc) in
              let children : r.children ≡ cs = sym (ap (λ z. z.0) e) in
              (
                ((step_iff a f cs).0 q).1 (
                  r,
                  mem_of_get_elem? a.rules j r there,
                  ap (λ z. z.symbol) (sym one) ∙ symbol,
                  children,
                  sym (ap (λ z. z.1) e),
                ),
                rw (← children, ← one) child,
              ),
          λ (m, child).
              let (r, at, symbol, children, result) = ((step_iff a f cs).0 q).0 m in
              let (j, there) = get_elem?_of_mem r a.rules at in
              (mem-map (λ r. (r.children, r.result)) rs (cs, q)).1 (
                r,
                (held r).1 (j, (numbers j).1 (r, there, symbol, rw children child), there),
                rw (children, result) refl,
              ),
        ),
      )

  no_rules : (a : Explicit W) (rs : List (StoredRule W)) → rules_at a [] ≡ some rs → [] ≡ rs
  unfolding rules_at
  no_rules a rs h = cc

  unlisted :
      (a : Explicit W) (f : Symbol) (k : ℕ) (p : StateId)
      → lookup (f, (k, p)) (index_by_child 0 a.rules []) ≡ none
      → step_partial a f k p ≡ some []
  unfolding step_partial
  unlisted a f k p e = rw (e, step_partial)

  listed_under :
      (a : Explicit W) (f : Symbol) (k : ℕ) (p : StateId) (idxs : List ℕ) (rs : List (StoredRule W))
      → lookup (f, (k, p)) (index_by_child 0 a.rules []) ≡ some idxs
      → rules_at a idxs ≡ some rs
      → step_partial a f k p ≡ some (reports rs)
  unfolding step_partial
  listed_under a f k p idxs rs e runs = rw (e, step_partial, runs)

  -- `step_partial` returns, and reports exactly the children and results of the bottom-up rules with
  -- the symbol whose child at the position is the state.
  pub step_partial_lem :
      (a : Explicit W) (f : Symbol) (position : ℕ) (p : StateId)
      → (rules : List (List StateId × StateId)) × (step_partial a f position p ≡ some rules)
        × ((cs : List StateId) (q : StateId)
            → Memᴰ (cs, q) rules ↔ (Memᴰ q (step a f cs) × (get_elem? cs position ≡ some p)))
  step_partial_lem a f position p =
      let numbers = mem-numbers a.rules f position p in
      elim (Option-cases (lookup (f, (position, p)) (index_by_child 0 a.rules []))) [
        | inl gone ↦
            let (rs, runs, holds) = reports_lem a f position p [] (rw gone at numbers) in
            (
              reports rs,
              unlisted a f position p gone ∙ ap (λ l. some (reports l)) (no_rules a rs runs),
              holds,
            )
        | inr (idxs, there) ↦
            let (rs, runs, holds) = reports_lem a f position p idxs (rw there at numbers) in
            (reports rs, listed_under a f position p idxs rs there runs, holds)
      ]
