-- ===== src/Combinators/Product/Language.antt =====
-- The product accepts the intersection of the two languages.
use rusty_alto.Base.{◌≡◌, refl, sym, ap, ◌↔◌, List, [], ◌∷◌, map, Memᴰ, arith}
use rusty_alto.Base.Flat.{mem-flat_map, mem-map, firsts, seconds}
use rusty_alto.Ids.{Symbol}
use rusty_alto.Term.{Term, Terms, node, nil, cons}
use rusty_alto.Traits.{BottomUpTa}
use rusty_alto.Traits.Runs.{Assigns, AssignsAll, Accepts, assign, all_nil, all_cons}
use rusty_alto.Combinators.Product.{pairs, step, is_accepting, product}

module _ {ℓ κ} {S : Type ℓ} {T : Type κ} where
  pub mem-pairs :
      (ps : List S) (qs : List T) (p : S) (q : T)
      → Memᴰ (p, q) (pairs ps qs) ↔ (Memᴰ p ps × Memᴰ q qs)
  mem-pairs ps qs p q = (
    λ m.
        let (x, at, n) = (mem-flat_map (λ x. map (λ y. (x, y)) qs) ps (p, q)).0 m in
        let (y, here, e) = (mem-map (λ y. (x, y)) qs (p, q)).0 n in
        let left : x ≡ p = sym (ap (λ z. z.0) e) in
        let right : y ≡ q = sym (ap (λ z. z.1) e) in (rw (← left) at, rw (← right) here),
    λ (m, n).
        (mem-flat_map (λ x. map (λ y. (x, y)) qs) ps (p, q)).1
          (p, m, (mem-map (λ y. (p, y)) qs (p, q)).1 (q, n, refl)),
  )

  module _ (a : BottomUpTa S) (b : BottomUpTa T) where
    step-eq-pairs :
        (f : Symbol) (cs : List (S × T))
        → step a b f cs ≡ pairs (a.step f (firsts cs)) (b.step f (seconds cs))
    unfolding step
    step-eq-pairs f cs = ground arith

    -- The product reports a pair exactly if both automata report its parts.
    pub mem-step :
        (f : Symbol) (cs : List (S × T)) (p : S) (q : T)
        → Memᴰ (p, q) (step a b f cs)
          ↔ (Memᴰ p (a.step f (firsts cs)) × Memᴰ q (b.step f (seconds cs)))
    mem-step f cs p q =
        rw step-eq-pairs (mem-pairs (a.step f (firsts cs)) (b.step f (seconds cs)) p q)

    mutual
      split :
          (t : Term) (p : S) (q : T)
          → Assigns (product a b) t (p, q)
          → Assigns a t p × Assigns b t q
      split (node f ts) p q (assign {qs = cs} all m) =
          let (left, right) = split_all ts cs all in
          let (here, there) = (mem-step f cs p q).0 m in (assign left here, assign right there)

      split_all :
          (ts : Terms) (cs : List (S × T))
          → AssignsAll (product a b) ts cs
          → AssignsAll a ts (firsts cs) × AssignsAll b ts (seconds cs)
      split_all nil [] all_nil = (all_nil, all_nil)
      split_all nil ((p, q) ∷ cs) run = elim run [ ]
      split_all (cons t ts) [] run = elim run [ ]
      split_all (cons t ts) ((p, q) ∷ cs) (all_cons one more) =
          let (left, right) = split t p q one in
          let (lefts, rights) = split_all ts cs more in (all_cons left lefts, all_cons right rights)

    mutual
      join :
          (t : Term) (p : S) (q : T)
          → Assigns a t p
          → Assigns b t q
          → Assigns (product a b) t (p, q)
      join (node f ts) p q (assign {qs = ps} left here) (assign {qs = qs} right there) =
          let (cs, run, e₁, e₂) = join_all ts ps qs left right in
          assign run ((mem-step f cs p q).1 (rw e₁ here, rw e₂ there))

      join_all :
          (ts : Terms) (ps : List S) (qs : List T)
          → AssignsAll a ts ps
          → AssignsAll b ts qs
          → (cs : List (S × T)) × AssignsAll (product a b) ts cs
            × (firsts cs ≡ ps)
            × (seconds cs ≡ qs)
      join_all nil [] [] all_nil all_nil = ([], all_nil, refl, refl)
      join_all (cons t ts) (p ∷ ps) (q ∷ qs) (all_cons left lefts) (all_cons right rights) =
          let (cs, run, e₁, e₂) = join_all ts ps qs lefts rights in
          (
            (p, q) ∷ cs,
            all_cons (join t p q left right) run,
            ap (λ l. p ∷ l) e₁,
            ap (λ l. q ∷ l) e₂,
          )
      join_all nil (p ∷ ps) qs left right = elim left [ ]
      join_all nil [] (q ∷ qs) left right = elim right [ ]
      join_all (cons t ts) [] qs left right = elim left [ ]
      join_all (cons t ts) (p ∷ ps) [] left right = elim right [ ]

    -- A tree is accepted by the product exactly if both automata accept it.
    pub product-Accepts_iff : (t : Term) → Accepts (product a b) t ↔ (Accepts a t × Accepts b t)
    unfolding is_accepting
    product-Accepts_iff t = (
      λ ((p, q), run, final).
          let (left, right) = split t p q run in
          ((p, left, ground arith), (q, right, ground arith)),
      λ ((p, left, e₁), (q, right, e₂)). ((p, q), join t p q left right, rw (e₁, e₂)),
    )
