-- ===== src/Combinators/InvHom/Language.antt =====
-- The inverse homomorphism accepts the source trees whose images the automaton accepts.
use rusty_alto.Base.{
  ℕ, zero, suc, ◌<◌, ◌≡◌, refl, ap, ◌∙◌, subst, ◌↔◌, List, [], ◌∷◌, Option, some, Eq, nat_eq, arith,
  length, get_elem?, Option-cases, inl, inr,
}
use rusty_alto.Base.Assoc.{lookup}
use rusty_alto.Base.Result.{Result, ok, ◌>>=◌, >>=-eq-ok}
use rusty_alto.Ids.{Symbol}
use rusty_alto.Term.{Term, Terms, node, nil, cons}
use rusty_alto.Traits.{BottomUpTa}
use rusty_alto.Traits.Runs.{Assigns, AssignsAll, assign, all_nil, all_cons, Accepts}
use rusty_alto.Homomorphism.Rhs.{HomTerm}
use rusty_alto.Homomorphism.{
  Homomorphism, HomomorphismError, unmapped_symbol, get, ok_or, instantiate, apply_symbol, apply,
  apply_all,
}
use rusty_alto.Homomorphism.Adding.{IsNondeleting}
use rusty_alto.Combinators.InvHom.{inv_hom}
use rusty_alto.Combinators.InvHom.Steps.{inv_hom-step}
use rusty_alto.Combinators.InvHom.Images.{instantiate_sound, instantiate_complete, Receives-agree}

abbrev pub width : Terms → ℕ
width nil = 0
width (cons t ts) = suc (width ts)

mutual
  -- Each node of a tree has as many children as its symbol has in the homomorphism.
  pub data IsRanked (h : Homomorphism) : Term → Type 0 where
    ranked :
        {f : Symbol} {ts : Terms}
        → ((n : ℕ) → lookup f h.arities ≡ some n → width ts ≡ n)
        → AreRanked h ts
        → IsRanked h (node f ts)

  pub data AreRanked (h : Homomorphism) : Terms → Type 0 where
    no_trees : AreRanked h nil
    and_tree : {t : Term} {ts : Terms} → IsRanked h t → AreRanked h ts → AreRanked h (cons t ts)

module _ {ℓ} {S : Type ℓ} (inner : BottomUpTa S) where
  -- Trees and states that they may receive, side by side.
  data Each : List Term → List S → Type ℓ where
    each_nil : Each [] []
    each_cons :
        {u : Term} {us : List Term} {q : S} {qs : List S}
        → Assigns inner u q
        → Each us qs
        → Each (u ∷ us) (q ∷ qs)

  Each-at :
      (us : List Term) (qs : List S)
      → Each us qs
      → (i : ℕ) (p : S) → get_elem? qs i ≡ some p
      → (u : Term) × (get_elem? us i ≡ some u) × Assigns inner u p
  Each-at [] [] h i p e = cc
  Each-at [] (q ∷ qs) h i p e = elim h [ ]
  Each-at (u ∷ us) [] h i p e = cc
  Each-at (u ∷ us) (q ∷ qs) (each_cons run more) zero p e =
      let same : q ≡ p = cc in (u, refl, subst (Assigns inner u) same run)
  Each-at (u ∷ us) (q ∷ qs) (each_cons run more) (suc i) p e = Each-at us qs more i p e

  -- States of the variables as a row of states.
  choose :
      (us : List Term) (σ : ℕ → Option S)
      → ((i : ℕ)
          → i < length us
          → (p : S) × (u : Term) × (σ i ≡ some p) × (get_elem? us i ≡ some u) × Assigns inner u p)
      → (qs : List S) × Each us qs × ((i : ℕ) → i < length us → σ i ≡ get_elem? qs i)
  choose [] σ h = ([], each_nil, λ i low. absurd (omega arith))
  choose (u ∷ us) σ h =
      let (p, v, e, at, run) = h 0 (omega arith) in
      let same : v ≡ u = cc in
      let (qs, more, agree) = choose us (λ i. σ (suc i)) (λ i low. h (suc i) (omega arith)) in
      (
        p ∷ qs,
        each_cons (subst (λ z. Assigns inner z p) same run) more,
        λ i low. at_index i p e qs agree low,
      )
    where
      at_index :
          (i : ℕ) (p : S)
          → σ 0 ≡ some p
          → (qs : List S) → ((i : ℕ) → i < length us → σ (suc i) ≡ get_elem? qs i)
          → i < suc (length us)
          → σ i ≡ get_elem? (p ∷ qs) i
      at_index zero p e qs agree low = e
      at_index (suc i) p e qs agree low = agree i (omega arith)

module _ {ℓ} {S : Type ℓ} ⦃e : Eq S⦄ (h : Homomorphism) (inner : BottomUpTa S) where
  mutual
    unfolding apply apply_symbol

    -- A tree that may receive a state has an image, which may receive it too.
    inv_hom_sound :
        (t : Term) (q : S)
        → Assigns (inv_hom h inner) t q
        → (u : Term) × (apply h t ≡ ok u) × Assigns inner u q
    inv_hom_sound (node f ts) q (assign {qs = qs} below m) =
        let (us, runs, each) = inv_homs_sound ts qs below in
        let (rhs, mapped, r) = (inv_hom-step h inner f qs q).0 m in
        let (u, made, run) =
          instantiate_sound inner us (λ i. get_elem? qs i) (Each-at inner us qs each) rhs q r in
        (u, rw (runs, mapped) made, run)

    inv_homs_sound :
        (ts : Terms) (qs : List S)
        → AssignsAll (inv_hom h inner) ts qs
        → (us : List Term) × (apply_all h ts ≡ ok us) × Each inner us qs
    inv_homs_sound nil [] all_nil = ([], refl, each_nil)
    inv_homs_sound nil (q ∷ qs) run = elim run [ ]
    inv_homs_sound (cons t ts) [] run = elim run [ ]
    inv_homs_sound (cons t ts) (q ∷ qs) (all_cons one more) =
        let (u, first, run) = inv_hom_sound t q one in
        let (us, rest, each) = inv_homs_sound ts qs more in
        (u ∷ us, rw (first, rest) refl, each_cons run each)

  length-apply_all : (ts : Terms) (us : List Term) → apply_all h ts ≡ ok us → length us ≡ width ts
  unfolding apply
  length-apply_all nil [] runs = refl
  length-apply_all nil (u ∷ us) runs = cc
  length-apply_all (cons t ts) [] runs =
      let (v, first, more) = >>=-eq-ok (apply h t) _ runs in
      let (vs, rest, done) = >>=-eq-ok (apply_all h ts) _ more in cc
  length-apply_all (cons t ts) (u ∷ us) runs =
      let (v, first, more) = >>=-eq-ok (apply h t) _ runs in
      let (vs, rest, done) = >>=-eq-ok (apply_all h ts) _ more in
      let same : vs ≡ us = cc in ap suc (length-apply_all ts us (rest ∙ ap ok same))

  get_of_ok :
      (f : Symbol) (rest : HomTerm → Result HomomorphismError Term) (u : Term)
      → (do rhs ← ok_or (get h f) (unmapped_symbol f); rest rhs) ≡ ok u
      → (rhs : HomTerm) × (get h f ≡ some rhs) × (rest rhs ≡ ok u)
  get_of_ok f rest u done = elim (Option-cases (get h f)) [
    | inl absent ↦ absurd (let never = rw absent at done in cc)
    | inr (rhs, mapped) ↦ (rhs, mapped, rw mapped at done)
  ]

  mutual
    unfolding apply apply_symbol

    -- For an image term with each variable once, a tree may receive what its image may.
    inv_hom-complete :
        (t : Term) (u : Term) (q : S)
        → IsNondeleting h
        → IsRanked h t
        → apply h t ≡ ok u
        → Assigns inner u q
        → Assigns (inv_hom h inner) t q
    inv_hom-complete (node f ts) u q linear (ranked ranks below) runs run =
        let (us, images, done) = >>=-eq-ok (apply_all h ts) _ runs in
        let (rhs, mapped, made) = get_of_ok f (λ rhs. instantiate rhs us) u done in
        let (n, arity, l) = linear f rhs mapped in
        let size : length us ≡ n = length-apply_all ts us images ∙ ranks n arity in
        let (σ, r, s) = instantiate_complete inner us rhs u q l.once made run in
        let (qs, each, agree) =
          choose inner us σ (λ i low. s i ((l.exactly i).1 (omega (arith, size)))) in
        assign (inv_homs-complete ts us qs linear below images each) (
          (inv_hom-step h inner f qs q).1 (
            rhs,
            mapped,
            Receives-agree inner σ (λ i. get_elem? qs i) rhs q
                (λ i m. agree i (let low = (l.exactly i).0 m in omega (arith, size))) r,
          ))

    inv_homs-complete :
        (ts : Terms) (us : List Term) (qs : List S)
        → IsNondeleting h
        → AreRanked h ts
        → apply_all h ts ≡ ok us
        → Each inner us qs
        → AssignsAll (inv_hom h inner) ts qs
    inv_homs-complete nil [] [] linear ranks runs each = all_nil
    inv_homs-complete nil (u ∷ us) qs linear ranks runs each = cc
    inv_homs-complete nil [] (q ∷ qs) linear ranks runs each = elim each [ ]
    inv_homs-complete (cons t ts) [] qs linear ranks runs each =
        let (v, first, more) = >>=-eq-ok (apply h t) _ runs in
        let (vs, rest, done) = >>=-eq-ok (apply_all h ts) _ more in cc
    inv_homs-complete (cons t ts) (u ∷ us) [] linear ranks runs each = elim each [ ]
    inv_homs-complete (cons t ts) (u ∷ us) (q ∷ qs) linear (and_tree one more) runs
          (each_cons run each) =
        let (v, first, later) = >>=-eq-ok (apply h t) _ runs in
        let (vs, rest, done) = >>=-eq-ok (apply_all h ts) _ later in
        let same : v ≡ u = cc in
        let others : vs ≡ us = cc in
        all_cons (inv_hom-complete t u q linear one (first ∙ ap ok same) run)
          (inv_homs-complete ts us qs linear more (rest ∙ ap ok others) each)

  -- For a homomorphism whose image terms use each variable once, and a tree whose nodes have the
  -- arities of their symbols: the inverse homomorphism accepts the tree exactly if the tree has an
  -- image and the automaton accepts the image.
  pub inv_hom-Accepts_iff :
      (t : Term)
      → IsNondeleting h
      → IsRanked h t
      → Accepts (inv_hom h inner) t ↔ ((u : Term) × (apply h t ≡ ok u) × Accepts inner u)
  inv_hom-Accepts_iff t linear ranks = (
    λ (q, run, final). let (u, made, there) = inv_hom_sound t q run in (u, made, (q, there, final)),
    λ (u, made, (q, run, final)). (q, inv_hom-complete t u q linear ranks made run, final),
  )
