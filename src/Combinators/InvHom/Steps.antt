-- ===== src/Combinators/InvHom/Steps.antt =====
-- `InvHom::step` reports the states of the image of a symbol, each once.
use rusty_alto.Base.{
  ◌≡◌, refl, sym, ◌∙◌, subst, ◌↔◌, inl, inr, ⊎_elim, true, false, List, [], ◌∷◌, Memᴰ, mem-cons,
  not-mem-nil, Option, none, some, Eq, contains, contains_iff, get_elem?, Bool-cases, Option-cases,
  ◌==◌,
}
use rusty_alto.Ids.{Symbol}
use rusty_alto.Traits.{BottomUpTa}
use rusty_alto.Homomorphism.Rhs.{HomTerm}
use rusty_alto.Homomorphism.{Homomorphism, get}
use rusty_alto.Combinators.InvHom.{unseen, step, inv_hom}
use rusty_alto.Combinators.InvHom.Evaluation.{Receives, eval_term_lem}

module _ {ℓ} {S : Type ℓ} ⦃e : Eq S⦄ where
  mem-unseen :
      (seen qs : List S) (q : S) → Memᴰ q (unseen seen qs) ↔ (Memᴰ q qs × (contains seen q ≡ false))
  unfolding unseen
  mem-unseen seen [] q = (λ m. absurd (not-mem-nil q m), λ h. absurd (not-mem-nil q h.0))
  mem-unseen seen (p ∷ qs) q = elim (Bool-cases (contains seen p)) [
    | inl hit ↦
        let later = mem-unseen seen qs q in
        rw hit (
          λ m. let (n, fresh) = later.0 m in (Memᴰ.tail n, fresh),
          λ (m, fresh).
              ⊎_elim
                (λ (same : q ≡ p).
                  absurd (let both = subst (λ z. contains seen z ≡ true) (sym same) hit in cc))
                (λ n. later.1 (n, fresh)) ((mem-cons q p qs).0 m),
        )
    | inr miss ↦
        let later = mem-unseen (p ∷ seen) qs q in
        rw miss (
          λ m.
              ⊎_elim (λ (same : q ≡ p). (Memᴰ.head same, rw same miss))
                (λ n.
                  let (k, fresh) = later.0 n in
                  (
                    Memᴰ.tail k,
                    elim (Bool-cases (contains seen q)) [
                      | inr out ↦ out
                      | inl hit ↦
                          let there =
                            (contains_iff (p ∷ seen) q).1
                              (Memᴰ.tail ((contains_iff seen q).0 hit)) in
                          absurd (let both : true ≡ false = sym there ∙ fresh in cc)
                    ],
                  ))
                ((mem-cons q p (unseen (p ∷ seen) qs)).0 m),
          λ (m, fresh). elim (Bool-cases (p == q)) [
            | inl here ↦ Memᴰ.head (sym ((e.same_iff p q).0 here))
            | inr other ↦
                ⊎_elim (λ (same : q ≡ p). absurd (let hit = (e.same_iff p q).1 (sym same) in cc))
                  (λ n. Memᴰ.tail (later.1 (n, rw (other, fresh) refl))) ((mem-cons q p qs).0 m)
          ],
        )
  ]

  -- `step` returns, and reports exactly the states that the image of the symbol receives when its
  -- variables have the states of the children; a symbol without image has none.
  pub step_lem :
      (h : Homomorphism) (inner : BottomUpTa S) (f : Symbol) (cs : List S)
      → (states : List S) × (step h inner f cs ≡ some states)
        × ((q : S)
            → Memᴰ q states ↔ (
                (rhs : HomTerm) × (get h f ≡ some rhs)
                × Receives inner (λ i. get_elem? cs i) rhs q))
  unfolding step
  step_lem h inner f cs = elim (Option-cases (get h f)) [
    | inl unmapped ↦ (
      [],
      rw (unmapped, step) refl,
      λ q. (
        λ m. absurd (not-mem-nil q m),
        λ (rhs, at, _). absurd (let both : none ≡ Option.some rhs = sym unmapped ∙ at in cc),
      ),
    )
    | inr (rhs, mapped) ↦
        let (states, runs, found) = eval_term_lem inner cs rhs in
        (
          unseen [] states,
          rw (mapped, step) (rw runs refl),
          λ q. (
            λ m. (rhs, mapped, (found q).0 ((mem-unseen [] states q).0 m).0),
            λ (other, at, r).
                let same : other ≡ rhs =
                  (let both : Option.some other ≡ some rhs = sym at ∙ mapped in cc) in
                (mem-unseen [] states q).1 (
                  (found q).1 (subst (λ z. Receives inner (λ i. get_elem? cs i) z q) same r),
                  refl,
                ),
          ),
        )
  ]

  -- The steps of the automaton over source symbols.
  pub inv_hom-step :
      (h : Homomorphism) (inner : BottomUpTa S) (f : Symbol) (cs : List S) (q : S)
      → Memᴰ q (BottomUpTa.step (inv_hom h inner) f cs)
        ↔ ((rhs : HomTerm) × (get h f ≡ some rhs) × Receives inner (λ i. get_elem? cs i) rhs q)
  inv_hom-step h inner f cs q =
      let (states, runs, found) = step_lem h inner f cs in rw runs (found q)
