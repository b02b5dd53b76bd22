-- ===== src/Homomorphism/Outcomes.antt =====
-- `add` either registers the image term or fails with the error that says why; it never panics.
use rusty_alto.Base.{
  ℕ, ◌≡◌, ◌≢◌, refl, sym, ap, ◌∙◌, ◌⊎◌, inl, inr, ⊎_elim, Option, none, some, ◌==◌, nat_eq,
  nat_beq_iff, get_elem?_of_lt, Bool-cases, Option-cases,
}
use rusty_alto.Base.Assoc.{lookup}
use rusty_alto.Base.Result.{Result, ok, err, ◌>>=◌}
use rusty_alto.Ids.{Symbol}
use rusty_alto.Homomorphism.Rhs.{HomTerm, hom_eq}
use rusty_alto.Homomorphism.{
  Homomorphism, HomomorphismError, new, get, collect_vars, validate_nondeleting, add_valid, add,
  arity_mismatch, conflicting_source_term,
}
use rusty_alto.Homomorphism.Adding.{IsLinear}
use rusty_alto.Homomorphism.Refusals.{IsInvalid, validate_nondeleting_lem}
use rusty_alto.Homomorphism.Registering.{IsHomomorphism, Added, register-Added}

-- The symbol has no arity yet, or this one.
abbrev pub HasArity : Homomorphism → Symbol → ℕ → Type 0
HasArity h src arity = (n : ℕ) → lookup src h.arities ≡ some n → n ≡ arity

-- What `add` leaves when it succeeds: the arity is that of the symbol, the image term uses each
-- variable below it once, the symbol had no other image, and if it had this image, nothing changes.
pub record Accepted (h : Homomorphism) (src : Symbol) (arity : ℕ) (rhs : HomTerm) (g : Homomorphism)
    : Type 0 where
  pub fits : HasArity h src arity
  pub linear : IsLinear arity rhs
  pub agrees : (old : HomTerm) → get h src ≡ some old → old ≡ rhs
  pub added : Added h src arity rhs g
  pub again : get h src ≡ some rhs → g ≡ h

-- What an error of `add` says: the symbol has another arity; or its arity fits, but the image term
-- is invalid; or it is valid, but the symbol has another image.
pub data IsRefused (h : Homomorphism) (src : Symbol) (arity : ℕ) (rhs : HomTerm)
    : HomomorphismError → Type 0 where
  other_arity :
      (old : ℕ)
      → lookup src h.arities ≡ some old
      → old ≢ arity
      → IsRefused h src arity rhs (arity_mismatch src old arity)
  invalid :
      (x : HomomorphismError)
      → HasArity h src arity
      → IsInvalid src arity (collect_vars rhs) x
      → IsRefused h src arity rhs x
  other_image :
      (old : HomTerm)
      → HasArity h src arity
      → IsLinear arity rhs
      → get h src ≡ some old
      → old ≢ rhs
      → IsRefused h src arity rhs (conflicting_source_term src)

module _ (h : Homomorphism) (src : Symbol) (arity : ℕ) (rhs : HomTerm) where
  abbrev pub Outcome : Result HomomorphismError Homomorphism → Type 0
  Outcome r =
      ((g : Homomorphism) × (r ≡ ok g) × Accepted h src arity rhs g)
      ⊎ ((x : HomomorphismError) × (r ≡ err x) × IsRefused h src arity rhs x)

  add_valid-Outcome :
      IsHomomorphism h
      → IsLinear arity rhs
      → HasArity h src arity
      → Outcome (add_valid h src arity rhs)
  unfolding add_valid get
  add_valid-Outcome v l fits = elim (Option-cases (lookup src h.symbol_to_term)) [
    | inl new ↦
        let (g, runs, a) = register-Added h src arity rhs v l in
        let unmapped : get h src ≡ none = rw (new, get) refl in
        inl (
          g,
          rw (new, add_valid) runs,
          record {
            fits = fits;
            linear = l;
            agrees = λ old at. absurd (let both : none ≡ Option.some old = sym unmapped ∙ at in cc);
            added = a;
            again = λ at. absurd (let both : none ≡ Option.some rhs = sym unmapped ∙ at in cc);
          },
        )
    | inr (old, mapped) ↦
        let (term, at) = get_elem?_of_lt h.terms old (v.in_range src old mapped) in
        let image : get h src ≡ some term = rw (mapped, get) at in
        elim (Bool-cases (term == rhs)) [
          | inr other ↦ inr (
            conflicting_source_term src,
            rw (mapped, add_valid) (rw (at, add_valid) (rw other refl)),
            other_image term fits l image
                (λ same. let hit = (hom_eq.same_iff term rhs).1 same in cc),
          )
          | inl same ↦
              let equal : term ≡ rhs = (hom_eq.same_iff term rhs).0 same in
              let here : get h src ≡ some rhs = image ∙ ap some equal in
              let (n, ranked, linear) = v.linear src rhs here in
              inl (
                h,
                rw (mapped, add_valid) (rw (at, add_valid) (rw same refl)),
                record {
                  fits = fits;
                  linear = l;
                  agrees = λ first found.
                      (let both : Option.some first ≡ some rhs = sym found ∙ here in cc);
                  added = record {
                    valid = v;
                    image = here;
                    ranked = ranked ∙ ap some (fits n ranked);
                    others = λ f apart. refl;
                    others_ranked = λ f apart. refl;
                  };
                  again = λ _. refl;
                },
              )
        ]
  ]

  -- the part of `add` after the test of the arity
  validated-Outcome :
      IsHomomorphism h
      → HasArity h src arity
      → Outcome (do done ← validate_nondeleting src arity rhs; add_valid h src arity rhs)
  validated-Outcome v fits =
      ⊎_elim (λ (e, l). rw e (add_valid-Outcome v l fits))
        (λ (x, e, bad). inr (x, rw e refl, invalid x fits bad))
        (validate_nondeleting_lem src arity rhs)

-- `add` to a homomorphism whose tables fit together does not panic. Either it succeeds, the arity
-- fits, the image term uses each variable below it once, and the symbol had no other image; then
-- the symbol has the term and the arity, other symbols keep theirs, the tables fit together, and
-- nothing changes if the symbol had the term. Or it fails with an error that says which of these
-- conditions does not hold: another arity, the first variable that is beyond the arity or occurs
-- again, the first that is missing, or another image.
pub add-Outcome :
    (h : Homomorphism) (src : Symbol) (arity : ℕ) (rhs : HomTerm)
    → IsHomomorphism h
    → Outcome h src arity rhs (add h src arity rhs)
unfolding add
add-Outcome h src arity rhs v = elim (Option-cases (lookup src h.arities)) [
  | inl new ↦
      rw (new, add)
        (validated-Outcome h src arity rhs v
          (λ n at. absurd (let both : none ≡ Option.some n = sym new ∙ at in cc)))
  | inr (old, ranked) ↦ elim (Bool-cases (old == arity)) [
    | inr other ↦ inr (
      arity_mismatch src old arity,
      rw (ranked, add) (rw other refl),
      other_arity old ranked (λ same. let hit = (nat_beq_iff old arity).1 same in cc),
    )
    | inl same ↦
        let equal : old ≡ arity = (nat_beq_iff old arity).0 same in
        rw (ranked, add)
          (rw same (
            validated-Outcome h src arity rhs v (λ n at.
              let both : Option.some old ≡ some n = sym ranked ∙ at in
              let one : old ≡ n = cc in sym one ∙ equal)))
  ]
]
