-- ===== src/Homomorphism/Rhs.antt =====
-- src/homomorphism.rs: image terms over `HomLabel`, and their structural equality.
use rusty_alto.Base.{ℕ, ◌≡◌, ◌↔◌, Bool, true, false, ◌&&◌, Eq, ◌==◌, nat_eq, arith}
use rusty_alto.Ids.{Symbol}

mutual
  pub data HomTerm : Type 0 where
    var : ℕ → HomTerm
    symbol : Symbol → HomTerms → HomTerm

  pub data HomTerms : Type 0 where
    no_terms : HomTerms
    and_term : HomTerm → HomTerms → HomTerms

unfoldable mutual
  pub hom_beq : HomTerm → HomTerm → Bool
  hom_beq (var i) (var j) = i == j
  hom_beq (symbol f ts) (symbol g us) = (f == g) && homs_beq ts us
  hom_beq _ _ = false

  pub homs_beq : HomTerms → HomTerms → Bool
  homs_beq no_terms no_terms = true
  homs_beq (and_term t ts) (and_term u us) = hom_beq t u && homs_beq ts us
  homs_beq _ _ = false

mutual
  unfolding hom_beq

  pub hom_beq_iff : (t u : HomTerm) → (hom_beq t u ≡ true) ↔ (t ≡ u)
  hom_beq_iff (var i) (var j) = ground arith
  hom_beq_iff (var i) (symbol g us) = ground arith
  hom_beq_iff (symbol f ts) (var j) = ground arith
  hom_beq_iff (symbol f ts) (symbol g us) = ground (arith, homs_beq_iff ts us)

  pub homs_beq_iff : (ts us : HomTerms) → (homs_beq ts us ≡ true) ↔ (ts ≡ us)
  homs_beq_iff no_terms no_terms = ground arith
  homs_beq_iff no_terms (and_term u us) = ground arith
  homs_beq_iff (and_term t ts) no_terms = ground arith
  homs_beq_iff (and_term t ts) (and_term u us) = ground (arith, hom_beq_iff t u, homs_beq_iff ts us)

instance abbrev pub hom_eq : Eq HomTerm
hom_eq = record { same_iff = hom_beq_iff; same = hom_beq }
