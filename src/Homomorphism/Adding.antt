-- ===== src/Homomorphism/Adding.antt =====
-- Every homomorphism that `add` makes is nondeleting: its image terms use each variable once.
use rusty_alto.Base.{
  ℕ, zero, suc, ◌<◌, ◌≡◌, refl, sym, ◌∙◌, ◌↔◌, ◌⊎◌, inl, inr, ⊎_elim, Bool, true, false, List, [],
  ◌∷◌, Memᴰ, mem-cons, not-mem-nil, some, nat_eq, arith, ltb, length, length-set, length-replicate,
  get_or-replicate, set, replicate, Bool-cases, Distinct,
}
use rusty_alto.Base.Bits.{has_bit, has_bit-set}
use rusty_alto.Base.Assoc.{lookup}
use rusty_alto.Base.Result.{ok, >>=-eq-ok}
use rusty_alto.Ids.{Symbol}
use rusty_alto.Homomorphism.Rhs.{HomTerm}
use rusty_alto.Homomorphism.{
  Homomorphism, get, collect_vars, mark_vars, check_seen, validate_nondeleting,
}

-- The variables of an image term are those below the arity, each once.
pub record IsLinear (arity : ℕ) (rhs : HomTerm) : Type 0 where
  pub once : Distinct (collect_vars rhs)
  pub exactly : (i : ℕ) → Memᴰ i (collect_vars rhs) ↔ (i < arity)

-- The image terms use the variables of the arity of their symbol, each once.
abbrev pub IsNondeleting : Homomorphism → Type 0
IsNondeleting h =
    (f : Symbol) (rhs : HomTerm)
    → get h f ≡ some rhs
    → (n : ℕ) × (lookup f h.arities ≡ some n) × IsLinear n rhs

-- What marking variables means when it succeeds.
mark_vars-ok :
    (src : Symbol) (arity : ℕ) (seen : List Bool) (vars : List ℕ) (marked : List Bool)
    → length seen ≡ arity
    → mark_vars src arity seen vars ≡ ok marked
    → Distinct vars
      × (length marked ≡ arity)
      × ((i : ℕ) → Memᴰ i vars → (i < arity) × (has_bit seen i ≡ false))
      × ((i : ℕ) → (has_bit marked i ≡ true) ↔ (Memᴰ i vars ⊎ (has_bit seen i ≡ true)))
unfolding mark_vars
mark_vars-ok src arity seen [] marked size e =
    let same : seen ≡ marked = cc in
    (
      tt,
      rw (← same) size,
      λ i m. absurd (not-mem-nil i m),
      λ i. rw (← same) (inr, ⊎_elim (λ m. absurd (not-mem-nil i m)) (λ b. b)),
    )
mark_vars-ok src arity seen (v ∷ vars) marked size e = elim (Bool-cases (ltb v arity)) [
  | inr beyond ↦ absurd (let never = rw beyond at e in cc)
  | inl within ↦ elim (Bool-cases (has_bit seen v)) [
    | inl twice ↦ absurd (let never = rw (within, twice) at e in cc)
    | inr new ↦
        let low : v < arity = ground arith in
        let (once, width, fresh, bits) =
          mark_vars-ok src arity (set seen v true) vars marked (length-set seen v true ∙ size)
            (rw (within, new) at e) in
        let bit = λ (i : ℕ). has_bit-set seen v i (omega (arith, size, low)) in
        (
          (
            λ m. absurd (
                let unset = (fresh v m).1 in
                let now = (bit v).1 (inl refl) in let both : true ≡ false = sym now ∙ unset in cc),
            once,
          ),
          width,
          λ i m.
              ⊎_elim (λ (at : i ≡ v). (rw at low, rw at new))
                (λ n.
                  let (under, unset) = fresh i n in
                  (
                    under,
                    elim (Bool-cases (has_bit seen i)) [
                      | inr off ↦ off
                      | inl on ↦ absurd (
                          let now = (bit i).1 (inr on) in
                          let both : true ≡ false = sym now ∙ unset in cc)
                    ],
                  ))
                ((mem-cons i v vars).0 m),
          λ i. ground (arith, bits i, bit i, mem-cons i v vars),
        )
  ]
]

-- All marks are set when checking them succeeds.
check_seen-ok :
    (src : Symbol) (variable : ℕ) (seen : List Bool)
    → check_seen src variable seen ≡ ok tt
    → (i : ℕ) → i < length seen
    → has_bit seen i ≡ true
unfolding check_seen
check_seen-ok src variable [] e i low = absurd (omega arith)
check_seen-ok src variable (false ∷ seen) e i low = cc
check_seen-ok src variable (true ∷ seen) e zero low = refl
check_seen-ok src variable (true ∷ seen) e (suc i) low =
    check_seen-ok src (suc variable) seen e i (omega arith)

-- A term that passes `validate_nondeleting` uses the variables below the arity, each once.
pub validate_nondeleting-IsLinear :
    (src : Symbol) (arity : ℕ) (rhs : HomTerm)
    → validate_nondeleting src arity rhs ≡ ok tt
    → IsLinear arity rhs
unfolding validate_nondeleting
validate_nondeleting-IsLinear src arity rhs e =
    let (marked, marks, checks) =
      >>=-eq-ok (mark_vars src arity (replicate arity false) (collect_vars rhs)) _ e in
    let (once, width, fresh, bits) =
      mark_vars-ok src arity (replicate arity false) (collect_vars rhs) marked
        (length-replicate arity false) marks in
    record {
      once = once;
      exactly = λ i. (
        λ m. (fresh i m).0,
        λ low.
            ⊎_elim (λ m. m)
              (λ on.
                let off = get_or-replicate arity i false in
                absurd (let both : true ≡ false = sym on ∙ off in cc))
              ((bits i).0 (check_seen-ok src 0 marked checks i (omega (arith, width)))),
      );
    }
