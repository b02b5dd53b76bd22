-- ===== src/Homomorphism/Refusals.antt =====
-- The errors of `validate_nondeleting`: what each says of the image term, and that one of them or
-- the success is returned.
use rusty_alto.Base.{
  ℕ, zero, suc, ◌+◌, ◌<◌, ◌≤◌, ◌≡◌, refl, sym, ap, ◌∙◌, ◌↔◌, ◌⊎◌, inl, inr, ⊎_elim, Bool, true,
  false, List, [], ◌∷◌, ◌++◌, append_assoc, append-nil, Memᴰ, mem-cons, mem-append, not-mem-nil,
  subst, nat_eq, arith, ltb, length, length-set, length-replicate, get_or-replicate, set, replicate,
  Bool-cases, Distinct, Distinct-concat,
}
use rusty_alto.Base.Bits.{has_bit, has_bit-set}
use rusty_alto.Base.Result.{ok, err}
use rusty_alto.Ids.{Symbol}
use rusty_alto.Homomorphism.Rhs.{HomTerm}
use rusty_alto.Homomorphism.{
  HomomorphismError, collect_vars, mark_vars, check_seen, validate_nondeleting, duplicate_variable,
  out_of_range_variable, missing_variable,
}
use rusty_alto.Homomorphism.Adding.{IsLinear, validate_nondeleting-IsLinear}

-- Variables that pass: below the arity, and each once.
abbrev pub IsFine : ℕ → List ℕ → Type 0
IsFine arity vars = Distinct vars × ((i : ℕ) → Memᴰ i vars → i < arity)

-- What an error says of the variables of an image term, in the order of their occurrences. The first
-- variable that is beyond the arity or that occurred before is reported; if there is none, the
-- first variable below the arity that does not occur.
pub data IsInvalid (src : Symbol) (arity : ℕ) (vars : List ℕ) : HomomorphismError → Type 0 where
  beyond :
      (before : List ℕ) (v : ℕ) (after : List ℕ)
      → vars ≡ before ++ v ∷ after
      → IsFine arity before
      → arity ≤ v
      → IsInvalid src arity vars (out_of_range_variable src v arity)
  twice :
      (before : List ℕ) (v : ℕ) (after : List ℕ)
      → vars ≡ before ++ v ∷ after
      → IsFine arity before
      → Memᴰ v before
      → IsInvalid src arity vars (duplicate_variable src v)
  missing :
      (v : ℕ)
      → IsFine arity vars
      → v < arity
      → ¬ Memᴰ v vars
      → ((i : ℕ) → i < v → Memᴰ i vars)
      → IsInvalid src arity vars (missing_variable src v)

-- The bits are those of the variables.
record Marks (arity : ℕ) (seen : List Bool) (before : List ℕ) : Type 0 where
  size : length seen ≡ arity
  fine : IsFine arity before
  bits : (i : ℕ) → (has_bit seen i ≡ true) ↔ Memᴰ i before

Marks-next :
    (arity : ℕ) (seen : List Bool) (before : List ℕ) (v : ℕ)
    → Marks arity seen before
    → v < arity
    → ¬ Memᴰ v before
    → Marks arity (set seen v true) (before ++ v ∷ [])
Marks-next arity seen before v m low fresh = record {
  size = length-set seen v true ∙ m.size;
  fine = (
    Distinct-concat v before m.fine.0 fresh,
    λ i k.
        ⊎_elim (λ old. m.fine.1 i old)
          (λ new.
            ⊎_elim (λ (same : i ≡ v). rw same low) (λ never. absurd (not-mem-nil i never))
              ((mem-cons i v []).0 new))
          ((mem-append i before (v ∷ [])).0 k),
  );
  bits = λ i. ground (
    arith,
    m.bits i,
    has_bit-set seen v i (omega (arith, m.size, low)),
    mem-append i before (v ∷ []),
    mem-cons i v [],
    not-mem-nil i,
  );
}

mark_vars-Marks :
    (src : Symbol) (arity : ℕ) (seen : List Bool) (before vars : List ℕ)
    → Marks arity seen before
    → ((marked : List Bool) × (mark_vars src arity seen vars ≡ ok marked)
        × Marks arity marked (before ++ vars))
      ⊎ ((x : HomomorphismError) × (mark_vars src arity seen vars ≡ err x)
          × IsInvalid src arity (before ++ vars) x)
unfolding mark_vars
mark_vars-Marks src arity seen before [] m =
    inl (seen, refl, subst (λ z. Marks arity seen z) (sym (append-nil before)) m)
mark_vars-Marks src arity seen before (v ∷ vars) m = elim (Bool-cases (ltb v arity)) [
  | inr high ↦ inr (
    out_of_range_variable src v arity,
    rw high refl,
    beyond before v vars refl m.fine (ground arith),
  )
  | inl within ↦ elim (Bool-cases (has_bit seen v)) [
    | inl again ↦ inr (
      duplicate_variable src v,
      rw (within, again) refl,
      twice before v vars refl m.fine ((m.bits v).0 again),
    )
    | inr new ↦
        let fresh : ¬ Memᴰ v before =
          (λ k. let both : true ≡ false = sym ((m.bits v).1 k) ∙ new in cc) in
        let rest =
          mark_vars-Marks src arity (set seen v true) (before ++ v ∷ []) vars
            (Marks-next arity seen before v m (ground arith) fresh) in
        rw (within, new) (rw (append_assoc before (v ∷ []) vars) at rest)
  ]
]

-- The bits below a position, with one more that is set.
later :
    (seen : List Bool) (i : ℕ)
    → ((j : ℕ) → j < i → has_bit seen j ≡ true)
    → (j : ℕ) → j < suc i
    → has_bit (true ∷ seen) j ≡ true
later seen i on zero h = refl
later seen i on (suc j) h = on j (omega arith)

check_seen-missing :
    (src : Symbol) (variable : ℕ) (seen : List Bool)
    → (check_seen src variable seen ≡ ok tt)
      ⊎ ((i : ℕ) × (check_seen src variable seen ≡ err (missing_variable src (variable + i)))
          × (i < length seen)
          × (has_bit seen i ≡ false)
          × ((j : ℕ) → j < i → has_bit seen j ≡ true))
unfolding check_seen
check_seen-missing src variable [] = inl refl
check_seen-missing src variable (false ∷ seen) = inr (
  0,
  ap (λ n. err (missing_variable src n)) (omega arith),
  omega arith,
  refl,
  λ j h. absurd (omega arith),
)
check_seen-missing src variable (true ∷ seen) =
    ⊎_elim inl
      (λ (i, e, low, off, on). inr (
        suc i,
        e ∙ ap (λ n. err (missing_variable src n)) (omega arith),
        omega arith,
        off,
        later seen i on,
      ))
      (check_seen-missing src (suc variable) seen)

-- `validate_nondeleting` succeeds for a term that uses the variables below the arity once, and
-- otherwise returns the error that says what is wrong.
pub validate_nondeleting_lem :
    (src : Symbol) (arity : ℕ) (rhs : HomTerm)
    → ((validate_nondeleting src arity rhs ≡ ok tt) × IsLinear arity rhs)
      ⊎ ((x : HomomorphismError) × (validate_nondeleting src arity rhs ≡ err x)
          × IsInvalid src arity (collect_vars rhs) x)
unfolding validate_nondeleting
validate_nondeleting_lem src arity rhs =
    let blank : Marks arity (replicate arity false) [] = record {
      size = length-replicate arity false;
      fine = (tt, λ i m. absurd (not-mem-nil i m));
      bits = λ i. (
        λ on.
            let off = get_or-replicate arity i false in
            absurd (let both : true ≡ false = sym on ∙ off in cc),
        λ m. absurd (not-mem-nil i m),
      );
    } in
    ⊎_elim
      (λ (marked, runs, m).
        ⊎_elim
          (λ done.
            let all : validate_nondeleting src arity rhs ≡ ok tt =
              rw (runs, validate_nondeleting) done in
            inl (rw runs done, validate_nondeleting-IsLinear src arity rhs all))
          (λ (v, fails, low, off, on). inr (
            missing_variable src v,
            rw runs (fails ∙ ap (λ n. err (missing_variable src n)) (omega arith)),
            missing v m.fine (omega (arith, m.size, low))
                (λ k. let both : true ≡ false = sym ((m.bits v).1 k) ∙ off in cc)
                (λ i h. (m.bits i).0 (on i h)),
          ))
          (check_seen-missing src 0 marked))
      (λ (x, fails, bad). inr (x, rw fails refl, bad))
      (mark_vars-Marks src arity (replicate arity false) [] (collect_vars rhs) blank)
