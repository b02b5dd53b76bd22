-- ===== src/Algebras/Strings/Values.antt =====
-- The values of terms: one word, or the words of two values.
use rusty_alto.Base.{
  ◌<◌, ◌≡◌, subst, inl, inr, true, false, List, [], ◌∷◌, ◌++◌, some, >>=-eq-some, arith, ◌==◌,
  nat_eq, length, length-append, Bool-cases, All,
}
use rusty_alto.Ids.{Symbol}
use rusty_alto.Term.{Term, Terms, node, nil, cons}
use rusty_alto.Algebras.Strings.{StringAlgebra, evaluate, evaluate_term_internal, evaluate_children}

abbrev pub IsProper : List Symbol → Type 0
IsProper w = 0 < length w

module _ (a : StringAlgebra) where
  pub evaluate-pair :
      (f : Symbol) (u v : List Symbol)
      → (f == a.concat) ≡ true
      → evaluate a f (u ∷ v ∷ []) ≡ some (u ++ v)
  unfolding evaluate
  evaluate-pair f u v e = rw e

  pub evaluate-word : (f : Symbol) → (f == a.concat) ≡ false → evaluate a f [] ≡ some (f ∷ [])
  unfolding evaluate
  evaluate-word f e = rw e

  -- The terms with a value are a word and a concatenation.
  pub data Value (f : Symbol) : List (List Symbol) → List Symbol → Type 0 where
    a_word : (f == a.concat) ≡ false → Value f [] (f ∷ [])
    a_pair : {u v : List Symbol} → (f == a.concat) ≡ true → Value f (u ∷ v ∷ []) (u ++ v)

  pub evaluate-Value :
      (f : Symbol) (ws : List (List Symbol)) (w : List Symbol)
      → evaluate a f ws ≡ some w
      → Value f ws w
  unfolding evaluate
  evaluate-Value f [] w e = elim (Bool-cases (f == a.concat)) [
    | inl here ↦ absurd (let never = rw here at e in cc)
    | inr other ↦
        let only : f ∷ [] ≡ w = (let value = rw other at e in cc) in
        subst (Value f []) only (a_word other)
  ]
  evaluate-Value f (u ∷ []) w e = elim (Bool-cases (f == a.concat)) [
    | inl here ↦ absurd (let never = rw here at e in cc)
    | inr other ↦ absurd (let never = rw other at e in cc)
  ]
  evaluate-Value f (u ∷ v ∷ []) w e = elim (Bool-cases (f == a.concat)) [
    | inl here ↦
        let only : u ++ v ≡ w = (let value = rw here at e in cc) in
        subst (Value f (u ∷ v ∷ [])) only (a_pair here)
    | inr other ↦ absurd (let never = rw other at e in cc)
  ]
  evaluate-Value f (u ∷ v ∷ x ∷ ws) w e = elim (Bool-cases (f == a.concat)) [
    | inl here ↦ absurd (let never = rw here at e in cc)
    | inr other ↦ absurd (let never = rw other at e in cc)
  ]

  pub Value-IsProper :
      (f : Symbol) (ws : List (List Symbol)) (w : List Symbol)
      → All IsProper ws
      → Value f ws w
      → IsProper w
  Value-IsProper f ws w h (a_word e) = omega arith
  Value-IsProper f ws w h (a_pair {u = u} {v = v} e) = omega (arith, length-append u v, h.0)

  mutual
    unfolding evaluate_term_internal

    -- A value has at least one word.
    pub value-IsProper :
        (t : Term) (w : List Symbol) → evaluate_term_internal a t ≡ some w → IsProper w
    value-IsProper (node f ts) w e =
        let (ws, values, value) = >>=-eq-some (evaluate_children a ts) _ e in
        Value-IsProper f ws w (values-IsProper ts ws values) (evaluate-Value f ws w value)

    pub values-IsProper :
        (ts : Terms) (ws : List (List Symbol)) → evaluate_children a ts ≡ some ws → All IsProper ws
    values-IsProper nil [] e = tt
    values-IsProper nil (w ∷ ws) e = cc
    values-IsProper (cons t ts) ws e =
        let (w, value, more) = >>=-eq-some (evaluate_term_internal a t) _ e in
        let (rest, values, all) = >>=-eq-some (evaluate_children a ts) _ more in
        let same : ws ≡ w ∷ rest = cc in
        rw same (value-IsProper t w value, values-IsProper ts rest values)
