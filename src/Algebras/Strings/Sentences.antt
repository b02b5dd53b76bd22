-- ===== src/Algebras/Strings/Sentences.antt =====
-- From a text to the language of its decomposition automaton.
use Prim.Native.String.{String}
use rusty_alto.Base.{
  ◌+◌, ◌≤◌, ◌≡◌, refl, sym, ap, ◌∙◌, ◌↔◌, List, [], ◌∷◌, Option, some, >>=-eq-some, length, All,
  nat_eq, string_eq,
}
use rusty_alto.Ids.{Symbol, u32_max}
use rusty_alto.Signature.{resolve}
use rusty_alto.Term.{Term}
use rusty_alto.Traits.Runs.{Accepts}
use rusty_alto.Algebras.Strings.{
  StringAlgebra, parse_string, to_external, evaluate_term_internal, evaluate_term, decompose,
  automaton,
}
use rusty_alto.Algebras.Strings.Meaning.{decompose-Accepts_iff}
use rusty_alto.Algebras.Strings.Words.{IsAlgebra, IsWord, Parsed, intern_words-Parsed}

-- The symbols of a valid signature have different names.
resolve-injective :
    (a : StringAlgebra) (p q : Symbol) (n : String)
    → IsAlgebra a
    → resolve a.signature p ≡ some n
    → resolve a.signature q ≡ some n
    → p ≡ q
unfolding resolve
resolve-injective a p q n v h k =
    let first = v.valid.two_way.to_forward n p h in
    let second = v.valid.two_way.to_forward n q k in
    let both : Option.some p ≡ some q = sym first ∙ second in cc

to_external-injective :
    (a : StringAlgebra) (xs ys : List Symbol) (words : List String)
    → IsAlgebra a
    → to_external a xs ≡ some words
    → to_external a ys ≡ some words
    → xs ≡ ys
unfolding to_external
to_external-injective a [] [] words v h k = refl
to_external-injective a [] (y ∷ ys) words v h k =
    let (n, first, more) = >>=-eq-some (resolve a.signature y) _ k in
    let (ns, rest, all) = >>=-eq-some (to_external a ys) _ more in cc
to_external-injective a (x ∷ xs) [] words v h k =
    let (n, first, more) = >>=-eq-some (resolve a.signature x) _ h in
    let (ns, rest, all) = >>=-eq-some (to_external a xs) _ more in cc
to_external-injective a (x ∷ xs) (y ∷ ys) words v h k =
    let (n, first, more) = >>=-eq-some (resolve a.signature x) _ h in
    let (ns, rest, all) = >>=-eq-some (to_external a xs) _ more in
    let (m, first', more') = >>=-eq-some (resolve a.signature y) _ k in
    let (ms, rest', all') = >>=-eq-some (to_external a ys) _ more' in
    let heads : m ≡ n = cc in
    let tails : ms ≡ ns = cc in
    let head : x ≡ y = resolve-injective a x y n v first (first' ∙ ap some heads) in
    let tail : xs ≡ ys = to_external-injective a xs ys ns v rest (rest' ∙ ap some tails) in cc

-- With words that are free or nullary and room for them, `parse_string` returns, and the symbols
-- print as the words.
pub parse_string-Parsed :
    (split_whitespace : String → List String) (a : StringAlgebra) (input : String)
    → IsAlgebra a
    → length a.signature.names + length (split_whitespace input) ≤ u32_max
    → All (IsWord a.signature) (split_whitespace input)
    → (b : StringAlgebra) × (xs : List Symbol) × (parse_string split_whitespace a input
        ≡ some (b, xs))
      × Parsed a (split_whitespace input) b xs
unfolding parse_string
parse_string-Parsed split_whitespace a input v room h =
    intern_words-Parsed a (split_whitespace input) v room h

-- A sentence whose symbols print as some words decomposes into exactly the terms whose value
-- prints as these words.
pub decompose-Accepts_words :
    (a : StringAlgebra) (xs : List Symbol) (words : List String) (t : Term)
    → IsAlgebra a
    → to_external a xs ≡ some words
    → Accepts (automaton (decompose a xs)) t ↔ (evaluate_term a t ≡ some words)
unfolding evaluate_term
decompose-Accepts_words a xs words t v h = (
  λ run. let value = (decompose-Accepts_iff a xs t).0 run in rw value h,
  λ e.
      let (ys, value, printed) = >>=-eq-some (evaluate_term_internal a t) _ e in
      let same : ys ≡ xs = to_external-injective a ys xs words v printed h in
      (decompose-Accepts_iff a xs t).1 (value ∙ ap some same),
)
