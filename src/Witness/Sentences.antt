-- ===== src/Witness/Sentences.antt =====
-- The string algebra of src/algebras/string.rs at concrete inputs: the words `a` and `b` are the
-- symbols 1 and 2 beside the concatenation 0.
use Prim.Native.String.{String}
use rusty_alto.Base.{
  ℕ, ◌+◌, ◌-◌, ◌*◌, ◌≤◌, ◌<◌, ◌^◌, ◌≡◌, refl, ◌↔◌, inl, inr, Bool, List, [], ◌∷◌, Memᴰ, mem-cons,
  not-mem-nil, none, some, nat_eq, string_eq, arith, length, All, Bool-cases, ◌==◌, nat_beq_iff,
  sym, subst,
}
use rusty_alto.Base.Assoc.{lookup, insert}
use rusty_alto.Base.TwoWay.{empty-TwoWay, insert-TwoWay}
use rusty_alto.Base.Result.{ok}
use rusty_alto.Base.Ranges.{range}
use rusty_alto.Ids.{Symbol, u32_max}
use rusty_alto.Signature.{Signature, get, resolve, arity}
use rusty_alto.Signature.Laws.{IsValid}
use rusty_alto.Term.{Term, node, nil, cons}
use rusty_alto.Traits.Runs.{Accepts}
use rusty_alto.Homomorphism.Rhs.{var, symbol, no_terms}
use rusty_alto.Homomorphism.{Homomorphism, get as image_of, apply, collect_vars}
use rusty_alto.Homomorphism.Adding.{IsLinear, IsNondeleting}
use rusty_alto.Combinators.Product.{product}
use rusty_alto.Combinators.InvHom.{inv_hom}
use rusty_alto.Combinators.InvHom.Language.{
  IsRanked, ranked, no_trees, and_tree, inv_hom-Accepts_iff,
}
use rusty_alto.Algebras.Strings.{
  Span, span_eq, StringAlgebra, StringDecompositionAutomaton, parse_string, to_external,
  evaluate_term_internal, evaluate_term, decompose, automaton, len, step, step_topdown,
}
use rusty_alto.Algebras.Strings.Meaning.{decompose-Accepts_iff}
use rusty_alto.Algebras.Strings.TopDown.{decompose-step_topdown}
use rusty_alto.Algebras.Strings.Words.{IsAlgebra, IsWord, Parsed}
use rusty_alto.Algebras.Strings.Sentences.{parse_string-Parsed, decompose-Accepts_words}
use rusty_alto.Algebras.Strings.Parsing.{parse-Accepts_iff}
use rusty_alto.Algebras.Strings.Siblings.{
  StringSiblingIndex, new_index, add_all, partners, SpanProductSiblingFinder, activate,
}
use rusty_alto.Algebras.Strings.Siblings.Partners.{IsCall, lefts, rights, partners_lem}
use rusty_alto.Algebras.Strings.Siblings.Activation.{
  Change, empty_finder, empty_finder-IsFinder, activate-Change,
}
use rusty_alto.Algebras.Strings.Condensed.{
  condensed_rules, rule_count, lexical_rules, concat_rules, rules_from, concat_rule,
}
use rusty_alto.Algebras.Strings.Condensed.Counting.{rule_count_lem}
use rusty_alto.Util.DenseIndex.Groups.{group}
use rusty_alto.Witness.Combined.{chain, tree}

abbrev labels : Signature
labels = record {
  names = "*" ∷ "a" ∷ [];
  ids = ("*", 0) ∷ ("a", 1) ∷ [];
  arities = (0, 2) ∷ (1, 0) ∷ [];
}

labels-IsValid : IsValid labels
unfolding lookup insert
labels-IsValid = record {
  two_way =
      insert-TwoWay (("*", 0) ∷ []) ("*" ∷ []) "a" 1
        (insert-TwoWay [] [] "*" 0 empty-TwoWay refl refl) refl refl;
  ranked = λ q h. rank q h;
  ranked_only = λ q a h. ground arith;
}
  where
    rank : (q : Symbol) → q < 2 → (a : ℕ) × (lookup q labels.arities ≡ some a)
    rank q h = elim (Bool-cases (0 == q)) [
      | inl first ↦ (2, ground arith)
      | inr other ↦ (0, ground arith)
    ]

abbrev pub algebra : StringAlgebra
algebra = record { signature = labels; concat = 0 }

algebra-IsAlgebra : IsAlgebra algebra
unfolding get arity lookup
algebra-IsAlgebra = record { valid = labels-IsValid; named = refl; binary = refl }

abbrev pub sentence : List Symbol
sentence = 1 ∷ 1 ∷ []

abbrev pair_tree : Term
pair_tree = node 0 (cons (node 1 nil) (cons (node 1 nil) nil))

decompose-Accepts_iff_example :
    Accepts (automaton (decompose algebra sentence)) pair_tree
    ↔ (evaluate_term_internal algebra pair_tree ≡ some sentence)
decompose-Accepts_iff_example = decompose-Accepts_iff algebra sentence pair_tree

pub no_concat : ¬ Memᴰ {A = Symbol} 0 sentence
no_concat m = ground (
  arith,
  mem-cons {A = Symbol} 0 1 (1 ∷ []),
  mem-cons {A = Symbol} 0 1 [],
  not-mem-nil {A = Symbol} 0,
)

abbrev pub whole : Span
whole = record { start = 0; end = 2 }

decompose-step_topdown_example :
    (rules : List (Symbol × List Span)) × (step_topdown (decompose algebra sentence) whole
      ≡ some rules)
    × ((f : Symbol) (cs : List Span)
        → Memᴰ (f, cs) rules ↔ Memᴰ whole (step (decompose algebra sentence) f cs))
decompose-step_topdown_example = decompose-step_topdown algebra sentence whole no_concat

abbrev words : String → List String
words input = "a" ∷ "b" ∷ "a" ∷ []

words-IsWord : All (IsWord labels) (words "a b a")
unfolding get arity lookup
words-IsWord = ((λ q h. ground arith), ((λ q h. ground arith), ((λ q h. ground arith), tt)))

room : length labels.names + length (words "a b a") ≤ u32_max
unfolding u32_max
room = omega arith

parse_string-Parsed_example :
    (b : StringAlgebra) × (xs : List Symbol) × (parse_string words algebra "a b a" ≡ some (b, xs))
    × Parsed algebra (words "a b a") b xs
parse_string-Parsed_example =
    parse_string-Parsed words algebra "a b a" algebra-IsAlgebra room words-IsWord

sentence_printed : to_external algebra sentence ≡ some ("a" ∷ "a" ∷ [])
unfolding to_external resolve
sentence_printed = refl

decompose-Accepts_words_example :
    Accepts (automaton (decompose algebra sentence)) pair_tree
    ↔ (evaluate_term algebra pair_tree ≡ some ("a" ∷ "a" ∷ []))
decompose-Accepts_words_example =
    decompose-Accepts_words algebra sentence ("a" ∷ "a" ∷ []) pair_tree algebra-IsAlgebra
      sentence_printed

-- the symbol 0 has the image `a`, and the symbol 1 the image of its child
abbrev images : Homomorphism
images = record {
  terms = symbol 1 no_terms ∷ var 0 ∷ [];
  labels = (0 ∷ []) ∷ (1 ∷ []) ∷ [];
  symbol_to_term = (0, 0) ∷ (1, 1) ∷ [];
  arities = (0, 0) ∷ (1, 1) ∷ [];
  term_dedup = (symbol 1 no_terms, 0) ∷ (var 0, 1) ∷ [];
  root_index = (1, 0 ∷ []) ∷ [];
}

constant-IsLinear : IsLinear 0 (symbol 1 no_terms)
unfolding collect_vars
constant-IsLinear = record {
  once = tt;
  exactly = λ i. (λ m. absurd (not-mem-nil i m), λ low. absurd (omega arith));
}

child-IsLinear : IsLinear 1 (var 0)
unfolding collect_vars
child-IsLinear = record {
  once = (not-mem-nil {A = ℕ} 0, tt);
  exactly = λ i. ground (arith, mem-cons i 0 [], not-mem-nil i);
}

images-IsNondeleting : IsNondeleting images
unfolding image_of lookup
images-IsNondeleting f rhs e = elim (Bool-cases (0 == f)) [
  | inl first ↦
      let at : 0 ≡ f = (nat_beq_iff 0 f).0 first in
      let read : image_of images 0 ≡ some rhs =
        subst (λ z. image_of images z ≡ some rhs) (sym at) e in
      let same : symbol 1 no_terms ≡ rhs = cc in
      (0, rw first refl, subst (IsLinear 0) same constant-IsLinear)
  | inr other ↦ elim (Bool-cases (1 == f)) [
    | inl second ↦
        let at : 1 ≡ f = (nat_beq_iff 1 f).0 second in
        let read : image_of images 1 ≡ some rhs =
          subst (λ z. image_of images z ≡ some rhs) (sym at) e in
        let same : var 0 ≡ rhs = cc in
        (1, rw (other, second) refl, subst (IsLinear 1) same child-IsLinear)
    | inr unmapped ↦
        let gone : lookup f images.symbol_to_term ≡ none = rw (other, unmapped) refl in
        absurd (let never = rw (gone, image_of) at e in cc)
  ]
]

tree-IsRanked : IsRanked images tree
unfolding lookup
tree-IsRanked =
    ranked (λ n e. ground arith) (and_tree (ranked (λ n e. ground arith) no_trees) no_trees)

inv_hom-Accepts_iff_example :
    Accepts (inv_hom images (automaton (decompose algebra (1 ∷ [])))) tree
    ↔ ((u : Term) × (apply images tree ≡ ok u) × Accepts (automaton (decompose algebra (1 ∷ []))) u)
inv_hom-Accepts_iff_example =
    inv_hom-Accepts_iff images (automaton (decompose algebra (1 ∷ []))) tree images-IsNondeleting
      tree-IsRanked

parse-Accepts_iff_example :
    Accepts (product chain (inv_hom images (automaton (decompose algebra (1 ∷ []))))) tree ↔ (
      Accepts chain tree
      × ((u : Term) × (apply images tree ≡ ok u)
          × (evaluate_term_internal algebra u ≡ some (1 ∷ []))))
parse-Accepts_iff_example =
    parse-Accepts_iff chain images algebra (1 ∷ []) tree images-IsNondeleting tree-IsRanked

activate-Change_example :
    (g : SpanProductSiblingFinder) × (first : Bool) × (activate empty_finder 3 1 2 whole 0
      ≡ some (g, first))
    × Change empty_finder (record { product = 3; right_state = 2 }) 1 whole 0 g first
activate-Change_example =
    activate-Change empty_finder 3 1 2 whole 0 empty_finder-IsFinder (omega arith)

abbrev decomposition : StringDecompositionAutomaton
decomposition = record {
  concat = 0;
  sentence = 1 ∷ 2 ∷ 1 ∷ [];
  positions_by_word = (1, 0 ∷ 2 ∷ []) ∷ (2, 1 ∷ []) ∷ [];
}

product_fits : (len decomposition - 1) * len decomposition * (len decomposition + 1) < 2 ^ 64
unfolding len
product_fits = omega arith

count_fits : length (condensed_rules decomposition) < 2 ^ 64
unfolding condensed_rules lexical_rules concat_rules rules_from concat_rule range len
count_fits = omega arith

rule_count_lem_example : rule_count decomposition ≡ length (condensed_rules decomposition)
rule_count_lem_example = rule_count_lem decomposition product_fits count_fits

abbrev calls : List (ℕ × Span × ℕ)
calls =
    (0, record { start = 0; end = 1 }, 7)
    ∷ (1, record { start = 1; end = 2 }, 8)
    ∷ (1, record { start = 1; end = 3 }, 9)
    ∷ []

calls-IsCall : All (IsCall (len decomposition)) calls
unfolding len
calls-IsCall = (
  (inl refl, omega arith, omega arith),
  ((inr refl, omega arith, omega arith), ((inr refl, omega arith, omega arith), tt)),
)

partners_lem_example :
    (ix : StringSiblingIndex) × (new_index decomposition 0 ≡ some ix)
    × ((jx : StringSiblingIndex) × (add_all ix calls ≡ some jx)
        × ((p : Span)
            → p.start ≤ len decomposition
            → p.end ≤ len decomposition
            → (partners jx 0 p ≡ some (group p.end (rights calls)))
              × (partners jx 1 p ≡ some (group p.start (lefts calls)))))
partners_lem_example = partners_lem decomposition calls calls-IsCall
