-- ===== src/Algebras/Strings.antt =====
-- src/algebras/string.rs: spans, the string algebra, and the automaton of the terms that denote a
-- given sentence. A panic is `none`.
pub mod Positions
pub mod Covers
pub mod Steps
pub mod Values
pub mod Meaning
pub mod Queries
pub mod Unique
pub mod TopDown
pub mod Words
pub mod Sentences
pub mod Siblings
pub mod Condensed
pub mod Parsing
use Prim.Native.String.{String}
use rusty_alto.Base.{
  ℕ, suc, ◌+◌, ◌-◌, ◌*◌, ◌/◌, ◌%◌, ◌^◌, ◌≡◌, ◌↔◌, Bool, true, false, ◌&&◌, not, List, [], ◌∷◌, ◌++◌,
  map, Option, none, some, ◌>>=◌, Eq, ◌==◌, nat_eq, ltb, leb, length, get_elem?, if◌then◌else◌,
  arith,
}
use rusty_alto.Base.Assoc.{Assoc, lookup, entry}
use rusty_alto.Base.Flat.{flat_map}
use rusty_alto.Base.Ranges.{range}
use rusty_alto.Base.Result.{Result, ok, err, panic}
use rusty_alto.Ids.{Symbol, StateId}
use rusty_alto.Signature.{Signature, SignatureError, new as empty_signature, intern, resolve}
use rusty_alto.Term.{Term, Terms, node, nil, cons}
use rusty_alto.Traits.{BottomUpTa, DetBottomUpTa, IndexedBottomUpTa}

pub record Span : Type 0 where
  pub start : ℕ
  pub end : ℕ

abbrev pub span_beq : Span → Span → Bool
span_beq s t = (s.start == t.start) && (s.end == t.end)

pub span_beq_iff : (s t : Span) → (span_beq s t ≡ true) ↔ (s ≡ t)
span_beq_iff s t = ground arith

instance abbrev pub span_eq : Eq Span
span_eq = record { same_iff = span_beq_iff; same = span_beq }

-- `Span::len`: below zero the `usize` wraps around.
unfoldable pub span_len : Span → ℕ
span_len s = if leb s.start s.end then s.end - s.start else s.end + 2 ^ 64 - s.start

-- `Span::is_empty`
unfoldable pub span_is_empty : Span → Bool
span_is_empty s = s.start == s.end

pub record StringAlgebra : Type 0 where
  pub signature : Signature
  pub concat : Symbol

-- `Result::unwrap`
unfoldable pub unwrap {ℓ κ} : {E : Type ℓ} {A : Type κ} → Result E A → Option A
unwrap (ok a) = some a
unwrap (err e) = none
unwrap panic = none

-- `StringAlgebra::with_signature`
unfoldable pub with_signature : Signature → Option StringAlgebra
with_signature s = do
  (signature, concat) ← unwrap (intern s "*" 2)
  some (record { signature = signature; concat = concat })

-- `StringAlgebra::new`
unfoldable pub new : Option StringAlgebra
unfolding with_signature
new = with_signature empty_signature

-- `StringAlgebra::intern_word`
unfoldable pub intern_word : StringAlgebra → String → Option (StringAlgebra × Symbol)
intern_word a word = do
  (signature, symbol) ← unwrap (intern a.signature word 0)
  some (record { signature = signature; concat = a.concat }, symbol)

-- the `map` of `parse_string`
unfoldable pub intern_words : StringAlgebra → List String → Option (StringAlgebra × List Symbol)
intern_words a [] = some (a, [])
intern_words a (word ∷ words) = do
  (b, symbol) ← intern_word a word
  (c, symbols) ← intern_words b words
  some (c, symbol ∷ symbols)

-- `StringAlgebra::parse_string`; how a text splits into words is the standard library's
unfoldable pub parse_string :
    (String → List String) → StringAlgebra → String → Option (StringAlgebra × List Symbol)
parse_string split_whitespace a input = intern_words a (split_whitespace input)

-- `StringAlgebra::evaluate`
unfoldable pub evaluate : StringAlgebra → Symbol → List (List Symbol) → Option (List Symbol)
evaluate a symbol children =
    if symbol == a.concat
    then (elim children [ left ∷ right ∷ [] ↦ some (left ++ right) | _ ↦ none ])
    else (elim children [ [] ↦ some (symbol ∷ []) | _ ↦ none ])

unfoldable mutual
  -- `Algebra::evaluate_term_internal`
  pub evaluate_term_internal : StringAlgebra → Term → Option (List Symbol)
  evaluate_term_internal a (node f ts) = do children ← evaluate_children a ts; evaluate a f children

  -- the children of a node, collected
  pub evaluate_children : StringAlgebra → Terms → Option (List (List Symbol))
  evaluate_children a nil = some []
  evaluate_children a (cons t ts) = do
    value ← evaluate_term_internal a t
    values ← evaluate_children a ts
    some (value ∷ values)

-- `StringAlgebra::to_external`; `none` is a panic of `resolve`
unfoldable pub to_external : StringAlgebra → List Symbol → Option (List String)
to_external a [] = some []
to_external a (symbol ∷ symbols) = do
  name ← resolve a.signature symbol
  names ← to_external a symbols
  some (name ∷ names)

-- `Algebra::evaluate_term`
unfoldable pub evaluate_term : StringAlgebra → Term → Option (List String)
evaluate_term a t = do value ← evaluate_term_internal a t; to_external a value

pub record StringDecompositionAutomaton : Type 0 where
  pub concat : Symbol
  pub sentence : List Symbol
  pub positions_by_word : Assoc Symbol (List ℕ)

-- the loop of `StringDecompositionAutomaton::new`
unfoldable pub index_words : ℕ → List Symbol → Assoc Symbol (List ℕ) → Assoc Symbol (List ℕ)
index_words position [] m = m
index_words position (word ∷ words) m =
    index_words (suc position) words (entry word [] (λ ps. ps ++ position ∷ []) m)

-- `StringDecompositionAutomaton::new`
unfoldable pub new_automaton : Symbol → List Symbol → StringDecompositionAutomaton
new_automaton concat sentence = record {
  concat = concat;
  sentence = sentence;
  positions_by_word = index_words 0 sentence [];
}

-- `StringAlgebra::decompose`
unfoldable pub decompose : StringAlgebra → List Symbol → StringDecompositionAutomaton
decompose a sentence = new_automaton a.concat sentence

module _ (d : StringDecompositionAutomaton) where
  -- `StringDecompositionAutomaton::len`
  unfoldable pub len : ℕ
  len = length d.sentence

  -- `StringDecompositionAutomaton::valid_span`
  unfoldable pub valid_span : Span → Bool
  valid_span span = ltb span.start span.end && leb span.end len

  -- the test of the rule for the concatenation
  unfoldable pub joins : Span → Span → Bool
  joins left right = valid_span left && (valid_span right && (left.end == right.start))

  -- the positions of a word, as spans
  unfoldable pub word_spans : Option (List ℕ) → List Span
  word_spans none = []
  word_spans (some positions) = map (λ i. record { start = i; end = i + 1 }) positions

  -- `step`
  unfoldable pub step : Symbol → List Span → List Span
  step f children =
      if f == d.concat
      then (elim children [
        | left ∷ right ∷ [] ↦
            if joins left right then record { start = left.start; end = right.end } ∷ [] else []
        | _ ↦ []
      ])
      else (elim children [ [] ↦ word_spans (lookup f d.positions_by_word) | _ ↦ [] ])

  -- `is_accepting`
  unfoldable pub is_accepting : Span → Bool
  is_accepting q = q == record { start = 0; end = len }

  -- the position of a word that has only one; no list of the table is empty
  unfoldable pub only_position : Option (List ℕ) → Option Span
  only_position (some (i ∷ [])) = some (record { start = i; end = i + 1 })
  only_position _ = none

  -- `step_det`
  unfoldable pub step_det : Symbol → List Span → Option Span
  step_det f children =
      if f == d.concat
      then (elim children [
        | left ∷ right ∷ [] ↦
            if joins left right then some (record { start = left.start; end = right.end }) else none
        | _ ↦ none
      ])
      else (elim children [ [] ↦ only_position (lookup f d.positions_by_word) | _ ↦ none ])

  -- `all_states`
  unfoldable pub all_states : List Span
  all_states =
      flat_map
        (λ start. map (λ end. record { start = start; end = end }) (range (start + 1) (len + 1)))
        (range 0 len)

  -- the calls of `step_partial` and of `condensed_rules_by_child` for a valid span on the left
  unfoldable pub right_partners : Span → List (List Span × Span)
  right_partners left =
      map
        (λ end. (
          left ∷ record { start = left.end; end = end } ∷ [],
          record { start = left.start; end = end },
        ))
        (range (left.end + 1) (len + 1))

  -- the same on the right
  unfoldable pub left_partners : Span → List (List Span × Span)
  left_partners right =
      map
        (λ start. (
          record { start = start; end = right.start } ∷ right ∷ [],
          record { start = start; end = right.end },
        ))
        (range 0 right.start)

  -- `step_partial`
  unfoldable pub step_partial : Symbol → ℕ → Span → List (List Span × Span)
  step_partial f position state =
      if not (f == d.concat)
      then []
      else if not (valid_span state)
      then []
      else if position == 0
      then right_partners state
      else if position == 1
      then left_partners state
      else []

  -- the word of a span of length one; `none` is a panic
  unfoldable pub word_rule : Span → Option (List (Symbol × List Span))
  word_rule parent = do word ← get_elem? d.sentence parent.start; some ((word, []) ∷ [])

  -- `step_topdown`
  unfoldable pub step_topdown : Span → Option (List (Symbol × List Span))
  step_topdown parent =
      if not (valid_span parent)
      then some []
      else if span_len parent == 1
      then word_rule parent
      else some (
          map
            (λ split. (
              d.concat,
              record { start = parent.start; end = split }
                  ∷ record { start = split; end = parent.end }
                  ∷ [],
            ))
            (range (parent.start + 1) parent.end))

  -- `initial_states`
  unfoldable pub initial_states : List Span
  initial_states = if len == 0 then [] else record { start = 0; end = len } ∷ []

  -- The automaton as the interface that the runners and the combinators take.
  abbrev pub automaton : BottomUpTa Span
  automaton = record { step = step; is_accepting = is_accepting }
