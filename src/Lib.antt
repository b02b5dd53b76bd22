-- ===== src/Lib.antt =====
-- rusty-alto: finite tree automata. This library models the core of the crate in src/: explicit
-- automata with their builder, lookup tables and reachability; the tables that they use; the
-- combinators that build automata from automata; the lazy wrapper that numbers the states of an
-- automaton; homomorphisms and their inverse images; and the algebra of strings, whose decomposition
-- automaton is the parser.
--
-- The parts, and the files that model them:
-- - Base, and the files below it: lists, options, results, Boolean tests, bit sets
--   (`FixedBitSet`), association lists (the hash maps), sorted sets (`StateSet` and `BTreeSet`),
--   ranges and vectors of rows.
-- - Ids: src/ids.rs. Numbers stand for the `u32` of a state or a symbol.
-- - Interner: src/interner.rs, `Interner`, with its laws in Interner/Laws.
-- - Signature: src/signature.rs, `Signature`, with its laws in Signature/Laws.
-- - Util/DenseIndex: src/util/dense_index.rs, `DenseIndex`: counting (Counts), writing (Scatter), and
--   the queries (Grouping), against the values of a key (Groups).
-- - Term: the trees that automata read, as terms. Traits: src/traits.rs, an automaton as a record of
--   the functions of its interface; Traits/Runs says which states a tree may receive, and
--   Traits/Views what the other interfaces promise of the bottom-up steps.
-- - Explicit: src/explicit.rs. Types has the records, Builder the functions of `ExplicitBuilder`
--   (Builder/Allocated, Builder/Duplicates), Index the tables of `bottom_up_indexes` and the queries
--   (Index/Lookup), Reach the saturation of `compute_reachable_states` and `is_empty`, TopDown the
--   rules by their result, Partial `step_partial`, and Weights `validate_probability_weights`. Below
--   Reach: Productive is the specification, Invariant and Steps the loop invariant, Mentions the index
--   of mentions, Start and Saturated the loops, Correct and Empty the results.
-- - Run: src/run.rs. Run/Tuples is `cartesian_product` (Odometer, Enumeration), Run/Det is `run_det`
--   (Evaluation against the evaluation of a tree, Language), Run/Nondet is `run_nondet` (Sets, Correct);
--   Run/Agreement compares the two.
-- - Combinators: src/combinators/product.rs, mapped.rs and determinized.rs.
-- - Combinators/InvHom: src/combinators/invhom.rs, `InvHom::step` and `eval_term`: Evaluation of a
--   right-hand side, Steps over symbols, Images of a tree, and the Language of the whole.
-- - Homomorphism: src/homomorphism.rs: Rhs (its well-formed right-hand sides), Adding (the checks on a
--   mapping), Registering (the interning of its terms), Refusals (the errors of the checks), Outcomes
--   (`Homomorphism::add`).
-- - Memo: src/memo.rs, `Memo`: Keys (the states handed out so far), Interning (numbers for results),
--   Steps (the answers to `step`), Det (`step_det`), Views (the other interfaces).
-- - SetTrie: src/set_trie.rs, `SetTrie`: Entries, Edges (the invariant) and Visits (the traversals).
-- - Algebras/Strings: src/algebras/string.rs, `StringAlgebra` and `StringDecomposition`, and
--   `evaluate_term` of src/algebras/mod.rs. Positions, Covers, Steps, Values and Meaning lead to the
--   language of the decomposition; Unique, TopDown and Queries are its other interfaces; Words and
--   Sentences read a sentence. Siblings models `StringSiblingFinder` (Partners, Slots, Finder, Activation),
--   Condensed the condensed rules (Listing, Counting), and Parsing joins the parts.
-- - Witness: the theorems at concrete inputs, and tests.
--
-- How they interact: a builder makes an explicit automaton, whose index and reachable states use the
-- dense index; its queries are an automaton in the sense of Traits, which the combinators take, and
-- `determinized` enumerates rows of states by `cartesian_product`. A homomorphism keeps its symbols in
-- signatures; its inverse image takes an automaton in the sense of Traits, as the memo does, and the
-- decomposition of a sentence is one.
--
-- How the code is written here: a function of the program is a function of the same name. A panic is
-- `none`, and `panic` in `Result` where the function also returns errors. A callback is the list of
-- what it is called with, in order. Caches that hold what a function of the other fields returns are
-- calls of this function. A weight is an element of any type with the tests that the code makes of it.
--
-- Fuel: the outer loop of `compute_reachable_states` has as much fuel as there are states, since each
-- state is pushed at most once; the odometer has as much as there are tuples. Both are shown to be
-- enough: the theorems say that a result is returned.
--
-- Not modelled: the text formats and grammar files, the algebras of trees and of tree-adjoining
-- grammars, search with floating-point scores, materialization and trimming, counting of languages,
-- the command-line programs and the bindings. The arena of trees is another package: `Arena` is a
-- record of what the runners call of it, and that its order puts children first is a hypothesis of
-- their theorems. The splitting of a sentence at white space is a parameter.
pub mod Base
pub mod Ids
pub mod Interner
pub mod Signature
pub mod Util
pub mod Term
pub mod Traits
pub mod Explicit
pub mod Run
pub mod Combinators
pub mod Algebras
pub mod Memo
pub mod SetTrie
pub mod Homomorphism
pub mod Witness
