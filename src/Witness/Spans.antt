-- ===== src/Witness/Spans.antt =====
-- The other interfaces of the decomposition automaton, of src/algebras/string.rs, for a sentence.
use rusty_alto.Base.{◌↔◌, List, Memᴰ, [], ◌∷◌}
use rusty_alto.Ids.{Symbol}
use rusty_alto.Traits.Views.{IsIndexed}
use rusty_alto.Algebras.Strings.{Span, decompose, automaton, step, step_partial}
use rusty_alto.Algebras.Strings.Queries.{decompose-IsIndexed}
use rusty_alto.Algebras.Strings.Condensed.{CondensedRule, condensed_rules}
use rusty_alto.Algebras.Strings.Condensed.Listing.{condensed_rules_iff}
use rusty_alto.Witness.Sentences.{algebra, sentence, whole, no_concat}

decompose-IsIndexed_example : IsIndexed (record {
  oracle = automaton (decompose algebra sentence);
  step_partial = step_partial (decompose algebra sentence);
})
decompose-IsIndexed_example = decompose-IsIndexed algebra sentence

abbrev parts : List Span
parts = record { start = 0; end = 1 } ∷ record { start = 1; end = 2 } ∷ []

condensed_rules_iff_example :
    ((fs : List Symbol) × Memᴰ {A = CondensedRule}
        (parts, fs, whole)
        (condensed_rules (decompose algebra sentence))
      × Memᴰ {A = Symbol} 0 fs)
    ↔ Memᴰ whole (step (decompose algebra sentence) 0 parts)
condensed_rules_iff_example = condensed_rules_iff algebra sentence 0 parts whole no_concat
