-- ===== src/Witness.antt =====
-- The theorems at concrete inputs, and tests of the code on them.
mod Automata
mod Combined
mod Tables
mod Runs
mod Sentences
mod Spans
mod Views
