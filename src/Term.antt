-- ===== src/Term.antt =====
-- Trees over symbols: what an automaton reads. A list of trees is a type of its own.
use rusty_alto.Ids.{Symbol}

mutual
  pub data Term : Type 0 where
    node : Symbol → Terms → Term

  pub data Terms : Type 0 where
    nil : Terms
    cons : Term → Terms → Terms
