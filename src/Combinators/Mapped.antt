-- ===== src/Combinators/Mapped.antt =====
-- src/combinators/mapped.rs: an automaton read through a renaming of symbols.
use rusty_alto.Base.{◌↔◌, List, [], ◌∷◌}
use rusty_alto.Ids.{Symbol}
use rusty_alto.Term.{Term, Terms, node, nil, cons}
use rusty_alto.Traits.{BottomUpTa, DetBottomUpTa, IndexedBottomUpTa}
use rusty_alto.Traits.Runs.{Assigns, AssignsAll, Accepts, assign, all_nil, all_cons}

module _ {ℓ} {S : Type ℓ} (rename : Symbol → Symbol) where
  -- `Mapped` as an automaton
  abbrev pub mapped : BottomUpTa S → BottomUpTa S
  mapped inner = record {
    step = λ f children. inner.step (rename f) children;
    is_accepting = inner.is_accepting;
  }

  -- `Mapped` as a deterministic automaton
  abbrev pub mapped_det : DetBottomUpTa S → DetBottomUpTa S
  mapped_det inner = record {
    oracle = mapped inner.oracle;
    step_det = λ f children. inner.step_det (rename f) children;
  }

  -- `Mapped` as an indexed automaton
  abbrev pub mapped_indexed : IndexedBottomUpTa S → IndexedBottomUpTa S
  mapped_indexed inner = record {
    oracle = mapped inner.oracle;
    step_partial = λ f position q. inner.step_partial (rename f) position q;
  }

mutual
  -- The tree with its symbols renamed.
  pub relabel : (Symbol → Symbol) → Term → Term
  relabel rename (node f ts) = node (rename f) (relabel_all rename ts)

  pub relabel_all : (Symbol → Symbol) → Terms → Terms
  relabel_all rename nil = nil
  relabel_all rename (cons t ts) = cons (relabel rename t) (relabel_all rename ts)

module _ {ℓ} {S : Type ℓ} (rename : Symbol → Symbol) (inner : BottomUpTa S) where
  mutual
    unfolding relabel relabel_all

    forward :
        (t : Term) (q : S) → Assigns (mapped rename inner) t q → Assigns inner (relabel rename t) q
    forward (node f ts) q (assign {qs = qs} all m) = assign (forward_all ts qs all) m

    forward_all :
        (ts : Terms) (qs : List S)
        → AssignsAll (mapped rename inner) ts qs
        → AssignsAll inner (relabel_all rename ts) qs
    forward_all nil [] all_nil = all_nil
    forward_all nil (q ∷ qs) run = elim run [ ]
    forward_all (cons t ts) [] run = elim run [ ]
    forward_all (cons t ts) (q ∷ qs) (all_cons one more) =
        all_cons (forward t q one) (forward_all ts qs more)

  mutual
    unfolding relabel relabel_all

    backward :
        (t : Term) (q : S) → Assigns inner (relabel rename t) q → Assigns (mapped rename inner) t q
    backward (node f ts) q (assign {qs = qs} all m) = assign (backward_all ts qs all) m

    backward_all :
        (ts : Terms) (qs : List S)
        → AssignsAll inner (relabel_all rename ts) qs
        → AssignsAll (mapped rename inner) ts qs
    backward_all nil [] all_nil = all_nil
    backward_all nil (q ∷ qs) run = elim run [ ]
    backward_all (cons t ts) [] run = elim run [ ]
    backward_all (cons t ts) (q ∷ qs) (all_cons one more) =
        all_cons (backward t q one) (backward_all ts qs more)

  -- The renaming view accepts a tree exactly if the automaton accepts the renamed tree.
  pub mapped-Accepts_iff :
      (t : Term) → Accepts (mapped rename inner) t ↔ Accepts inner (relabel rename t)
  mapped-Accepts_iff t = (
    λ (q, run, final). (q, forward t q run, final),
    λ (q, run, final). (q, backward t q run, final),
  )
