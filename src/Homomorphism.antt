-- ===== src/Homomorphism.antt =====
-- src/homomorphism.rs: tree homomorphisms. A handle of the arena of image terms is the term itself,
-- and the key of a term, which the program builds to compare terms, is again the term.
pub mod Rhs
pub mod Adding
pub mod Registering
pub mod Refusals
pub mod Outcomes
use rusty_alto.Base.{
  ℕ, suc, ◌+◌, Bool, true, false, ◌&&◌, List, [], ◌∷◌, ◌++◌, Option, none, some, Eq, ◌==◌, nat_eq,
  ltb, length, get_elem?, replicate, set, if◌then◌else◌,
}
use rusty_alto.Base.Assoc.{Assoc, lookup, insert, entry}
use rusty_alto.Base.Bits.{has_bit}
use rusty_alto.Base.Result.{Result, ok, err, panic, ◌>>=◌}
use rusty_alto.Base.Rows.{push_at}
use rusty_alto.Ids.{Symbol}
use rusty_alto.Term.{Term, Terms, node, nil, cons}
use rusty_alto.Homomorphism.Rhs.{HomTerm, HomTerms, var, symbol, no_terms, and_term, hom_eq}

pub data HomomorphismError : Type 0 where
  arity_mismatch : Symbol → ℕ → ℕ → HomomorphismError
  conflicting_source_term : Symbol → HomomorphismError
  missing_variable : Symbol → ℕ → HomomorphismError
  duplicate_variable : Symbol → ℕ → HomomorphismError
  out_of_range_variable : Symbol → ℕ → ℕ → HomomorphismError
  unmapped_symbol : Symbol → HomomorphismError
  apply_variable_out_of_range : ℕ → ℕ → HomomorphismError

pub record Homomorphism : Type 0 where
  pub terms : List HomTerm
  pub labels : List (List Symbol)
  pub symbol_to_term : Assoc Symbol ℕ
  pub arities : Assoc Symbol ℕ
  pub term_dedup : Assoc HomTerm ℕ
  pub root_index : Assoc Symbol (List ℕ)

-- `Homomorphism::new`
abbrev pub new : Homomorphism
new = record {
  terms = [];
  labels = [];
  symbol_to_term = [];
  arities = [];
  term_dedup = [];
  root_index = [];
}

-- `get`: `none` for a symbol that is not mapped. A panic of `terms[tid]` would be `none` too;
-- `Adding` shows that the index is in range.
unfoldable pub get : Homomorphism → Symbol → Option HomTerm
get h src = elim (lookup src h.symbol_to_term) [ none ↦ none | some tid ↦ get_elem? h.terms tid ]

unfoldable mutual
  -- `collect_vars`
  pub collect_vars : HomTerm → List ℕ
  collect_vars (var i) = i ∷ []
  collect_vars (symbol f ts) = collect_all ts

  pub collect_all : HomTerms → List ℕ
  collect_all no_terms = []
  collect_all (and_term t ts) = collect_vars t ++ collect_all ts

-- the loop of `validate_nondeleting` over the variables
unfoldable pub mark_vars : Symbol → ℕ → List Bool → List ℕ → Result HomomorphismError (List Bool)
mark_vars src arity seen [] = ok seen
mark_vars src arity seen (variable ∷ vars) =
    let rest = mark_vars src arity (set seen variable true) vars in
    if ltb variable arity
    then (if has_bit seen variable then err (duplicate_variable src variable) else rest)
    else err (out_of_range_variable src variable arity)

-- the loop over what was seen
unfoldable pub check_seen : Symbol → ℕ → List Bool → Result HomomorphismError (Unit {0})
check_seen src variable [] = ok tt
check_seen src variable (true ∷ seen) = check_seen src (suc variable) seen
check_seen src variable (false ∷ seen) = err (missing_variable src variable)

-- `validate_nondeleting`
unfoldable pub validate_nondeleting : Symbol → ℕ → HomTerm → Result HomomorphismError (Unit {0})
validate_nondeleting src arity rhs = do
  seen ← mark_vars src arity (replicate arity false) (collect_vars rhs)
  check_seen src 0 seen

-- the entry of the root symbol of a term that is new
unfoldable pub index_root : HomTerm → ℕ → Assoc Symbol (List ℕ) → Assoc Symbol (List ℕ)
index_root (var i) tid index = index
index_root (symbol f ts) tid index = entry f [] (λ tids. tids ++ tid ∷ []) index

-- the term id of a term, new or known
unfoldable pub term_id_for : Homomorphism → HomTerm → Homomorphism × ℕ
term_id_for h rhs = elim (lookup rhs h.term_dedup) [
  | some tid ↦ (h, tid)
  | none ↦
      let tid = length h.terms in
      (
        record h {
          root_index = index_root rhs tid h.root_index;
          term_dedup = insert rhs tid h.term_dedup;
          terms = h.terms ++ rhs ∷ [];
          labels = h.labels ++ [] ∷ [];
        },
        tid,
      )
]

-- the end of `add`, for a symbol that is new; a panic is `labels[term_id]` out of range
unfoldable pub register :
    Homomorphism → Symbol → ℕ → HomTerm → Result HomomorphismError Homomorphism
register h src arity rhs =
    let (g, tid) = term_id_for h rhs in
    elim (push_at g.labels tid src) [
      | none ↦ panic
      | some labels ↦ ok (record g {
        arities = insert src arity g.arities;
        symbol_to_term = insert src tid g.symbol_to_term;
        labels = labels;
      })
    ]

-- the part of `add` after the validation
unfoldable pub add_valid :
    Homomorphism → Symbol → ℕ → HomTerm → Result HomomorphismError Homomorphism
add_valid h src arity rhs = elim (lookup src h.symbol_to_term) [
  | none ↦ register h src arity rhs
  | some old ↦ elim (get_elem? h.terms old) [
    | none ↦ panic
    | some old_term ↦ if old_term == rhs then ok h else err (conflicting_source_term src)
  ]
]

-- `add`
unfoldable pub add : Homomorphism → Symbol → ℕ → HomTerm → Result HomomorphismError Homomorphism
add h src arity rhs = elim (lookup src h.arities) [
  | some old ↦
      if old == arity
      then (do done ← validate_nondeleting src arity rhs; add_valid h src arity rhs)
      else err (arity_mismatch src old arity)
  | none ↦ do done ← validate_nondeleting src arity rhs; add_valid h src arity rhs
]

-- `Option::ok_or`
abbrev pub ok_or {ℓ κ} : {A : Type ℓ} {E : Type κ} → Option A → E → Result E A
ok_or none e = err e
ok_or (some a) e = ok a

unfoldable mutual
  -- `instantiate`
  pub instantiate : HomTerm → List Term → Result HomomorphismError Term
  instantiate (var variable) mapped =
      ok_or (get_elem? mapped variable) (apply_variable_out_of_range variable (length mapped))
  instantiate (symbol f ts) mapped = do children ← instantiate_all ts mapped; ok (node f children)

  pub instantiate_all : HomTerms → List Term → Result HomomorphismError Terms
  instantiate_all no_terms mapped = ok nil
  instantiate_all (and_term t ts) mapped = do
    first ← instantiate t mapped
    rest ← instantiate_all ts mapped
    ok (cons first rest)

-- `ApplyAlg::apply`, once the children are mapped
unfoldable pub apply_symbol : Homomorphism → Symbol → List Term → Result HomomorphismError Term
apply_symbol h src mapped = do rhs ← ok_or (get h src) (unmapped_symbol src); instantiate rhs mapped

unfoldable mutual
  -- `apply`
  pub apply : Homomorphism → Term → Result HomomorphismError Term
  apply h (node f ts) = do mapped ← apply_all h ts; apply_symbol h f mapped

  pub apply_all : Homomorphism → Terms → Result HomomorphismError (List Term)
  apply_all h nil = ok []
  apply_all h (cons t ts) = do first ← apply h t; rest ← apply_all h ts; ok (first ∷ rest)
