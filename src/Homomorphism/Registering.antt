-- ===== src/Homomorphism/Registering.antt =====
-- Registering an image term keeps the tables together.
use rusty_alto.Base.{
  ℕ, ◌<◌, ◌≡◌, ◌≢◌, refl, sym, ◌∙◌, subst, inl, inr, true, List, [], ◌∷◌, Option, none, some, ◌==◌,
  nat_eq, nat_beq_iff, arith, length, length-append, get_elem?, get_elem?_of_lt,
  lt-length_of_get_elem?, get_elem?-append_left, get_elem?-append_length, if◌then◌else◌, Bool-cases,
  Option-cases,
}
use rusty_alto.Base.Assoc.{lookup, insert, lookup-insert}
use rusty_alto.Base.Result.{ok}
use rusty_alto.Base.Rows.{push_at_lem}
use rusty_alto.Ids.{Symbol}
use rusty_alto.Homomorphism.Rhs.{HomTerm, hom_eq}
use rusty_alto.Homomorphism.{Homomorphism, new, get, term_id_for, register}
use rusty_alto.Homomorphism.Adding.{IsLinear, IsNondeleting}

-- The tables fit together, and the image terms use each variable once.
pub record IsHomomorphism (h : Homomorphism) : Type 0 where
  pub sized : length h.labels ≡ length h.terms
  pub in_range :
      (f : Symbol) (tid : ℕ) → lookup f h.symbol_to_term ≡ some tid → tid < length h.terms
  pub known :
      (rhs : HomTerm) (tid : ℕ)
      → lookup rhs h.term_dedup ≡ some tid
      → get_elem? h.terms tid ≡ some rhs
  pub linear : IsNondeleting h

pub new-IsHomomorphism : IsHomomorphism new
unfolding lookup get
new-IsHomomorphism = record {
  sized = refl;
  in_range = λ f tid e. cc;
  known = λ rhs tid e. cc;
  linear = λ f rhs e. cc;
}

-- What registering an image term leaves.
pub record Added (h : Homomorphism) (src : Symbol) (arity : ℕ) (rhs : HomTerm) (g : Homomorphism)
    : Type 0 where
  pub valid : IsHomomorphism g
  pub image : get g src ≡ some rhs
  pub ranked : lookup src g.arities ≡ some arity
  pub others : (f : Symbol) → f ≢ src → get g f ≡ get h f
  pub others_ranked : (f : Symbol) → f ≢ src → lookup f g.arities ≡ lookup f h.arities

-- The table of terms with a term in it.
record Termed (h : Homomorphism) (rhs : HomTerm) (g : Homomorphism) (tid : ℕ) : Type 0 where
  same_symbols : g.symbol_to_term ≡ h.symbol_to_term
  same_arities : g.arities ≡ h.arities
  sized : length g.labels ≡ length g.terms
  held : get_elem? g.terms tid ≡ some rhs
  keeps : (k : ℕ) (t : HomTerm) → get_elem? h.terms k ≡ some t → get_elem? g.terms k ≡ some t
  known : (t : HomTerm) (k : ℕ) → lookup t g.term_dedup ≡ some k → get_elem? g.terms k ≡ some t

term_id_for-Termed :
    (h : Homomorphism) (rhs : HomTerm)
    → IsHomomorphism h
    → Termed h rhs (term_id_for h rhs).0 (term_id_for h rhs).1
unfolding term_id_for
term_id_for-Termed h rhs v = elim (Option-cases (lookup rhs h.term_dedup)) [
  | inr (tid, found) ↦
      rw (found, term_id_for)
        (record {
          same_symbols = refl;
          same_arities = refl;
          sized = v.sized;
          held = v.known rhs tid found;
          keeps = λ k t e. e;
          known = v.known;
        })
  | inl fresh ↦
      rw (fresh, term_id_for)
        (record {
          same_symbols = refl;
          same_arities = refl;
          sized =
              omega (
                arith,
                length-append h.labels ([] ∷ []),
                length-append h.terms (rhs ∷ []),
                v.sized,
              );
          held = get_elem?-append_length h.terms [] rhs;
          keeps = λ k t e.
              get_elem?-append_left h.terms (rhs ∷ []) k (lt-length_of_get_elem? h.terms k e) ∙ e;
          known = λ t k e. elim (Bool-cases (rhs == t)) [
            | inl here ↦
                let same : rhs ≡ t = (hom_eq.same_iff rhs t).0 here in
                let read = rw lookup-insert at e in
                let at : length h.terms ≡ k =
                  (let both : Option.some (length h.terms) ≡ some k = rw here at read in cc) in
                rw (← at, ← same) (get_elem?-append_length h.terms [] rhs)
            | inr there ↦
                let read = rw lookup-insert at e in
                let old = v.known t k (rw there at read) in
                get_elem?-append_left h.terms (rhs ∷ []) k (lt-length_of_get_elem? h.terms k old)
                ∙ old
          ];
        })
]

module _ (h : Homomorphism) (src : Symbol) (arity : ℕ) (rhs : HomTerm) (g : Homomorphism) (tid : ℕ)
    (labels : List (List Symbol)) where
  abbrev final : Homomorphism
  final = record g {
    arities = insert src arity g.arities;
    symbol_to_term = insert src tid g.symbol_to_term;
    labels = labels;
  }

  get-final_self : get_elem? g.terms tid ≡ some rhs → get final src ≡ some rhs
  unfolding get
  get-final_self held =
      let hit = nat_eq.same_iff src src in
      let found : lookup src (insert src tid g.symbol_to_term) ≡ some tid =
        rw (lookup-insert, hit.1 refl) refl in
      rw (found, get) held

  get-final_other :
      (f : Symbol) → Termed h rhs g tid → IsHomomorphism h → f ≢ src → get final f ≡ get h f
  unfolding get
  get-final_other f t v apart = elim (Bool-cases (src == f)) [
    | inl here ↦ absurd (apart (sym ((nat_beq_iff src f).0 here)))
    | inr there ↦
        let same : lookup f (insert src tid g.symbol_to_term) ≡ lookup f h.symbol_to_term =
          rw (lookup-insert, there, t.same_symbols) refl in
        elim (Option-cases (lookup f h.symbol_to_term)) [
          | inl absent ↦
              let gone : lookup f (insert src tid g.symbol_to_term) ≡ none = same ∙ absent in
              rw (gone, absent, get) refl
          | inr (old, mapped) ↦
              let kept : lookup f (insert src tid g.symbol_to_term) ≡ some old = same ∙ mapped in
              let (term, at) = get_elem?_of_lt h.terms old (v.in_range f old mapped) in
              rw (kept, mapped, get) (t.keeps old term at ∙ sym at)
        ]
  ]

  final-Added :
      IsHomomorphism h
      → IsLinear arity rhs
      → Termed h rhs g tid
      → length labels ≡ length g.labels
      → Added h src arity rhs final
  final-Added v l t size =
      let ranks : (f : Symbol)
          → lookup f (insert src arity g.arities)
            ≡ (if src == f then some arity else lookup f h.arities) =
        (λ f. rw (lookup-insert, t.same_arities) refl) in
      let self : (src == src) ≡ true = (nat_beq_iff src src).1 refl in
      record {
        valid = record {
          sized = size ∙ t.sized;
          in_range = λ f k e. elim (Bool-cases (src == f)) [
            | inl here ↦
                let read = rw lookup-insert at e in
                let at : tid ≡ k = (let both : Option.some tid ≡ some k = rw here at read in cc) in
                omega (arith, at, lt-length_of_get_elem? g.terms tid t.held)
            | inr there ↦
                let read = rw lookup-insert at e in
                let old : lookup f h.symbol_to_term ≡ some k =
                  rw (t.same_symbols) at (rw there at read) in
                let (term, at) = get_elem?_of_lt h.terms k (v.in_range f k old) in
                lt-length_of_get_elem? g.terms k (t.keeps k term at)
          ];
          known = t.known;
          linear = λ f image e. elim (Bool-cases (src == f)) [
            | inl here ↦
                let same : src ≡ f = (nat_beq_iff src f).0 here in
                let both : Option.some rhs ≡ some image =
                  sym (subst (λ z. get final z ≡ some rhs) same (get-final_self t.held)) ∙ e in
                let one : rhs ≡ image = cc in
                (arity, ranks f ∙ rw here refl, subst (IsLinear arity) one l)
            | inr there ↦
                let apart : f ≢ src =
                  (λ same. absurd (let hit = (nat_beq_iff src f).1 (sym same) in cc)) in
                let (n, ranked, linear) =
                  v.linear f image (sym (get-final_other f t v apart) ∙ e) in
                (n, ranks f ∙ rw there ranked, linear)
          ];
        };
        image = get-final_self t.held;
        ranked = ranks src ∙ rw self refl;
        others = λ f apart. get-final_other f t v apart;
        others_ranked = λ f apart. elim (Bool-cases (src == f)) [
          | inl here ↦ absurd (apart (sym ((nat_beq_iff src f).0 here)))
          | inr there ↦ ranks f ∙ rw there refl
        ];
      }

pub register-Added :
    (h : Homomorphism) (src : Symbol) (arity : ℕ) (rhs : HomTerm)
    → IsHomomorphism h
    → IsLinear arity rhs
    → (g : Homomorphism) × (register h src arity rhs ≡ ok g) × Added h src arity rhs g
unfolding register
register-Added h src arity rhs v l =
    let g = (term_id_for h rhs).0 in
    let tid = (term_id_for h rhs).1 in
    let t = term_id_for-Termed h rhs v in
    let low = lt-length_of_get_elem? g.terms tid t.held in
    let (labels, pushed, p) = push_at_lem g.labels tid src (omega (arith, t.sized, low)) in
    (
      final h src arity rhs g tid labels,
      rw (pushed, register) refl,
      final-Added h src arity rhs g tid labels v l t p.size,
    )
