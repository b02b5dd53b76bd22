-- ===== src/Algebras/Strings/Words.antt =====
-- Sentences as texts: parsing gives symbols that print as the words read, none of them the
-- concatenation.
use Prim.Native.String.{String}
use rusty_alto.Base.{
  ℕ, suc, ◌+◌, ◌≤◌, ◌≡◌, refl, sym, ap, ◌∙◌, subst, ◌⊎◌, inl, inr, ⊎_elim, List, [], ◌∷◌, Memᴰ,
  mem-cons, not-mem-nil, Option, some, arith, nat_eq, string_eq, length, Option-cases, All, All-imp,
  length-append,
}
use rusty_alto.Base.Assoc.{lookup, lookup-insert}
use rusty_alto.Base.Result.{ok}
use rusty_alto.Ids.{Symbol, u32_max}
use rusty_alto.Signature.{Signature, intern, intern_known, intern_fresh, get, resolve, arity}
use rusty_alto.Signature.Laws.{IsValid, Interned, Outcome, done, mismatch, intern-Outcome}
use rusty_alto.Algebras.Strings.{StringAlgebra, unwrap, intern_word, intern_words, to_external}

-- The signature is valid and has the concatenation.
pub record IsAlgebra (a : StringAlgebra) : Type 0 where
  pub valid : IsValid a.signature
  pub named : get a.signature "*" ≡ some a.concat
  pub binary : arity a.signature a.concat ≡ some 2

-- A label that is free, or that has no children.
abbrev pub IsWord : Signature → String → Type 0
IsWord s word = (q : Symbol) → get s word ≡ some q → arity s q ≡ some 0

-- Interning adds one label.
intern-get :
    (s : Signature) (name : String) (n : ℕ) (t : Signature) (q : Symbol) (other : String)
    (p : Symbol)
    → intern s name n ≡ ok (t, q)
    → get t other ≡ some p
    → ((other ≡ name) × (p ≡ q)) ⊎ (get s other ≡ some p)
unfolding intern intern_known intern_fresh get
intern-get s name n t q other p h k = elim (Option-cases (lookup name s.ids)) [
  | inl unknown ↦
      ground (arith, lookup-insert name other (length s.names) s.ids, string_eq.same_iff name other)
  | inr (old, found) ↦ elim (Option-cases (lookup old s.arities)) [
    | inl unranked ↦ ground arith
    | inr (b, ranked) ↦ ground arith
  ]
]

intern-length :
    (s : Signature) (name : String) (n : ℕ) (t : Signature) (q : Symbol)
    → intern s name n ≡ ok (t, q)
    → length t.names ≤ suc (length s.names)
unfolding intern intern_known intern_fresh
intern-length s name n t q h = elim (Option-cases (lookup name s.ids)) [
  | inl unknown ↦ ground (arith, length-append s.names (name ∷ []))
  | inr (old, found) ↦ elim (Option-cases (lookup old s.arities)) [
    | inl unranked ↦ ground arith
    | inr (b, ranked) ↦ ground arith
  ]
]

-- What one more word leaves.
record Read (a : StringAlgebra) (word : String) (b : StringAlgebra) (q : Symbol) : Type 0 where
  same_concat : b.concat ≡ a.concat
  algebra : IsAlgebra b
  not_concat : ¬ (a.concat ≡ q)
  printed : resolve b.signature q ≡ some word
  keeps :
      (p : Symbol) (n : String) → resolve a.signature p ≡ some n → resolve b.signature p ≡ some n
  keeps_words : (other : String) → IsWord a.signature other → IsWord b.signature other
  longer : length b.signature.names ≤ suc (length a.signature.names)

two_ranks : (o : Option ℕ) → o ≡ some 2 → o ≡ some 0 → ¬ Unit {0}
two_ranks o e f u = cc

intern-Read :
    (a : StringAlgebra) (word : String) (t : Signature) (q : Symbol)
    → IsAlgebra a
    → intern a.signature word 0 ≡ ok (t, q)
    → Interned a.signature word 0 t q
    → Read a word (record { signature = t; concat = a.concat }) q
unfolding get resolve
intern-Read a word t q v e i =
    let binary = i.keeps_arities a.concat 2 v.binary in
    let star = v.valid.two_way.to_backward "*" a.concat v.named in
    record {
      same_concat = refl;
      algebra = record {
        valid = i.valid;
        named = i.valid.two_way.to_forward "*" a.concat (i.keeps_names a.concat "*" star);
        binary = binary;
      };
      not_concat = λ same.
          two_ranks (arity t q) (subst (λ s. arity t s ≡ some 2) same binary) i.has_arity tt;
      printed = i.resolved;
      keeps = i.keeps_names;
      keeps_words = λ other h p found.
          ⊎_elim (λ (_, at). ap (arity t) at ∙ i.has_arity) (λ old. i.keeps_arities p 0 (h p old))
            (intern-get a.signature word 0 t q other p e found);
      longer = intern-length a.signature word 0 t q e;
    }

intern_word-Read :
    (a : StringAlgebra) (word : String)
    → IsAlgebra a
    → length a.signature.names ≤ u32_max
    → IsWord a.signature word
    → (b : StringAlgebra) × (q : Symbol) × (intern_word a word ≡ some (b, q)) × Read a word b q
unfolding intern_word unwrap
intern_word-Read a word v room h = returns (intern-Outcome a.signature word 0 v.valid room)
  where
    returns :
        Outcome a.signature word 0
        → (b : StringAlgebra) × (q : Symbol) × (intern_word a word ≡ some (b, q)) × Read a word b q
    returns (done t q e i) = (
      record { signature = t; concat = a.concat },
      q,
      rw (e, unwrap) refl,
      intern-Read a word t q v e i,
    )
    returns (mismatch q n found ranked other e) =
        absurd (other (let both : some n ≡ some 0 = sym ranked ∙ h q found in cc))

-- What a sentence leaves.
pub record Parsed (a : StringAlgebra) (words : List String) (b : StringAlgebra) (xs : List Symbol)
    : Type 0 where
  pub same_concat : b.concat ≡ a.concat
  pub algebra : IsAlgebra b
  pub not_concat : ¬ Memᴰ b.concat xs
  pub printed : to_external b xs ≡ some words
  pub keeps :
      (p : Symbol) (n : String) → resolve a.signature p ≡ some n → resolve b.signature p ≡ some n

-- With words that are free or nullary, and room for them, `intern_words` returns.
pub intern_words-Parsed :
    (a : StringAlgebra) (words : List String)
    → IsAlgebra a
    → length a.signature.names + length words ≤ u32_max
    → All (IsWord a.signature) words
    → (b : StringAlgebra) × (xs : List Symbol) × (intern_words a words ≡ some (b, xs))
      × Parsed a words b xs
unfolding intern_words to_external
intern_words-Parsed a [] v room h = (
  a,
  [],
  refl,
  record {
    same_concat = refl;
    algebra = v;
    not_concat = not-mem-nil a.concat;
    printed = refl;
    keeps = λ p n e. e;
  },
)
intern_words-Parsed a (word ∷ words) v room h =
    let (b, q, runs, r) = intern_word-Read a word v (omega arith) h.0 in
    let (c, xs, rest, p) =
      intern_words-Parsed b words r.algebra (omega (arith, r.longer))
        (All-imp r.keeps_words words h.1) in
    (
      c,
      q ∷ xs,
      rw (runs, rest) refl,
      record {
        same_concat = p.same_concat ∙ r.same_concat;
        algebra = p.algebra;
        not_concat = λ m.
            ⊎_elim (λ e. r.not_concat (sym r.same_concat ∙ sym p.same_concat ∙ e)) p.not_concat
              ((mem-cons c.concat q xs).0 m);
        printed = rw (p.keeps q word r.printed, p.printed) refl;
        keeps = λ k n e. p.keeps k n (r.keeps k n e);
      },
    )
