-- ===== src/Signature/Laws.antt =====
-- Labels and symbols correspond, each symbol has one arity, and no panic is reachable.
use Prim.Native.String.{String}
use rusty_alto.Base.{
  ℕ, ◌≤◌, ◌<◌, ◌≡◌, ◌≢◌, refl, ◌∙◌, inl, inr, [], ◌∷◌, ◌++◌, none, some, ◌==◌, nat_eq, string_eq,
  arith, length, length-append, get_elem?-append_left, lt-length_of_get_elem?, Option-cases,
  Bool-cases,
}
use rusty_alto.Base.Assoc.{lookup, insert, lookup-insert}
use rusty_alto.Base.Result.{ok, err}
use rusty_alto.Base.TwoWay.{TwoWay, empty-TwoWay, insert-TwoWay, insert-TwoWay_known}
use rusty_alto.Ids.{Symbol, u32_max}
use rusty_alto.Signature.{
  Signature, arity_mismatch, new, intern, intern_known, intern_fresh, get, resolve, arity,
}

-- Labels and symbols are inverse, and exactly the symbols given have an arity.
pub record IsValid (s : Signature) : Type 0 where
  pub two_way : TwoWay s.ids s.names
  pub ranked : (q : Symbol) → q < length s.names → (a : ℕ) × (lookup q s.arities ≡ some a)
  pub ranked_only : (q : Symbol) (a : ℕ) → lookup q s.arities ≡ some a → q < length s.names

pub new-IsValid : IsValid new
unfolding lookup
new-IsValid = record {
  two_way = empty-TwoWay;
  ranked = λ q h. absurd (omega arith);
  ranked_only = λ q a h. cc;
}

-- What holds after `name` was interned with `a`: the symbol, and that earlier symbols stay.
pub record Interned (s : Signature) (name : String) (a : ℕ) (t : Signature) (q : Symbol)
    : Type 0 where
  pub valid : IsValid t
  pub found : get t name ≡ some q
  pub resolved : resolve t q ≡ some name
  pub has_arity : arity t q ≡ some a
  pub keeps_names : (p : Symbol) (n : String) → resolve s p ≡ some n → resolve t p ≡ some n
  pub keeps_arities : (p : Symbol) (b : ℕ) → arity s p ≡ some b → arity t p ≡ some b

module _ (s : Signature) (name : String) (a : ℕ) where
  abbrev extended : Signature
  extended = record {
    names = s.names ++ name ∷ [];
    ids = insert name (length s.names) s.ids;
    arities = insert (length s.names) a s.arities;
  }

  extended-IsValid : IsValid s → lookup name s.ids ≡ none → IsValid extended
  extended-IsValid v unknown = record {
    two_way = insert-TwoWay s.ids s.names name (length s.names) v.two_way unknown refl;
    ranked = λ q h. elim (Bool-cases (length s.names == q)) [
      | inl here ↦ (a, lookup-insert (length s.names) q a s.arities ∙ rw here)
      | inr other ↦
          let (b, old) = v.ranked q (ground (arith, length-append s.names (name ∷ []))) in
          (b, lookup-insert (length s.names) q a s.arities ∙ rw other old)
    ];
    ranked_only = λ q b h. ground (
      arith,
      lookup-insert (length s.names) q a s.arities,
      v.ranked_only q b,
      length-append s.names (name ∷ []),
    );
  }

  extended-Interned :
      IsValid s → lookup name s.ids ≡ none → Interned s name a extended (length s.names)
  unfolding get resolve arity
  extended-Interned v unknown =
      let (forth, back) = insert-TwoWay_known s.ids s.names name (length s.names) refl in
      record {
        valid = extended-IsValid v unknown;
        found = forth;
        resolved = back;
        has_arity = ground (arith, lookup-insert (length s.names) (length s.names) a s.arities);
        keeps_names = λ p n h.
            get_elem?-append_left s.names (name ∷ []) p (lt-length_of_get_elem? s.names p h) ∙ h;
        keeps_arities = λ p b h.
            ground (arith, lookup-insert (length s.names) p a s.arities, v.ranked_only p b h);
      }

-- The two outcomes of `intern`, both with what the caller may rely on.
pub data Outcome (s : Signature) (name : String) (a : ℕ) : Type 0 where
  done :
      (t : Signature) (q : Symbol)
      → intern s name a ≡ ok (t, q)
      → Interned s name a t q
      → Outcome s name a
  mismatch :
      (q : Symbol) (b : ℕ)
      → get s name ≡ some q
      → arity s q ≡ some b
      → b ≢ a
      → intern s name a ≡ err (arity_mismatch name b a)
      → Outcome s name a

-- `intern` on a valid signature with at most `u32::MAX` labels does not panic. It fails exactly for
-- a label that is there with another arity, and names both; otherwise the label has the symbol
-- returned with that arity, the signature stays valid, and earlier symbols keep label and arity.
pub intern-Outcome :
    (s : Signature) (name : String) (a : ℕ)
    → IsValid s
    → length s.names ≤ u32_max
    → Outcome s name a
unfolding intern get resolve arity intern_known intern_fresh
intern-Outcome s name a v room = elim (Option-cases (lookup name s.ids)) [
  | inl unknown ↦
      done (extended s name a) (length s.names) (ground arith)
        (extended-Interned s name a v unknown)
  | inr (q, found) ↦
      let named = v.two_way.to_backward name q found in
      let (b, ranked) = v.ranked q (lt-length_of_get_elem? s.names q named) in
      elim (Bool-cases (b == a)) [
        | inl same ↦
            let equal : b ≡ a = (nat_eq.same_iff b a).0 same in
            done s q (ground arith) (record {
              valid = v;
              found = found;
              resolved = named;
              has_arity = rw (← equal) ranked;
              keeps_names = λ p n h. h;
              keeps_arities = λ p c h. h;
            })
        | inr other ↦ mismatch q b found ranked (λ e. ground arith) (ground arith)
      ]
]
