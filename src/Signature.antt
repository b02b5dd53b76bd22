-- ===== src/Signature.antt =====
-- src/signature.rs: labels with arities, as dense symbols. A failed index or conversion panics.
pub mod Laws
use Prim.Native.String.{String}
use rusty_alto.Base.{
  ℕ, Bool, List, [], ◌∷◌, ◌++◌, Option, none, some, ◌==◌, nat_eq, string_eq, leb, length, get_elem?,
  if◌then◌else◌,
}
use rusty_alto.Base.Assoc.{Assoc, lookup, insert}
use rusty_alto.Base.Result.{Result, ok, err, panic}
use rusty_alto.Ids.{Symbol, u32_max}

pub record Signature : Type 0 where
  pub names : List String
  pub ids : Assoc String Symbol
  pub arities : Assoc Symbol ℕ

pub data SignatureError : Type 0 where
  arity_mismatch : String → ℕ → ℕ → SignatureError

-- `Signature::new`
abbrev pub new : Signature
new = record { names = []; ids = []; arities = [] }

-- the branch of `intern` for a label with symbol `symbol`
unfoldable pub intern_known :
    Signature → String → ℕ → Symbol → Result SignatureError (Signature × Symbol)
intern_known s name arity symbol = elim (lookup symbol s.arities) [
  | none ↦ panic
  | some old_arity ↦
      if old_arity == arity then ok (s, symbol) else err (arity_mismatch name old_arity arity)
]

-- the branch of `intern` for a new label
unfoldable pub intern_fresh : Signature → String → ℕ → Result SignatureError (Signature × Symbol)
intern_fresh s name arity =
    let symbol = length s.names in
    if leb symbol u32_max
    then ok (
      record {
        names = s.names ++ name ∷ [];
        ids = insert name symbol s.ids;
        arities = insert symbol arity s.arities;
      },
      symbol,
    )
    else panic

-- `Signature::intern`
unfoldable pub intern : Signature → String → ℕ → Result SignatureError (Signature × Symbol)
intern s name arity = elim (lookup name s.ids) [
  | some symbol ↦ intern_known s name arity symbol
  | none ↦ intern_fresh s name arity
]

-- `Signature::get`
unfoldable pub get : Signature → String → Option Symbol
get s name = lookup name s.ids

-- `Signature::resolve`; `none` is a panic
unfoldable pub resolve : Signature → Symbol → Option String
resolve s symbol = get_elem? s.names symbol

-- `Signature::arity`; `none` is a panic
unfoldable pub arity : Signature → Symbol → Option ℕ
arity s symbol = lookup symbol s.arities

-- `Signature::len`
unfoldable pub len : Signature → ℕ
len s = length s.names

-- `Signature::is_empty`
unfoldable pub is_empty : Signature → Bool
is_empty s = length s.names == 0
