-- ===== src/Memo/Keys.antt =====
-- src/memo.rs: the keys of the cache. A key holds the symbol and the children that it is made of.
use rusty_alto.Base.{
  ◌≡◌, refl, ◌↔◌, Bool, true, false, ◌&&◌, List, [], ◌∷◌, Eq, ◌==◌, nat_eq, list_eq, list_beq_iff,
  arith,
}
use rusty_alto.Ids.{StateId, Symbol}

pub data CacheKey : Type 0 where
  nullary : Symbol → CacheKey
  unary : Symbol → StateId → CacheKey
  binary : Symbol → StateId → StateId → CacheKey
  higher : Symbol → List StateId → CacheKey

-- `CacheKey::new`
abbrev pub key_of : Symbol → List StateId → CacheKey
key_of f [] = nullary f
key_of f (q ∷ []) = unary f q
key_of f (q₀ ∷ q₁ ∷ []) = binary f q₀ q₁
key_of f (q₀ ∷ q₁ ∷ q₂ ∷ qs) = higher f (q₀ ∷ q₁ ∷ q₂ ∷ qs)

-- `CacheKey::symbol`
abbrev pub key_symbol : CacheKey → Symbol
key_symbol (nullary f) = f
key_symbol (unary f q) = f
key_symbol (binary f q₀ q₁) = f
key_symbol (higher f qs) = f

-- `CacheKey::children_vec`
abbrev pub key_children : CacheKey → List StateId
key_children (nullary f) = []
key_children (unary f q) = q ∷ []
key_children (binary f q₀ q₁) = q₀ ∷ q₁ ∷ []
key_children (higher f qs) = qs

-- the derived equality
abbrev pub key_beq : CacheKey → CacheKey → Bool
key_beq (nullary f) (nullary g) = f == g
key_beq (unary f p) (unary g q) = (f == g) && (p == q)
key_beq (binary f p₀ p₁) (binary g q₀ q₁) = (f == g) && ((p₀ == q₀) && (p₁ == q₁))
key_beq (higher f ps) (higher g qs) = (f == g) && (ps == qs)
key_beq _ _ = false

pub key_beq_iff : (k l : CacheKey) → (key_beq k l ≡ true) ↔ (k ≡ l)
key_beq_iff (nullary f) (nullary g) = ground arith
key_beq_iff (nullary f) (unary g q) = ground arith
key_beq_iff (nullary f) (binary g q₀ q₁) = ground arith
key_beq_iff (nullary f) (higher g qs) = ground arith
key_beq_iff (unary f p) (nullary g) = ground arith
key_beq_iff (unary f p) (unary g q) = ground arith
key_beq_iff (unary f p) (binary g q₀ q₁) = ground arith
key_beq_iff (unary f p) (higher g qs) = ground arith
key_beq_iff (binary f p₀ p₁) (nullary g) = ground arith
key_beq_iff (binary f p₀ p₁) (unary g q) = ground arith
key_beq_iff (binary f p₀ p₁) (binary g q₀ q₁) = ground arith
key_beq_iff (binary f p₀ p₁) (higher g qs) = ground arith
key_beq_iff (higher f ps) (nullary g) = ground arith
key_beq_iff (higher f ps) (unary g q) = ground arith
key_beq_iff (higher f ps) (binary g q₀ q₁) = ground arith
key_beq_iff (higher f ps) (higher g qs) = ground (arith, list_beq_iff ps qs)

instance abbrev pub key_eq : Eq CacheKey
key_eq = record { same_iff = key_beq_iff; same = key_beq }

-- A key gives back the symbol and the children that it was made of.
pub key_symbol-key_of : (f : Symbol) (qs : List StateId) → key_symbol (key_of f qs) ≡ f
key_symbol-key_of f [] = refl
key_symbol-key_of f (q ∷ []) = refl
key_symbol-key_of f (q₀ ∷ q₁ ∷ []) = refl
key_symbol-key_of f (q₀ ∷ q₁ ∷ q₂ ∷ qs) = refl

pub key_children-key_of : (f : Symbol) (qs : List StateId) → key_children (key_of f qs) ≡ qs
key_children-key_of f [] = refl
key_children-key_of f (q ∷ []) = refl
key_children-key_of f (q₀ ∷ q₁ ∷ []) = refl
key_children-key_of f (q₀ ∷ q₁ ∷ q₂ ∷ qs) = refl
