-- ===== src/SetTrie.antt =====
-- src/set_trie.rs: tries from rows of keys to values. The map of a node is a type of its own; a
-- visit is the list of the values it calls its function with.
pub mod Entries
pub mod Edges
pub mod Visits
use rusty_alto.Base.{
  ℕ, suc, ◌≡◌, Memᴰ, Bool, true, false, List, [], ◌∷◌, ◌++◌, Option, none, some, ◌>>=◌, Eq, ◌==◌,
  ltb, if◌then◌else◌, length, contains,
}
use mathlib.Core.Option.{get_or as option_or}
use rusty_alto.Base.Assoc.{Assoc, lookup}
use rusty_alto.Base.Flat.{flat_map, firsts}

mutual
  pub data SetTrie {ℓ κ} (K : Type ℓ) (V : Type κ) : Type (ℓ ⊔ κ) where
    trie : Next K V → Option V → SetTrie K V

  -- The map from keys to tries.
  pub data Next {ℓ κ} (K : Type ℓ) (V : Type κ) : Type (ℓ ⊔ κ) where
    no_edges : Next K V
    edge : K → SetTrie K V → Next K V → Next K V

-- `KeySet`: what a traversal asks of a set of keys
pub record KeySet {ℓ} (K : Type ℓ) : Type ℓ where
  pub len : ℕ
  pub contains : K → Bool
  pub keys : List K

-- `contains` and `for_each` agree.
pub record IsKeySet {ℓ} {K : Type ℓ} (s : KeySet K) : Type ℓ where
  pub sound : (k : K) → s.contains k ≡ true → Memᴰ k s.keys
  pub complete : (k : K) → Memᴰ k s.keys → s.contains k ≡ true

-- `KeySet` for a hash set, the list of its elements
unfoldable pub set_keys {ℓ} : {K : Type ℓ} ⦃e : Eq K⦄ → List K → KeySet K
set_keys ks = record { len = length ks; contains = λ k. contains ks k; keys = ks }

-- `KeySet` for a hash map
abbrev pub is_there {ℓ} : {A : Type ℓ} → Option A → Bool
is_there none = false
is_there (some a) = true

unfoldable pub map_keys {ℓ κ} : {K : Type ℓ} {V : Type κ} ⦃e : Eq K⦄ → Assoc K V → KeySet K
map_keys m = record { len = length m; contains = λ k. is_there (lookup k m); keys = firsts m }

module _ {ℓ κ} {K : Type ℓ} {V : Type κ} where
  -- The edges of a node as pairs.
  abbrev pub pairs : Next K V → Assoc K (SetTrie K V)
  pairs no_edges = []
  pairs (edge k t next) = (k, t) ∷ pairs next

  -- `SetTrie::default`, `SetTrie::new`
  abbrev pub empty : SetTrie K V
  empty = trie no_edges none

-- the value of a node as the calls of `out`
abbrev pub value_of {ℓ} : {V : Type ℓ} → Option V → List V
value_of none = []
value_of (some v) = v ∷ []

module _ {ℓ κ} {K : Type ℓ} {V : Type κ} ⦃e : Eq K⦄ where
  -- an entry of a node's map written
  unfoldable pub put : K → SetTrie K V → Next K V → Next K V
  put key new no_edges = edge key new no_edges
  put key new (edge k t next) =
      let rest = put key new next in if k == key then edge key new next else edge k t rest

  -- `get_or_insert_with`, with the value that `make` returns; the value found is returned
  unfoldable pub get_or_insert_with : SetTrie K V → List K → V → SetTrie K V × V
  get_or_insert_with (trie next value) [] made =
      (trie next (some (option_or value made)), option_or value made)
  get_or_insert_with (trie next value) (part ∷ key) made =
      let (node, found) =
        get_or_insert_with (option_or (lookup part (pairs next)) empty) key made in
      (trie (put part node next) value, found)

  -- `get`
  unfoldable pub get : SetTrie K V → List K → Option V
  get (trie next value) [] = value
  get (trie next value) (part ∷ key) = do node ← lookup part (pairs next); get node key

  -- `for_each_value_for_key_sets_at`, for the key sets from its depth on
  unfoldable pub for_each_value_for_key_sets : SetTrie K V → List (KeySet K) → List V
  for_each_value_for_key_sets (trie next value) [] = value_of value
  for_each_value_for_key_sets (trie next value) (keys ∷ key_sets) =
      if ltb keys.len (length (pairs next))
      then flat_map
          (λ key. elim (lookup key (pairs next)) [
            | none ↦ []
            | some node ↦ for_each_value_for_key_sets node key_sets
          ])
          keys.keys
      else flat_map
          (λ (key, node).
            if keys.contains key then for_each_value_for_key_sets node key_sets else [])
          (pairs next)

  -- the loop over a prefix
  unfoldable pub descend : SetTrie K V → List K → Option (SetTrie K V)
  descend t [] = some t
  descend (trie next value) (part ∷ prefix) = do
    node ← lookup part (pairs next)
    descend node prefix

  -- `for_each_value_for_prefix_and_key_sets`
  unfoldable pub for_each_value_for_prefix_and_key_sets :
      SetTrie K V → List K → List (KeySet K) → List V
  for_each_value_for_prefix_and_key_sets t prefix key_sets = elim (descend t prefix) [
    | none ↦ []
    | some node ↦ for_each_value_for_key_sets node key_sets
  ]
