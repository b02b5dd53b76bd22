-- ===== src/SetTrie/Visits.antt =====
-- A traversal visits exactly the values whose row of keys is accepted.
use rusty_alto.Base.{
  contains_iff, ◌≡◌, refl, sym, ap, ◌∙◌, ◌↔◌, inl, inr, ⊎_elim, true, List, [], ◌∷◌, ◌++◌, Memᴰ,
  mem-cons, not-mem-nil, Option, none, some, ◌>>=◌, >>=-eq-some, Eq, ◌==◌, ltb, length,
  if◌then◌else◌, Bool-cases, Option-cases, All, subst,
}
use rusty_alto.Base.Assoc.{Assoc, lookup}
use rusty_alto.Base.Flat.{mem-flat_map, firsts}
use rusty_alto.SetTrie.{
  SetTrie, Next, trie, pairs, get, KeySet, IsKeySet, value_of, for_each_value_for_key_sets, descend,
  for_each_value_for_prefix_and_key_sets, set_keys, map_keys, is_there,
}
use rusty_alto.SetTrie.Edges.{IsTrie, is_trie, IsNext, lookup-IsTrie, mem-pairs}

-- The row chooses a key of each set.
abbrev pub Accepted {ℓ} : {K : Type ℓ} → List (KeySet K) → List K → Type 0
Accepted [] [] = Unit
Accepted (s ∷ key_sets) (k ∷ key) = (s.contains k ≡ true) × Accepted key_sets key
Accepted _ _ = ¬ Unit {0}

is_there_iff {ℓ κ} :
    {K : Type ℓ} {V : Type κ} ⦃e : Eq K⦄ (m : Assoc K V) (k : K)
    → (is_there (lookup k m) ≡ true) ↔ Memᴰ k (firsts m)
unfolding lookup
is_there_iff [] k = (λ h. cc, λ m. absurd (not-mem-nil k m))
is_there_iff ⦃e⦄ ((j, v) ∷ m) k = elim (Bool-cases (j == k)) [
  | inl here ↦ rw here (λ h. Memᴰ.head (sym ((e.same_iff j k).0 here)), λ h. refl)
  | inr other ↦ rw other (
    λ h. Memᴰ.tail ((is_there_iff m k).0 h),
    λ n.
        ⊎_elim (λ same. absurd (let hit = (e.same_iff j k).1 (sym same) in cc)) (is_there_iff m k).1
          ((mem-cons k j (firsts m)).0 n),
  )
]

-- The elements of a hash set are a key set.
pub set_keys-IsKeySet {ℓ} : {K : Type ℓ} ⦃e : Eq K⦄ (ks : List K) → IsKeySet (set_keys ks)
unfolding set_keys
set_keys-IsKeySet ks = record {
  sound = λ k. (contains_iff ks k).0;
  complete = λ k. (contains_iff ks k).1;
}

-- The keys of a hash map are a key set.
pub map_keys-IsKeySet {ℓ κ} :
    {K : Type ℓ} {V : Type κ} ⦃e : Eq K⦄ (m : Assoc K V) → IsKeySet (map_keys m)
unfolding map_keys
map_keys-IsKeySet m = record {
  sound = λ k. (is_there_iff m k).0;
  complete = λ k. (is_there_iff m k).1;
}

mem-value_of {ℓ} :
    {V : Type ℓ} (value : Option V) (v : V) → Memᴰ v (value_of value) ↔ (value ≡ some v)
mem-value_of none v = (λ m. absurd (not-mem-nil v m), λ h. cc)
mem-value_of (some u) v = (
  λ m.
      ⊎_elim (λ (e : v ≡ u). ap some (sym e)) (λ never. absurd (not-mem-nil v never))
        ((mem-cons v u []).0 m),
  λ h. Memᴰ.head (let same : u ≡ v = cc in sym same),
)

module _ {ℓ κ} {K : Type ℓ} {V : Type κ} ⦃e : Eq K⦄ where
  -- what one round of the traversal reaches
  abbrev Reaches : Next K V → KeySet K → List (KeySet K) → V → Type (ℓ ⊔ κ)
  Reaches next s key_sets v =
      (k : K) × (t : SetTrie K V) × (s.contains k ≡ true)
      × (lookup k (pairs next) ≡ some t)
      × Memᴰ v (for_each_value_for_key_sets t key_sets)

  visit_found :
      (key_sets : List (KeySet K)) (o : Option (SetTrie K V)) (v : V)
      → Memᴰ v (elim o [ none ↦ [] | some node ↦ for_each_value_for_key_sets node key_sets ])
        ↔ ((t : SetTrie K V) × (o ≡ some t) × Memᴰ v (for_each_value_for_key_sets t key_sets))
  visit_found key_sets none v = (λ m. absurd (not-mem-nil v m), λ (t, h, _). cc)
  visit_found key_sets (some node) v = (
    λ m. (node, refl, m),
    λ (t, h, m).
        let same : node ≡ t = cc in
        subst (λ z. Memᴰ v (for_each_value_for_key_sets z key_sets)) (sym same) m,
  )

  visit-Reaches :
      (next : Next K V) (value : Option V) (s : KeySet K) (key_sets : List (KeySet K)) (v : V)
      → IsNext next
      → IsKeySet s
      → Memᴰ v (for_each_value_for_key_sets (trie next value) (s ∷ key_sets))
        ↔ Reaches next s key_sets v
  unfolding for_each_value_for_key_sets
  visit-Reaches next value s key_sets v n law =
      elim (Bool-cases (ltb s.len (length (pairs next)))) [
        | inl few ↦
            let round : K → List V = (λ key. elim (lookup key (pairs next)) [
              | none ↦ []
              | some node ↦ for_each_value_for_key_sets node key_sets
            ]) in
            let listed = mem-flat_map round s.keys v in
            rw few (
              λ m.
                  let (k, held, at) = listed.0 m in
                  let (t, found, below) = (visit_found key_sets (lookup k (pairs next)) v).0 at in
                  (k, t, law.complete k held, found, below),
              λ (k, t, held, found, below). listed.1 (
                k,
                law.sound k held,
                (visit_found key_sets (lookup k (pairs next)) v).1 (t, found, below),
              ),
            )
        | inr many ↦
            let round : K × SetTrie K V → List V = (λ (key, node).
              if s.contains key then for_each_value_for_key_sets node key_sets else []) in
            let listed = mem-flat_map round (pairs next) v in
            rw many (
              λ m.
                  let ((k, t), held, at) = listed.0 m in
                  elim (Bool-cases (s.contains k)) [
                    | inl yes_there ↦
                        (k, t, yes_there, (mem-pairs k t next n).0 held, rw yes_there at at)
                    | inr not_there ↦ absurd (not-mem-nil v (rw not_there at at))
                  ],
              λ (k, t, held, found, below).
                  listed.1 ((k, t), (mem-pairs k t next n).1 found, rw held below),
            )
      ]

  visit_row :
      (next : Next K V) (value : Option V) (s : KeySet K) (key_sets : List (KeySet K)) (v : V)
      → IsNext next
      → IsKeySet s
      → ((t : SetTrie K V)
          → IsTrie t
          → (key : List K) → Accepted key_sets key
          → get t key ≡ some v
          → Memᴰ v (for_each_value_for_key_sets t key_sets))
      → (key : List K) → Accepted (s ∷ key_sets) key
      → get (trie next value) key ≡ some v
      → Memᴰ v (for_each_value_for_key_sets (trie next value) (s ∷ key_sets))
  unfolding get
  visit_row next value s key_sets v n law rest [] accepted at = absurd (accepted tt)
  visit_row next value s key_sets v n law rest (k ∷ key) (held, accepted) at =
      let (t, found, below) = >>=-eq-some (lookup k (pairs next)) _ at in
      (visit-Reaches next value s key_sets v n law).1
        (k, t, held, found, rest t (lookup-IsTrie k t next n found) key accepted below)

  whole_row :
      (next : Next K V) (value : Option V) (v : V)
      → Memᴰ v (for_each_value_for_key_sets (trie next value) [])
        ↔ ((key : List K) × Accepted [] key × (get (trie next value) key ≡ some v))
  unfolding for_each_value_for_key_sets get
  whole_row next value v =
      (λ m. ([], tt, (mem-value_of value v).0 m), λ (key, accepted, at). only key accepted at)
    where
      only :
          (key : List K)
          → Accepted {K = K} [] key
          → get (trie next value) key ≡ some v
          → Memᴰ v (value_of value)
      only [] accepted at = (mem-value_of value v).1 at
      only (k ∷ key) accepted at = absurd (accepted tt)

  -- For sets whose test and whose list agree, the traversal visits a value exactly if it is
  -- stored for a row of keys that the sets accept, one set for each key.
  pub for_each_value_for_key_sets_iff :
      (t : SetTrie K V) (key_sets : List (KeySet K)) (v : V)
      → IsTrie t
      → All IsKeySet key_sets
      → Memᴰ v (for_each_value_for_key_sets t key_sets)
        ↔ ((key : List K) × Accepted key_sets key × (get t key ≡ some v))
  unfolding get
  for_each_value_for_key_sets_iff (trie next value) [] v n laws = whole_row next value v
  for_each_value_for_key_sets_iff (trie next value) (s ∷ key_sets) v (is_trie n) laws = (
    λ m.
        let (k, t, held, found, below) = (visit-Reaches next value s key_sets v n laws.0).0 m in
        let (key, accepted, at) =
          (for_each_value_for_key_sets_iff t key_sets v (lookup-IsTrie k t next n found) laws.1).0
            below in
        (k ∷ key, (held, accepted), rw found at),
    λ (key, accepted, at).
        visit_row next value s key_sets v n laws.0
          (λ t w rest accepts found.
            (for_each_value_for_key_sets_iff t key_sets v w laws.1).1 (rest, accepts, found))
          key accepted at,
  )

  descend-get :
      (t : SetTrie K V) (prefix key : List K)
      → get t (prefix ++ key) ≡ (do node ← descend t prefix; get node key)
  unfolding descend get
  descend-get t [] key = refl
  descend-get (trie next value) (part ∷ prefix) key =
      elim (Option-cases (lookup part (pairs next))) [
        | inl absent ↦ rw absent refl
        | inr (node, found) ↦ rw found (descend-get node prefix key)
      ]

  descend-IsTrie :
      (t : SetTrie K V) (prefix : List K) (node : SetTrie K V)
      → IsTrie t
      → descend t prefix ≡ some node
      → IsTrie node
  unfolding descend
  descend-IsTrie t [] node v h = let same : t ≡ node = cc in subst IsTrie same v
  descend-IsTrie (trie next value) (part ∷ prefix) node (is_trie n) h =
      let (below, found, rest) = >>=-eq-some (lookup part (pairs next)) _ h in
      descend-IsTrie below prefix node (lookup-IsTrie part below next n found) rest

  -- With a prefix, the traversal visits a value exactly if it is stored for a row that starts with
  -- the prefix and whose other keys the sets accept.
  pub for_each_value_for_prefix_and_key_sets_iff :
      (t : SetTrie K V) (prefix : List K) (key_sets : List (KeySet K)) (v : V)
      → IsTrie t
      → All IsKeySet key_sets
      → Memᴰ v (for_each_value_for_prefix_and_key_sets t prefix key_sets)
        ↔ ((key : List K) × Accepted key_sets key × (get t (prefix ++ key) ≡ some v))
  unfolding for_each_value_for_prefix_and_key_sets
  for_each_value_for_prefix_and_key_sets_iff t prefix key_sets v w laws =
      let found = visit_found key_sets (descend t prefix) v in
      (
        λ m.
            let (node, at, n) = found.0 m in
            let (key, accepted, read) =
              (for_each_value_for_key_sets_iff node key_sets v (descend-IsTrie t prefix node w at)
                  laws).0
                n in
            (key, accepted, descend-get t prefix key ∙ rw at read),
        λ (key, accepted, read).
            let (node, at, there) =
              >>=-eq-some (descend t prefix) _ (sym (descend-get t prefix key) ∙ read) in
            found.1 (
              node,
              at,
              (for_each_value_for_key_sets_iff node key_sets v (descend-IsTrie t prefix node w at)
                    laws).1
                  (key, accepted, there),
            ),
      )
