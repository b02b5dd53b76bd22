-- ===== src/SetTrie/Edges.antt =====
-- No node has two edges for a key, so that the edges of a node are what a lookup finds.
use rusty_alto.Base.{
  ◌≡◌, sym, ap, ◌↔◌, ◌⊎◌, inl, inr, ⊎_elim, List, [], ◌∷◌, Memᴰ, mem-cons, not-mem-nil, Option,
  some, Eq, ◌==◌, Bool-cases, Option-cases, subst,
}
use mathlib.Core.Option.{get_or as option_or}
use rusty_alto.Base.Assoc.{Assoc, lookup}
use rusty_alto.Base.Flat.{firsts}
use rusty_alto.SetTrie.{SetTrie, Next, trie, no_edges, edge, pairs, empty, put, get_or_insert_with}

module _ {ℓ κ} {K : Type ℓ} {V : Type κ} where
  mutual
    -- No node has two edges for a key.
    pub data IsTrie : SetTrie K V → Type (ℓ ⊔ κ) where
      is_trie : {next : Next K V} {value : Option V} → IsNext next → IsTrie (trie next value)

    pub data IsNext : Next K V → Type (ℓ ⊔ κ) where
      is_no_edges : IsNext no_edges
      is_edge :
          {k : K} {t : SetTrie K V} {next : Next K V}
          → ¬ Memᴰ k (firsts (pairs next))
          → IsTrie t
          → IsNext next
          → IsNext (edge k t next)

  pub empty-IsTrie : IsTrie empty
  empty-IsTrie = is_trie is_no_edges

  mem-firsts :
      (m : Assoc K (SetTrie K V)) (k : K) (t : SetTrie K V) → Memᴰ (k, t) m → Memᴰ k (firsts m)
  mem-firsts [] k t h = absurd (not-mem-nil (k, t) h)
  mem-firsts ((j, u) ∷ m) k t h =
      ⊎_elim (λ (e : (k, t) ≡ (j, u)). Memᴰ.head (ap (λ z. z.0) e))
        (λ later. Memᴰ.tail (mem-firsts m k t later)) ((mem-cons (k, t) (j, u) m).0 h)

module _ {ℓ κ} {K : Type ℓ} {V : Type κ} ⦃e : Eq K⦄ where
  mem-firsts-put :
      (j key : K) (new : SetTrie K V) (next : Next K V)
      → Memᴰ j (firsts (pairs (put key new next)))
      → (j ≡ key) ⊎ Memᴰ j (firsts (pairs next))
  unfolding put
  mem-firsts-put j key new no_edges m = (mem-cons j key []).0 m
  mem-firsts-put j key new (edge k t next) m = elim (Bool-cases (k == key)) [
    | inl here ↦
        ⊎_elim inl (λ later. inr (Memᴰ.tail later))
          ((mem-cons j key (firsts (pairs next))).0 (rw here at m))
    | inr other ↦
        ⊎_elim (λ same. inr (Memᴰ.head same))
          (λ later. ⊎_elim inl (λ old. inr (Memᴰ.tail old)) (mem-firsts-put j key new next later))
          ((mem-cons j k (firsts (pairs (put key new next)))).0 (rw other at m))
  ]

  put-IsNext :
      (key : K) (new : SetTrie K V) (next : Next K V)
      → IsTrie new
      → IsNext next
      → IsNext (put key new next)
  unfolding put
  put-IsNext key new no_edges n is_no_edges = is_edge (not-mem-nil key) n is_no_edges
  put-IsNext key new (edge k t next) n (is_edge apart below rest) = elim (Bool-cases (k == key)) [
    | inl here ↦
        let same : k ≡ key = (e.same_iff k key).0 here in
        rw here (is_edge (subst (λ z. ¬ Memᴰ z (firsts (pairs next))) same apart) n rest)
    | inr other ↦ rw other (
        is_edge
          (λ m.
            ⊎_elim (λ same. absurd (let hit = (e.same_iff k key).1 same in cc)) apart
              (mem-firsts-put k key new next m))
          below (put-IsNext key new next n rest))
  ]

  pub lookup-IsTrie :
      (k : K) (t : SetTrie K V) (next : Next K V)
      → IsNext next
      → lookup k (pairs next) ≡ some t
      → IsTrie t
  unfolding lookup
  lookup-IsTrie k t no_edges v h = cc
  lookup-IsTrie k t (edge j u next) (is_edge apart below rest) h = elim (Bool-cases (j == k)) [
    | inl here ↦
        let same : u ≡ t = (let both : Option.some u ≡ some t = rw here at h in cc) in
        subst IsTrie same below
    | inr other ↦ lookup-IsTrie k t next rest (rw other at h)
  ]

  or_empty-IsTrie :
      (k : K) (next : Next K V) → IsNext next → IsTrie (option_or (lookup k (pairs next)) empty)
  or_empty-IsTrie k next v = elim (Option-cases (lookup k (pairs next))) [
    | inl absent ↦ rw absent empty-IsTrie
    | inr (t, found) ↦ rw found (lookup-IsTrie k t next v found)
  ]

  -- `get_or_insert_with` keeps one edge for each key.
  pub get_or_insert_with-IsTrie :
      (t : SetTrie K V) (key : List K) (made : V)
      → IsTrie t
      → IsTrie (get_or_insert_with t key made).0
  unfolding get_or_insert_with
  get_or_insert_with-IsTrie (trie next value) [] made (is_trie v) = is_trie v
  get_or_insert_with-IsTrie (trie next value) (part ∷ key) made (is_trie v) = is_trie (
      put-IsNext part (get_or_insert_with (option_or (lookup part (pairs next)) empty) key made).0
        next
        (get_or_insert_with-IsTrie (option_or (lookup part (pairs next)) empty) key made
          (or_empty-IsTrie part next v))
        v)

  -- The edges as pairs are what a lookup finds.
  pub mem-pairs :
      (k : K) (t : SetTrie K V) (next : Next K V)
      → IsNext next
      → Memᴰ (k, t) (pairs next) ↔ (lookup k (pairs next) ≡ some t)
  unfolding lookup
  mem-pairs k t no_edges v = (λ m. absurd (not-mem-nil (k, t) m), λ h. cc)
  mem-pairs k t (edge j u next) (is_edge apart below rest) =
      let later = mem-pairs k t next rest in
      elim (Bool-cases (j == k)) [
        | inl here ↦
            let same : j ≡ k = (e.same_iff j k).0 here in
            rw here (
              λ m.
                  ⊎_elim (λ (at : (k, t) ≡ (j, u)). ap some (sym (ap (λ z. z.1) at)))
                    (λ n. absurd (
                      apart (
                        subst (λ z. Memᴰ z (firsts (pairs next))) (sym same)
                          (mem-firsts (pairs next) k t n))))
                    ((mem-cons (k, t) (j, u) (pairs next)).0 m),
              λ h. let only : u ≡ t = cc in Memᴰ.head (let key = sym same in cc),
            )
        | inr other ↦ rw other (
          λ m.
              ⊎_elim
                (λ (at : (k, t) ≡ (j, u)).
                  absurd (let hit = (e.same_iff j k).1 (sym (ap (λ z. z.0) at)) in cc))
                later.0 ((mem-cons (k, t) (j, u) (pairs next)).0 m),
          λ h. Memᴰ.tail (later.1 h),
        )
      ]
