-- ===== src/SetTrie/Entries.antt =====
-- Writing and reading entries: a row of keys reads back what was written for it, and other rows
-- what they had.
use rusty_alto.Base.{
  ◌≡◌, refl, ap, ◌∙◌, inl, inr, List, [], ◌∷◌, Option, none, some, ◌>>=◌, Eq, ◌==◌, list_eq,
  if◌then◌else◌, Bool-cases,
}
use mathlib.Core.Option.{get_or as option_or}
use rusty_alto.Base.Assoc.{lookup, insert, lookup-insert}
use rusty_alto.SetTrie.{
  SetTrie, Next, trie, no_edges, edge, pairs, empty, put, get_or_insert_with, get,
}

module _ {ℓ κ} {K : Type ℓ} {V : Type κ} ⦃e : Eq K⦄ where
  pub pairs-put :
      (key : K) (new : SetTrie K V) (next : Next K V)
      → pairs (put key new next) ≡ insert key new (pairs next)
  unfolding put insert
  pairs-put key new no_edges = refl
  pairs-put key new (edge k t next) = elim (Bool-cases (k == key)) [
    | inl here ↦ rw here refl
    | inr other ↦ rw other (ap (λ l. (k, t) ∷ l) (pairs-put key new next))
  ]

  get-empty : (key : List K) → get {V = V} empty key ≡ none
  unfolding get lookup
  get-empty [] = refl
  get-empty (part ∷ key) = refl

  get-or_empty :
      (o : Option (SetTrie K V)) (key : List K)
      → get (option_or o empty) key ≡ (do node ← o; get node key)
  get-or_empty none key = get-empty key
  get-or_empty (some node) key = refl

  get-cons :
      (next : Next K V) (value : Option V) (part : K) (key : List K)
      → get (trie next value) (part ∷ key) ≡ (do node ← lookup part (pairs next); get node key)
  unfolding get
  get-cons next value part key = refl

  -- `get_or_insert_with` returns the value that the row of keys has, and the value made if it has
  -- none; afterwards `get` returns this value for the row, and for other rows what it returned.
  pub get-get_or_insert_with :
      (t : SetTrie K V) (key other : List K) (made : V)
      → ((get_or_insert_with t key made).1 ≡ option_or (get t key) made)
        × (get (get_or_insert_with t key made).0 other
            ≡ (if key == other then some (option_or (get t key) made) else get t other))
  unfolding get_or_insert_with get
  get-get_or_insert_with (trie next value) [] [] made = (refl, refl)
  get-get_or_insert_with (trie next value) [] (o ∷ other) made = (refl, refl)
  get-get_or_insert_with (trie next value) (part ∷ key) [] made =
      let node = lookup part (pairs next) in
      let below = get-get_or_insert_with (option_or node empty) key [] made in
      (below.0 ∙ ap (λ z. option_or z made) (get-or_empty node key), refl)
  get-get_or_insert_with (trie next value) (part ∷ key) (o ∷ other) made =
      let node = lookup part (pairs next) in
      let below = get-get_or_insert_with (option_or node empty) key other made in
      let found = get_or_insert_with (option_or node empty) key made in
      let written : lookup o (pairs (put part found.0 next))
          ≡ (if part == o then some found.0 else lookup o (pairs next)) =
        ap (lookup o) (pairs-put part found.0 next) ∙ lookup-insert part o found.0 (pairs next) in
      (
        below.0 ∙ ap (λ z. option_or z made) (get-or_empty node key),
        rw written (elim (Bool-cases (part == o)) [
          | inr other_part ↦ rw other_part refl
          | inl here ↦
              let same : part ≡ o = (e.same_iff part o).0 here in
              rw here (below.1 ∙ rw (get-or_empty node key, get-or_empty node other, same) refl)
        ]),
      )
