-- ===== src/Witness/Views.antt =====
-- src/memo.rs, src/set_trie.rs and src/homomorphism.rs at concrete inputs.
use rusty_alto.Base.{
  ⊎_elim, Bool, true, false, sym, ap, ◌∙◌, ℕ, ◌+◌, ◌≤◌, ◌≡◌, refl, ◌↔◌, List, [], ◌∷◌, Memᴰ, none,
  some, ◌==◌, nat_eq, list_eq, arith, length, All, if◌then◌else◌,
}
use mathlib.Core.Option.{get_or as option_or}
use rusty_alto.Base.Assoc.{lookup, insert}
use rusty_alto.Base.Rows.{push_at}
use rusty_alto.Base.Result.{Result, ok}
use rusty_alto.Ids.{StateId, stuck, u32_max}
use rusty_alto.Memo.Keys.{key_of, key_eq}
use rusty_alto.Memo.{Memo, new, resolve_children, step, step_det}
use rusty_alto.Memo.Steps.{new-IsMemo, Answered, step-Answered}
use rusty_alto.Memo.Det.{step_det_panics}
use rusty_alto.SetTrie.{
  SetTrie, KeySet, IsKeySet, empty, get, get_or_insert_with, for_each_value_for_key_sets, map_keys,
  set_keys,
}
use rusty_alto.SetTrie.Entries.{get-get_or_insert_with}
use rusty_alto.SetTrie.Edges.{IsTrie, empty-IsTrie, get_or_insert_with-IsTrie}
use rusty_alto.SetTrie.Visits.{
  Accepted, map_keys-IsKeySet, set_keys-IsKeySet, for_each_value_for_key_sets_iff,
}
use rusty_alto.Homomorphism.Rhs.{HomTerm, var, symbol, no_terms, and_term}
use rusty_alto.Homomorphism.{
  Homomorphism, HomomorphismError, new as empty_homomorphism, add, validate_nondeleting,
  collect_vars, mark_vars, check_seen, add_valid, register, term_id_for, index_root,
}
use rusty_alto.Homomorphism.Registering.{new-IsHomomorphism}
use rusty_alto.Homomorphism.Outcomes.{Accepted as Admitted, add-Outcome}
use rusty_alto.Witness.Combined.{chain, det}

abbrev fresh : Memo StateId
fresh = new

no_children : resolve_children fresh.interner [] ≡ some []
unfolding resolve_children
no_children = refl

room : length fresh.interner.backward + length (chain.step 0 []) ≤ stuck
unfolding stuck u32_max
room = omega arith

step-Answered_example :
    (n : Memo StateId) × (out : List StateId) × (step chain fresh 0 [] ≡ some (n, out))
    × Answered chain fresh 0 [] n out
step-Answered_example = step-Answered chain fresh 0 [] [] (new-IsMemo chain) no_children room

not_cached : lookup (key_of 7 []) fresh.cache ≡ none
unfolding lookup
not_cached = refl

step_det_panics_example : step_det det fresh 7 [] ≡ none
step_det_panics_example = step_det_panics det fresh 7 [] [] no_children not_cached refl

abbrev stored : SetTrie ℕ ℕ
stored = (get_or_insert_with empty (1 ∷ 2 ∷ []) 10).0

abbrev written : List ℕ
written = 1 ∷ 3 ∷ []

abbrev kept : List ℕ
kept = 1 ∷ 2 ∷ []

get-get_or_insert_with_example :
    ((get_or_insert_with stored written 11).1 ≡ option_or (get stored written) 11)
    × (get (get_or_insert_with stored written 11).0 kept
        ≡ (if written == kept then some (option_or (get stored written) 11) else get stored kept))
get-get_or_insert_with_example = get-get_or_insert_with stored written kept 11

stored-IsTrie : IsTrie stored
stored-IsTrie = get_or_insert_with-IsTrie empty (1 ∷ 2 ∷ []) 10 empty-IsTrie

abbrev allowed : List (KeySet ℕ)
allowed = map_keys {V = ℕ} ((1, 0) ∷ (4, 0) ∷ []) ∷ set_keys (2 ∷ []) ∷ []

allowed-IsKeySet : All IsKeySet allowed
allowed-IsKeySet =
    (map_keys-IsKeySet {V = ℕ} ((1, 0) ∷ (4, 0) ∷ []), (set_keys-IsKeySet (2 ∷ []), tt))

for_each_value_for_key_sets_iff_example :
    Memᴰ {A = ℕ} 10 (for_each_value_for_key_sets stored allowed)
    ↔ ((key : List ℕ) × Accepted allowed key × (get stored key ≡ some 10))
for_each_value_for_key_sets_iff_example =
    for_each_value_for_key_sets_iff stored allowed 10 stored-IsTrie allowed-IsKeySet

abbrev swap : HomTerm
swap = symbol 3 (and_term (var 1) (and_term (var 0) no_terms))

abbrev is_ok : Result HomomorphismError Homomorphism → Bool
is_ok (ok g) = true
is_ok _ = false

swap_runs : is_ok (add empty_homomorphism 5 2 swap) ≡ true
unfolding add validate_nondeleting collect_vars mark_vars check_seen add_valid register term_id_for
    index_root push_at lookup insert
swap_runs = refl

add-Outcome_example :
    (g : Homomorphism) × (add empty_homomorphism 5 2 swap ≡ ok g)
    × Admitted empty_homomorphism 5 2 swap g
add-Outcome_example =
    ⊎_elim (λ accepted. accepted)
      (λ (x, fails, _). absurd (let both : false ≡ true = sym (ap is_ok fails) ∙ swap_runs in cc))
      (add-Outcome empty_homomorphism 5 2 swap new-IsHomomorphism)
