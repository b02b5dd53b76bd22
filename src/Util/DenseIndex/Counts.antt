-- ===== src/Util/DenseIndex/Counts.antt =====
-- The offsets are the numbers of pairs before each key.
use rusty_alto.Base.{
  ℕ, zero, suc, ◌+◌, ◌≤◌, ◌<◌, ◌≡◌, ◌≢◌, refl, ◌∙◌, List, [], ◌∷◌, some, arith, ◌==◌, nat_eq,
  length, All, get_or, set, length-set, get_or-set_self, get_or-set_ne, Bool-cases, inl, inr,
}
use rusty_alto.Util.DenseIndex.{count_keys, prefix_sums, increase}
use rusty_alto.Util.DenseIndex.Groups.{count, count-cons, count-nil, before, before-suc}

module _ {ℓ} {V : Type ℓ} where
  -- The count at `suc k` grows by the number of pairs with the key `k`.
  pub count_keys_lem :
      (n : ℕ) (offs : List ℕ) (pairs : List (ℕ × V))
      → All (λ p. p.0 < n) pairs
      → length offs ≡ suc n
      → (r : List ℕ) × (count_keys n offs pairs ≡ some r)
        × (length r ≡ suc n)
        × (get_or r 0 0 ≡ get_or offs 0 0)
        × ((k : ℕ) → get_or r (suc k) 0 ≡ get_or offs (suc k) 0 + count k pairs)
  unfolding count_keys
  count_keys_lem n offs [] h size = (offs, refl, size, refl, λ k. omega (arith, count-nil V k))
  count_keys_lem n offs ((j, v) ∷ pairs) h size =
      let offs' = increase offs (suc j) 1 in
      let kept = length-set offs (suc j) (get_or offs (suc j) 0 + 1) in
      let (r, runs, len, first, at) = count_keys_lem n offs' pairs h.1 (kept ∙ size) in
      (
        r,
        ground arith,
        len,
        first ∙ get_or-set_ne offs (suc j) 0 _ 0 (λ e. omega arith),
        λ k. ground (
          arith,
          at k,
          count-cons k j v pairs,
          get_or-set_self offs (suc j) (get_or offs (suc j) 0 + 1) 0,
          get_or-set_ne offs (suc j) (suc k) (get_or offs (suc j) 0 + 1) 0,
        ),
      )

  -- When the sums have reached `key`, the offsets up to it are final and the others are counts.
  pub prefix_sums_lem :
      (rounds key n : ℕ) (offs : List ℕ) (pairs : List (ℕ × V))
      → key + rounds ≡ n
      → length offs ≡ suc n
      → ((k : ℕ) → k ≤ key → get_or offs k 0 ≡ before k pairs)
      → ((k : ℕ) → key ≤ k → get_or offs (suc k) 0 ≡ count k pairs)
      → ((k : ℕ) → k ≤ n → get_or (prefix_sums rounds key offs) k 0 ≡ before k pairs)
        × (length (prefix_sums rounds key offs) ≡ suc n)
  unfolding prefix_sums
  prefix_sums_lem zero key n offs pairs e size low high = (λ k h. low k (omega arith), size)
  prefix_sums_lem (suc rounds) key n offs pairs e size low high =
      let v = get_or offs (suc key) 0 + get_or offs key 0 in
      let offs' = set offs (suc key) v in
      prefix_sums_lem rounds (suc key) n offs' pairs (omega arith)
        (length-set offs (suc key) v ∙ size)
        (λ k h. elim (Bool-cases (k == suc key)) [
          | inl at ↦
              let same : k ≡ suc key = ground arith in
              rw same (
                omega (
                  arith,
                  get_or-set_self offs (suc key) v 0 (omega arith),
                  low key (omega arith),
                  high key (omega arith),
                  before-suc key pairs,
                ))
          | inr off ↦
              let ne : suc key ≢ k = λ e. ground arith in
              get_or-set_ne offs (suc key) k v 0 ne ∙ low k (ground arith)
        ])
        (λ k h. get_or-set_ne offs (suc key) (suc k) v 0 (λ e. omega arith) ∙ high k (omega arith))
