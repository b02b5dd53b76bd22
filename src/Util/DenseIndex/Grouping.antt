-- ===== src/Util/DenseIndex/Grouping.antt =====
-- Looking a key up gives its values in their order.
use rusty_alto.Base.{
  ℕ, suc, ◌+◌, ◌-◌, ◌≤◌, ◌<◌, ◌≡◌, ◌∙◌, sym, ap, List, none, some, arith, nat_eq, length, All,
  get_or, take, replicate, length-take, get_or-take, get_or-replicate, length-replicate,
  take-drop_eq, ltb, Bool-cases, inl, inr, true, false,
}
use rusty_alto.Util.DenseIndex.{DenseIndex, prefix_sums, scatter, from_pairs, slice, values, get}
use rusty_alto.Util.DenseIndex.Groups.{
  group, count, lt_of_count, before, before-suc, before_zero, before_mono, group_apart,
}
use rusty_alto.Util.DenseIndex.Counts.{count_keys_lem, prefix_sums_lem}
use rusty_alto.Util.DenseIndex.Scatter.{IsApart, scatter_lem}

module _ {ℓ} {V : Type ℓ} (d : V) (n : ℕ) (pairs : List (ℕ × V)) where
  -- The index answers every key with its values, in the order of the pairs, and no other key.
  pub record IsGrouping (ix : DenseIndex V) : Type ℓ where
    pub values_of : (k : ℕ) → k < n → values ix k ≡ some (group k pairs)
    pub get_of : (k : ℕ) → k < n → get ix k ≡ some (group k pairs)
    pub beyond : (k : ℕ) → n ≤ k → (values ix k ≡ none) × (get ix k ≡ none)

  module _ (offsets : List ℕ) (size : length offsets ≡ suc n)
      (starts : (k : ℕ) → k ≤ n → get_or offsets k 0 ≡ before k pairs)
      (keys : All (λ p. p.0 < n) pairs) where
    write_of : (k : ℕ) → k < n → get_or (take n offsets) k 0 ≡ before k pairs
    write_of k h = get_or-take n k offsets 0 h ∙ starts k (omega arith)

    abbrev blank : List V
    blank = replicate (get_or offsets n 0) d

    length-blank : length blank ≡ before n pairs
    length-blank = length-replicate (get_or offsets n 0) d ∙ starts n (omega arith)

    region : (k : ℕ) → k < n → before k pairs + count k pairs ≤ before n pairs
    region k h = before_mono (n - suc k) k n pairs (omega arith)

    slots-IsApart : IsApart (take n offsets) blank pairs
    slots-IsApart = record {
      keys = rw (length-take n offsets (omega arith)) keys;
      fits = λ k i h.
          let low = lt_of_count n k i pairs keys h in
          omega (arith, length-blank, write_of k low, region k low);
      apart = λ k l i j ne hi hj q.
          let here = write_of k (lt_of_count n k i pairs keys hi) in
          let there = write_of l (lt_of_count n l j pairs keys hj) in
          elim (Bool-cases (ltb k l)) [
            | inl less ↦ group_apart k l i j pairs (ground arith) hi (omega arith)
            | inr more ↦ group_apart l k j i pairs (ground arith) hj (omega arith)
          ];
    }

    abbrev built : DenseIndex V
    built = record { offsets = offsets; values = scatter (take n offsets) blank pairs }

    slice-eq-group : (k : ℕ) → k < n → slice built k ≡ group k pairs
    slice-eq-group k h =
        let (inside, _, kept) = scatter_lem (take n offsets) blank pairs d slots-IsApart in
        let start = starts k (omega arith) in
        let stop : get_or offsets (k + 1) 0 - get_or offsets k 0 ≡ count k pairs =
          (let next : k + 1 ≡ suc k = omega arith in
            rw next (omega (arith, start, starts (suc k) h, before-suc k pairs))) in
        rw (stop, start)
          (take-drop_eq (before k pairs) (group k pairs) (scatter (take n offsets) blank pairs) d
            (omega (arith, kept, length-blank, region k h))
            (λ i lt. rw (← write_of k h) (inside k i lt)))

    built-IsGrouping : IsGrouping built
    unfolding values get
    built-IsGrouping = record {
      values_of = λ k h.
          let low : ltb (k + 1) (length offsets) ≡ true = ground arith in
          rw low (ap some (slice-eq-group k h));
      get_of = λ k h.
          let low : ltb (k + 1) (length offsets) ≡ true = ground arith in
          rw low (ap some (slice-eq-group k h));
      beyond = λ k h.
          let high : ltb (k + 1) (length offsets) ≡ false = ground arith in (rw high, rw high);
    }

  -- If every key is below the number of keys, the assertion holds and the index groups the values
  -- by key, in the order of the pairs, also for keys that have none.
  pub from_pairs_lem :
      All (λ p. p.0 < n) pairs
      → (ix : DenseIndex V) × (from_pairs d n pairs ≡ some ix) × IsGrouping ix
  unfolding from_pairs
  from_pairs_lem keys =
      let (counts, counted, size, first, at) =
        count_keys_lem n (replicate (n + 1) 0) pairs keys
          (length-replicate (n + 1) 0 ∙ omega arith) in
      let (starts, len) =
        prefix_sums_lem n 0 n counts pairs (omega arith) size
          (λ k h.
            let zeroth : k ≡ 0 = omega arith in
            rw zeroth (first ∙ get_or-replicate (n + 1) 0 0 ∙ sym (before_zero pairs)))
          (λ k h. omega (arith, at k, get_or-replicate {A = ℕ} (n + 1) (suc k) 0)) in
      (
        built (prefix_sums n 0 counts) len starts keys,
        rw counted,
        built-IsGrouping _ len starts keys,
      )
