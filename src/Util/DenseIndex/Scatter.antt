-- ===== src/Util/DenseIndex/Scatter.antt =====
-- The second pass writes each group to its own region.
use rusty_alto.Base.{
  ℕ, zero, suc, ◌+◌, ◌<◌, ◌≡◌, ◌≢◌, refl, ◌∙◌, List, [], ◌∷◌, arith, ◌==◌, nat_eq, length, All,
  if◌then◌else◌, get_or, set, length-set, get_or-set_self, get_or-set_ne, Bool-cases, inl, inr,
  nat_beq_iff, ◌⊎◌, ap, subst, true,
}
use rusty_alto.Util.DenseIndex.{scatter}
use rusty_alto.Util.DenseIndex.Groups.{group, count, count-cons, count-nil, group-cons}

-- The index in its group that a later value of the key `k` has once a value for `j` stands
-- before it.
abbrev shift : ℕ → ℕ → ℕ → ℕ
shift j k i = if j == k then suc i else i

module _ {ℓ} {V : Type ℓ} where
  -- The slots that are still to be written lie in the vector, and no two coincide.
  pub record IsApart (write : List ℕ) (values : List V) (pairs : List (ℕ × V)) : Type ℓ where
    pub keys : All (λ p. p.0 < length write) pairs
    pub fits : (k i : ℕ) → i < count k pairs → get_or write k 0 + i < length values
    pub apart :
        (k l i j : ℕ)
        → k ≢ l
        → i < count k pairs
        → j < count l pairs
        → get_or write k 0 + i ≢ get_or write l 0 + j

  shift-lt-count :
      (j k i : ℕ) (v : V) (pairs : List (ℕ × V))
      → i < count k pairs
      → shift j k i < count k ((j, v) ∷ pairs)
  shift-lt-count j k i v pairs h = ground (arith, count-cons k j v pairs)

  module _ (write : List ℕ) (values : List V) (j : ℕ) (v : V) (pairs : List (ℕ × V)) where
    abbrev slot : ℕ
    slot = get_or write j 0

    moved :
        (k i : ℕ)
        → j < length write
        → get_or (set write j (slot + 1)) k 0 + i ≡ get_or write k 0 + shift j k i
    moved k i h =
        ground (arith, get_or-set_ne write j k (slot + 1) 0, get_or-set_self write j (slot + 1) 0 h)

    -- After the first pair is written, the rest of the slots are still apart.
    IsApart-tail :
        IsApart write values ((j, v) ∷ pairs)
        → IsApart (set write j (slot + 1)) (set values slot v) pairs
    IsApart-tail h = record {
      keys = rw length-set h.keys.1;
      fits = λ k i lt.
          rw (length-set, moved k i h.keys.0)
            (h.fits k (shift j k i) (shift-lt-count j k i v pairs lt));
      apart = λ k l i m ne lt lt'.
          rw (moved k i h.keys.0, moved l m h.keys.0)
            (h.apart k l (shift j k i) (shift j l m) ne (shift-lt-count j k i v pairs lt)
              (shift-lt-count j l m v pairs lt'));
    }

    -- The slot of the first pair is none of the later ones.
    slot_apart :
        IsApart write values ((j, v) ∷ pairs)
        → (k i : ℕ) → i < count k pairs
        → slot ≢ get_or write k 0 + shift j k i
    slot_apart h k i lt = elim (Bool-cases (j == k)) [
      | inl same ↦ let e : j ≡ k = (nat_beq_iff j k).0 same in λ q. ground arith
      | inr other ↦
          let ne : j ≢ k = λ e. ground arith in
          λ q.
            h.apart j k 0 (shift j k i) ne (ground (arith, count-cons j j v pairs))
              (shift-lt-count j k i v pairs lt) (omega arith)
    ]

  -- A place in a group is that of the first pair, or that of a later one.
  place_cases :
      (k i j : ℕ) (v d : V) (pairs : List (ℕ × V))
      → i < count k ((j, v) ∷ pairs)
      → ((j ≡ k) × (i ≡ 0) × (get_or (group k ((j, v) ∷ pairs)) i d ≡ v))
        ⊎ ((m : ℕ) × (i ≡ shift j k m)
            × (m < count k pairs)
            × (get_or (group k ((j, v) ∷ pairs)) i d ≡ get_or (group k pairs) m d))
  place_cases k i j v d pairs lt = elim (Bool-cases (j == k)) [
    | inl same ↦
        let grows : group k ((j, v) ∷ pairs) ≡ v ∷ group k pairs =
          group-cons k j v pairs ∙ rw same in
        at i same grows (subst (λ g. i < length g) grows lt)
    | inr other ↦
        let stays : group k ((j, v) ∷ pairs) ≡ group k pairs = group-cons k j v pairs ∙ rw other in
        inr (i, rw other, subst (λ g. i < length g) stays lt, ap (λ g. get_or g i d) stays)
  ]
    where
      at :
          (i : ℕ)
          → (j == k) ≡ true
          → group k ((j, v) ∷ pairs) ≡ v ∷ group k pairs
          → i < suc (count k pairs)
          → ((j ≡ k) × (i ≡ 0) × (get_or (group k ((j, v) ∷ pairs)) i d ≡ v))
            ⊎ ((m : ℕ) × (i ≡ shift j k m)
                × (m < count k pairs)
                × (get_or (group k ((j, v) ∷ pairs)) i d ≡ get_or (group k pairs) m d))
      at zero same grows lt = inl ((nat_beq_iff j k).0 same, refl, ap (λ g. get_or g 0 d) grows)
      at (suc m) same grows lt = inr (m, rw same, omega arith, ap (λ g. get_or g (suc m) d) grows)

  -- Each value is written to the slot of its key and place, and no other slot changes.
  pub scatter_lem :
      (write : List ℕ) (values : List V) (pairs : List (ℕ × V)) (d : V)
      → IsApart write values pairs
      → ((k i : ℕ)
          → i < count k pairs
          → get_or (scatter write values pairs) (get_or write k 0 + i) d
            ≡ get_or (group k pairs) i d)
        × ((x : ℕ)
            → ((k i : ℕ) → i < count k pairs → x ≢ get_or write k 0 + i)
            → get_or (scatter write values pairs) x d ≡ get_or values x d)
        × (length (scatter write values pairs) ≡ length values)
  unfolding scatter
  scatter_lem write values [] d h =
      (λ k i lt. absurd (omega (arith, count-nil V k)), λ x out. refl, refl)
  scatter_lem write values ((j, v) ∷ pairs) d h =
      let w = get_or write j 0 in
      let (inside, outside, size) =
        scatter_lem (set write j (w + 1)) (set values w v) pairs d
          (IsApart-tail write values j v pairs h) in
      (
        λ k i lt. elim (place_cases k i j v d pairs lt) [
          | inl (e, first, reads) ↦
              let here : get_or write k 0 + i ≡ w = rw (← e) (omega arith) in
              rw (here, reads)
                (outside w (λ l m later q.
                    slot_apart write values j v pairs h l m later
                      (q ∙ moved write values j v pairs l m h.keys.0))
                  ∙ get_or-set_self values w v d
                      (omega (arith, h.fits j 0 (ground (arith, count-cons j j v pairs)))))
          | inr (m, place, later, reads) ↦
              rw (reads, place, ← moved write values j v pairs k m h.keys.0) (inside k m later)
        ],
        λ x out.
            outside x (λ k i lt q.
              out k (shift j k i) (shift-lt-count j k i v pairs lt)
                (q ∙ moved write values j v pairs k i h.keys.0))
            ∙ get_or-set_ne values w x v d
                (λ q. out j 0 (ground (arith, count-cons j j v pairs)) (omega arith)),
        size ∙ length-set values w v,
      )
