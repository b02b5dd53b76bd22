-- ===== src/Algebras/Strings/Siblings/Slots.antt =====
-- The tables of `StringSiblingFinder`: a bit vector that grows, and the lists of the keys, of which
-- each has a slot of its own.
use rusty_alto.Base.{
  ℕ, zero, suc, ◌+◌, ◌-◌, ◌<◌, ◌≡◌, refl, sym, ap, ◌∙◌, subst, inl, inr, Bool, true, false, List,
  [], ◌∷◌, ◌++◌, Option, none, some, ◌>>=◌, arith, ◌==◌, nat_eq, pair_eq, length, length-append,
  replicate, length-replicate, get_or-replicate, get_elem?, get_elem?-append_left,
  get_elem?-append_length, get_elem?-beyond, if◌then◌else◌, Bool-cases, Option-cases, leb, ltb,
}
use rusty_alto.Base.Assoc.{Assoc, lookup, insert, lookup-insert, listed}
use rusty_alto.Base.Bits.{has_bit}
use rusty_alto.Base.Rows.{push_at, Pushed, push_at_lem}
use rusty_alto.Ids.{StateId}
use rusty_alto.Algebras.Strings.Siblings.{SpanProductSibling, Side, grow, push_slot}

has_bit-append :
    (bits : List Bool) (m j : ℕ) → has_bit (bits ++ replicate m false) j ≡ has_bit bits j
has_bit-append [] m j = get_or-replicate m j false
has_bit-append (b ∷ bits) m zero = refl
has_bit-append (b ∷ bits) m (suc j) = has_bit-append bits m j

pub has_bit-grow : (bits : List Bool) (i j : ℕ) → has_bit (grow bits i) j ≡ has_bit bits j
unfolding grow
has_bit-grow bits i j = elim (Bool-cases (leb (length bits) i)) [
  | inl short ↦ rw short (has_bit-append bits (i + 1 - length bits) j)
  | inr long ↦ rw long refl
]

pub length-grow : (bits : List Bool) (i : ℕ) → i < length (grow bits i)
unfolding grow
length-grow bits i = ground (
  arith,
  length-append bits (replicate (i + 1 - length bits) false),
  length-replicate (i + 1 - length bits) false,
)

-- The slots are in range, and no two keys share one.
pub record IsSlotted (slots : Assoc (ℕ × StateId) ℕ) (lists : List (List SpanProductSibling))
    : Type 0 where
  pub in_range : (k : ℕ × StateId) (i : ℕ) → lookup k slots ≡ some i → i < length lists
  pub apart :
      (j k : ℕ × StateId) (i : ℕ) → lookup j slots ≡ some i → lookup k slots ≡ some i → j ≡ k

abbrev pub IsSide : Side → Type 0
IsSide s = IsSlotted s.slots s.lists

abbrev at_key :
    Assoc (ℕ × StateId) ℕ → List (List SpanProductSibling) → ℕ × StateId → List SpanProductSibling
at_key slots lists k = listed (do slot ← lookup k slots; get_elem? lists slot)

module _ (slots : Assoc (ℕ × StateId) ℕ) (lists : List (List SpanProductSibling)) where
  -- What a push for a key leaves.
  pub record Opened (key : ℕ × StateId) (item : SpanProductSibling)
      (more_slots : Assoc (ℕ × StateId) ℕ) (more : List (List SpanProductSibling)) : Type 0 where
    pub slotted : IsSlotted more_slots more
    pub list_of :
        (k : ℕ × StateId)
        → at_key more_slots more k
          ≡ (if key == k then at_key slots lists k ++ item ∷ [] else at_key slots lists k)

  push-known :
      (key : ℕ × StateId) (item : SpanProductSibling) (slot : ℕ)
      (more : List (List SpanProductSibling))
      → IsSlotted slots lists
      → lookup key slots ≡ some slot
      → Pushed lists slot item more
      → Opened key item slots more
  push-known key item slot more v at p = record {
    slotted = record {
      in_range = λ k i h. omega (arith, p.size, v.in_range k i h);
      apart = v.apart;
    };
    list_of = λ k. elim (Option-cases (lookup k slots)) [
      | inl unknown ↦ elim (Bool-cases (key == k)) [
        | inl same ↦
            let equal : key ≡ k = (pair_eq.same_iff key k).0 same in
            let both = subst (λ z. lookup z slots ≡ some slot) equal at in
            absurd (let never : none ≡ some slot = sym unknown ∙ both in cc)
        | inr other ↦ rw (unknown, other) refl
      ]
      | inr (i, found) ↦ elim (Bool-cases (key == k)) [
        | inl same ↦
            let equal : key ≡ k = (pair_eq.same_iff key k).0 same in
            let both = subst (λ z. lookup z slots ≡ some slot) equal at in
            let one : i ≡ slot = (let e : Option.some i ≡ some slot = sym found ∙ both in cc) in
            let here : (slot == i) ≡ true = (nat_eq.same_iff slot i).1 (sym one) in
            let read = p.row_of i in rw (found, same) (read ∙ rw here refl)
        | inr other ↦
            let there : (slot == i) ≡ false = elim (Bool-cases (slot == i)) [
              | inr e ↦ e
              | inl hit ↦
                  let one : slot ≡ i = (nat_eq.same_iff slot i).0 hit in
                  let equal = v.apart key k i (at ∙ ap some one) found in
                  absurd (let yet = (pair_eq.same_iff key k).1 equal in cc)
            ] in
            let read = p.row_of i in rw (found, other) (read ∙ rw there refl)
      ]
    ];
  }

  -- the row that a new key gets
  row-append : (j : ℕ) → listed (get_elem? (lists ++ [] ∷ []) j) ≡ listed (get_elem? lists j)
  row-append j = elim (Bool-cases (ltb j (length lists))) [
    | inl within ↦ ap listed (get_elem?-append_left lists ([] ∷ []) j (ground arith))
    | inr outside ↦
        let none_there = get_elem?-beyond lists j (ground arith) in
        rw none_there (elim (Bool-cases (j == length lists)) [
          | inl last ↦
              let at : j ≡ length lists = (nat_eq.same_iff j (length lists)).0 last in
              rw at (ap listed (get_elem?-append_length lists [] []))
          | inr past ↦ ap listed (
              get_elem?-beyond (lists ++ [] ∷ []) j (ground (arith, length-append lists ([] ∷ []))))
        ])
  ]

  push-fresh :
      (key : ℕ × StateId) (item : SpanProductSibling) (more : List (List SpanProductSibling))
      → IsSlotted slots lists
      → lookup key slots ≡ none
      → Pushed (lists ++ [] ∷ []) (length lists) item more
      → Opened key item (insert key (length lists) slots) more
  push-fresh key item more v at p = record {
    slotted = record {
      in_range = λ k i h. ground (
        arith,
        p.size,
        length-append lists ([] ∷ []),
        lookup-insert key k (length lists) slots,
        v.in_range k i,
      );
      apart = λ j k i h₁ h₂. ground (
        arith,
        lookup-insert key j (length lists) slots,
        lookup-insert key k (length lists) slots,
        v.in_range j i,
        v.in_range k i,
        v.apart j k i,
        pair_eq.same_iff key j,
        pair_eq.same_iff key k,
      );
    };
    list_of = λ k. rw (lookup-insert key k (length lists) slots) (elim (Bool-cases (key == k)) [
      | inl same ↦
          let equal : key ≡ k = (pair_eq.same_iff key k).0 same in
          let unknown = subst (λ z. lookup z slots ≡ none) equal at in
          let here : (length lists == length lists) ≡ true =
            (nat_eq.same_iff (length lists) (length lists)).1 refl in
          let none_there = get_elem?-beyond lists (length lists) (omega arith) in
          let read = p.row_of (length lists) in
          rw (same, unknown) (read ∙ rw (here, row-append (length lists), none_there) refl)
      | inr other ↦ elim (Option-cases (lookup k slots)) [
        | inl unknown ↦ rw (other, unknown) refl
        | inr (i, found) ↦
            let low = v.in_range k i found in
            let there : (length lists == i) ≡ false = ground arith in
            let read = p.row_of i in rw (other, found) (read ∙ rw (there, row-append i) refl)
      ]
    ]);
  }

push_slot_fresh :
    (slots : Assoc (ℕ × StateId) ℕ) (lists : List (List SpanProductSibling)) (key : ℕ × StateId)
    (item : SpanProductSibling) (more : List (List SpanProductSibling))
    → lookup key slots ≡ none
    → push_at (lists ++ [] ∷ []) (length lists) item ≡ some more
    → push_slot slots lists key item ≡ some (insert key (length lists) slots, more)
unfolding push_slot
push_slot_fresh slots lists key item more h runs = rw (h, push_slot) (rw runs refl)

push_slot_known :
    (slots : Assoc (ℕ × StateId) ℕ) (lists : List (List SpanProductSibling)) (key : ℕ × StateId)
    (item : SpanProductSibling) (slot : ℕ) (more : List (List SpanProductSibling))
    → lookup key slots ≡ some slot
    → push_at lists slot item ≡ some more
    → push_slot slots lists key item ≡ some (slots, more)
unfolding push_slot
push_slot_known slots lists key item slot more h runs = rw (h, push_slot) (rw runs refl)

pub push_slot-Opened :
    (slots : Assoc (ℕ × StateId) ℕ) (lists : List (List SpanProductSibling)) (key : ℕ × StateId)
    (item : SpanProductSibling)
    → IsSlotted slots lists
    → (more_slots : Assoc (ℕ × StateId) ℕ) × (more : List (List SpanProductSibling)) × (push_slot
          slots lists key item
        ≡ some (more_slots, more))
      × Opened slots lists key item more_slots more
unfolding push_slot
push_slot-Opened slots lists key item v = elim (Option-cases (lookup key slots)) [
  | inr (slot, found) ↦
      let (more, runs, p) = push_at_lem lists slot item (v.in_range key slot found) in
      (
        slots,
        more,
        push_slot_known slots lists key item slot more found runs,
        push-known slots lists key item slot more v found p,
      )
  | inl unknown ↦
      let (more, runs, p) =
        push_at_lem (lists ++ [] ∷ []) (length lists) item
          (omega (arith, length-append lists ([] ∷ []))) in
      (
        insert key (length lists) slots,
        more,
        push_slot_fresh slots lists key item more unknown runs,
        push-fresh slots lists key item more v unknown p,
      )
]
