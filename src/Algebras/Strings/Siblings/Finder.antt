-- ===== src/Algebras/Strings/Siblings/Finder.antt =====
-- An activation adds a product to the list of its boundary and state once; other lists, and the
-- products listed earlier, stay.
use rusty_alto.Base.{
  ℕ, ◌≡◌, refl, sym, ◌∙◌, ◌↔◌, ◌⊎◌, inl, inr, ⊎_elim, Bool, true, false, ◌&&◌, [], ◌∷◌, ◌++◌, some,
  arith, ◌==◌, nat_eq, pair_eq, length, set, if◌then◌else◌, Bool-cases, ltb,
}
use rusty_alto.Base.Bits.{has_bit, set_bit, has_bit-set}
use rusty_alto.Ids.{StateId}
use rusty_alto.Algebras.Strings.Siblings.{SpanProductSibling, Side, grow, activate_side, slot_list}
use rusty_alto.Algebras.Strings.Siblings.Slots.{has_bit-grow, length-grow, IsSide, push_slot-Opened}

-- What an activation at one side leaves: whether it is the first of the product, the products seen,
-- and the lists.
pub record Activated (s : Side) (key : ℕ × StateId) (item : SpanProductSibling) (t : Side)
    (first : Bool) : Type 0 where
  pub valid : IsSide t
  pub first_iff : (first ≡ true) ↔ (has_bit s.seen item.product ≡ false)
  pub seen_iff :
      (p : StateId) → (has_bit t.seen p ≡ true) ↔ ((p ≡ item.product) ⊎ (has_bit s.seen p ≡ true))
  pub list_of :
      (k : ℕ × StateId)
      → slot_list t k ≡ (if first && (key == k) then slot_list s k ++ item ∷ [] else slot_list s k)

pub activate_side-Activated :
    (s : Side) (key : ℕ × StateId) (item : SpanProductSibling)
    → IsSide s
    → (t : Side) × (first : Bool) × (activate_side s key item ≡ some (t, first))
      × Activated s key item t first
unfolding activate_side slot_list set_bit
activate_side-Activated s key item v =
    let seen = grow s.seen item.product in
    let bit = has_bit-grow s.seen item.product item.product in
    elim (Bool-cases (has_bit seen item.product)) [
      | inl before ↦ (
        record { slots = s.slots; lists = s.lists; seen = seen },
        false,
        rw before refl,
        record {
          valid = v;
          first_iff = (λ h. cc, λ h. absurd (let both = sym before ∙ bit ∙ h in cc));
          seen_iff = λ p. (
            λ h. inr (sym (has_bit-grow s.seen item.product p) ∙ h),
            ⊎_elim (λ same. rw same before) (λ h. has_bit-grow s.seen item.product p ∙ h),
          );
          list_of = λ k. refl;
        },
      )
      | inr new ↦
          let bits = set seen item.product true in
          let low = length-grow s.seen item.product in
          let (slots, lists, runs, o) = push_slot-Opened s.slots s.lists key item v in
          (
            record { slots = slots; lists = lists; seen = bits },
            true,
            (let room : ltb item.product (length seen) ≡ true = ground arith in
                rw new (rw room (rw runs refl))),
            record {
              valid = o.slotted;
              first_iff = (λ h. sym bit ∙ new, λ h. refl);
              seen_iff = λ p.
                  rw (has_bit-grow s.seen item.product p) at (has_bit-set seen item.product p low);
              list_of = o.list_of;
            },
          )
    ]
