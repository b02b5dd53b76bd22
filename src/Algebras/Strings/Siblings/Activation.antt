-- ===== src/Algebras/Strings/Siblings/Activation.antt =====
-- `activate` against the queries of `SpanProductSiblingFinder`.
use rusty_alto.Base.{
  ℕ, zero, suc, ◌-◌, ◌≤◌, ◌≡◌, refl, ◌↔◌, ◌⊎◌, Bool, true, false, ◌&&◌, [], ◌∷◌, ◌++◌, some, arith,
  ◌==◌, nat_eq, pair_eq, if◌then◌else◌,
}
use rusty_alto.Base.Assoc.{lookup}
use rusty_alto.Base.Bits.{has_bit}
use rusty_alto.Ids.{StateId}
use rusty_alto.Algebras.Strings.{Span}
use rusty_alto.Algebras.Strings.Siblings.{
  SpanProductSibling, SpanProductSiblingFinder, left_side, right_side, with_sides, activate,
  siblings_slice,
}
use rusty_alto.Algebras.Strings.Siblings.Slots.{IsSide}
use rusty_alto.Algebras.Strings.Siblings.Finder.{activate_side-Activated}

-- The end of a span at which a child at a position meets its sibling.
abbrev pub boundary : ℕ → Span → ℕ
boundary zero span = span.end
boundary (suc position) span = span.start

-- A span meets the other, and its state is the one required.
abbrev pub is_sibling : ℕ → Span → StateId → Span → StateId → Bool
is_sibling position span left_state other required =
    (boundary position span == boundary (1 - position) other) && (left_state == required)

-- The product was activated at the position.
abbrev pub is_active : SpanProductSiblingFinder → ℕ → StateId → Bool
is_active f zero product = has_bit f.seen_left product
is_active f (suc position) product = has_bit f.seen_right product

abbrev pub IsFinder : SpanProductSiblingFinder → Type 0
IsFinder f = IsSide (left_side f) × IsSide (right_side f)

-- `SpanProductSiblingFinder::default`
abbrev pub empty_finder : SpanProductSiblingFinder
empty_finder = record {
  left_slots_by_end = [];
  right_slots_by_start = [];
  left_lists = [];
  right_lists = [];
  seen_left = [];
  seen_right = [];
}

pub empty_finder-IsFinder : IsFinder empty_finder
unfolding lookup
empty_finder-IsFinder = (
  record { in_range = λ k i h. cc; apart = λ j k i h₁ h₂. cc },
  record { in_range = λ k i h. cc; apart = λ j k i h₁ h₂. cc },
)

-- What a call of `activate` that answers `first` leaves.
pub record Change (f : SpanProductSiblingFinder) (item : SpanProductSibling) (left_state : StateId)
    (span : Span) (position : ℕ) (g : SpanProductSiblingFinder) (first : Bool) : Type 0 where
  pub valid : IsFinder g
  pub first_iff : (first ≡ true) ↔ (is_active f position item.product ≡ false)
  pub active_iff :
      (p : StateId)
      → (is_active g position p ≡ true) ↔ ((p ≡ item.product) ⊎ (is_active f position p ≡ true))
  pub siblings_of :
      (other : Span) (required : StateId)
      → siblings_slice g other (1 - position) required ≡ (
          if first && is_sibling position span left_state other required
          then siblings_slice f other (1 - position) required ++ item ∷ []
          else siblings_slice f other (1 - position) required)
  pub other_active : (p : StateId) → is_active g (1 - position) p ≡ is_active f (1 - position) p
  pub same_side :
      (other : Span) (required : StateId)
      → siblings_slice g other position required ≡ siblings_slice f other position required

-- `activate` at either position returns. It answers true exactly if the product was not active
-- there; then the product is added, as the last sibling, for the spans that meet the span and the
-- state that it requires. The other lists of siblings at both positions stay; the product is active
-- at the position afterwards, and no other product, or position, changes in this.
pub activate-Change :
    (f : SpanProductSiblingFinder) (product left_state right_state : StateId) (span : Span)
    (position : ℕ)
    → IsFinder f
    → position ≤ 1
    → (g : SpanProductSiblingFinder) × (first : Bool) × (activate f product left_state right_state
          span position
        ≡ some (g, first))
      × Change f
          (record { product = product; right_state = right_state })
          left_state
          span
          position
          g
          first
unfolding activate siblings_slice
activate-Change f product left_state right_state span zero (l, r) h =
    let (t, first, runs, x) =
      activate_side-Activated (left_side f) (span.end, left_state)
        (record { product = product; right_state = right_state }) l in
    (
      with_sides t (right_side f),
      first,
      rw runs refl,
      record {
        valid = (x.valid, r);
        first_iff = x.first_iff;
        active_iff = x.seen_iff;
        siblings_of = λ other required. x.list_of (other.start, required);
        other_active = λ p. refl;
        same_side = λ other required. refl;
      },
    )
activate-Change f product left_state right_state span (suc zero) (l, r) h =
    let (t, first, runs, x) =
      activate_side-Activated (right_side f) (span.start, left_state)
        (record { product = product; right_state = right_state }) r in
    (
      with_sides (left_side f) t,
      first,
      rw runs refl,
      record {
        valid = (l, x.valid);
        first_iff = x.first_iff;
        active_iff = x.seen_iff;
        siblings_of = λ other required. x.list_of (other.end, required);
        other_active = λ p. refl;
        same_side = λ other required. refl;
      },
    )
activate-Change f product left_state right_state span (suc (suc position)) v h =
    absurd (omega arith)
