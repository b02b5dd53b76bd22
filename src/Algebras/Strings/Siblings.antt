-- ===== src/Algebras/Strings/Siblings.antt =====
-- src/algebras/string.rs: the two indexes that pair a span with the spans that it meets,
-- `StringSiblingIndex` and `SpanProductSiblingFinder`. A panic is `none`.
pub mod Partners
pub mod Slots
pub mod Finder
pub mod Activation
use rusty_alto.Base.{
  ℕ, ◌+◌, ◌-◌, ◌≡◌, Bool, true, false, List, [], ◌∷◌, ◌++◌, Option, none, some, ◌>>=◌, ◌==◌, nat_eq,
  pair_eq, leb, length, get_elem?, replicate, if◌then◌else◌,
}
use rusty_alto.Base.Assoc.{Assoc, lookup, insert, listed}
use rusty_alto.Base.Bits.{has_bit, set_bit}
use rusty_alto.Base.Rows.{push_at}
use rusty_alto.Ids.{Symbol, StateId}
use rusty_alto.Algebras.Strings.{Span, StringDecompositionAutomaton, len}

pub record StringSiblingIndex : Type 0 where
  pub by_end : List (List ℕ)
  pub by_start : List (List ℕ)

-- `StringSiblingIndexFactory::new_index`
unfoldable pub new_index : StringDecompositionAutomaton → Symbol → Option StringSiblingIndex
new_index d symbol =
    if symbol == d.concat
    then some (record { by_end = replicate (len d + 1) []; by_start = replicate (len d + 1) [] })
    else none

-- `StringSiblingIndex::add`
unfoldable pub add : StringSiblingIndex → ℕ → Span → ℕ → Option StringSiblingIndex
add ix position state item =
    if position == 0
    then (do
      rows ← push_at ix.by_end state.end item
      some (record { by_end = rows; by_start = ix.by_start }))
    else if position == 1
    then (do
      rows ← push_at ix.by_start state.start item
      some (record { by_end = ix.by_end; by_start = rows }))
    else none

-- `StringSiblingIndex::partners`
unfoldable pub partners : StringSiblingIndex → ℕ → Span → Option (List ℕ)
partners ix position state =
    if position == 0
    then get_elem? ix.by_start state.end
    else if position == 1
    then get_elem? ix.by_end state.start
    else none

-- the calls of `add` one after another: a position, a span and an item each
unfoldable pub add_all : StringSiblingIndex → List (ℕ × Span × ℕ) → Option StringSiblingIndex
add_all ix [] = some ix
add_all ix ((position, state, item) ∷ calls) = do jx ← add ix position state item; add_all jx calls

pub record SpanProductSibling : Type 0 where
  pub product : StateId
  pub right_state : StateId

pub record SpanProductSiblingFinder : Type 0 where
  pub left_slots_by_end : Assoc (ℕ × StateId) ℕ
  pub right_slots_by_start : Assoc (ℕ × StateId) ℕ
  pub left_lists : List (List SpanProductSibling)
  pub right_lists : List (List SpanProductSibling)
  pub seen_left : List Bool
  pub seen_right : List Bool

-- the three fields of one side
pub record Side : Type 0 where
  pub slots : Assoc (ℕ × StateId) ℕ
  pub lists : List (List SpanProductSibling)
  pub seen : List Bool

-- `FixedBitSet::grow`, called when the set is too short
unfoldable pub grow : List Bool → ℕ → List Bool
grow bits i = if leb (length bits) i then bits ++ replicate (i + 1 - length bits) false else bits

-- the list for a key, opened if there is none: `slots.entry(key).or_insert_with(...)`, and a push
unfoldable pub push_slot :
    Assoc (ℕ × StateId) ℕ
    → List (List SpanProductSibling)
    → ℕ × StateId
    → SpanProductSibling
    → Option (Assoc (ℕ × StateId) ℕ × List (List SpanProductSibling))
push_slot slots lists key item = elim (lookup key slots) [
  | some slot ↦ do more ← push_at lists slot item; some (slots, more)
  | none ↦ do
    more ← push_at (lists ++ [] ∷ []) (length lists) item
    some (insert key (length lists) slots, more)
]

-- either branch of `activate`
unfoldable pub activate_side : Side → ℕ × StateId → SpanProductSibling → Option (Side × Bool)
activate_side side key item =
    let seen = grow side.seen item.product in
    if has_bit seen item.product
    then some (record { slots = side.slots; lists = side.lists; seen = seen }, false)
    else do
      bits ← set_bit seen item.product
      (slots, lists) ← push_slot side.slots side.lists key item
      some (record { slots = slots; lists = lists; seen = bits }, true)

abbrev pub left_side : SpanProductSiblingFinder → Side
left_side f = record { slots = f.left_slots_by_end; lists = f.left_lists; seen = f.seen_left }

abbrev pub right_side : SpanProductSiblingFinder → Side
right_side f = record { slots = f.right_slots_by_start; lists = f.right_lists; seen = f.seen_right }

abbrev pub with_sides : Side → Side → SpanProductSiblingFinder
with_sides left right = record {
  left_slots_by_end = left.slots;
  right_slots_by_start = right.slots;
  left_lists = left.lists;
  right_lists = right.lists;
  seen_left = left.seen;
  seen_right = right.seen;
}

-- `SpanProductSiblingFinder::activate`
unfoldable pub activate :
    SpanProductSiblingFinder
    → StateId
    → StateId
    → StateId
    → Span
    → ℕ
    → Option (SpanProductSiblingFinder × Bool)
activate f product left_state right_state span position =
    let item : SpanProductSibling = record { product = product; right_state = right_state } in
    if position == 0
    then (do
      (side, first) ← activate_side (left_side f) (span.end, left_state) item
      some (with_sides side (right_side f), first))
    else if position == 1
    then (do
      (side, first) ← activate_side (right_side f) (span.start, left_state) item
      some (with_sides (left_side f) side, first))
    else some (f, false)

-- the list for a key, empty if there is none
unfoldable pub slot_list : Side → ℕ × StateId → List SpanProductSibling
slot_list side key = listed (do slot ← lookup key side.slots; get_elem? side.lists slot)

-- `SpanProductSiblingFinder::siblings_slice`
unfoldable pub siblings_slice :
    SpanProductSiblingFinder → Span → ℕ → StateId → List SpanProductSibling
siblings_slice f span position required_left =
    if position == 0
    then slot_list (right_side f) (span.end, required_left)
    else if position == 1
    then slot_list (left_side f) (span.start, required_left)
    else []
