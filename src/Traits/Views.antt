-- ===== src/Traits/Views.antt =====
-- What the other interfaces of an automaton promise of its bottom-up steps.
use rusty_alto.Base.{ℕ, ◌≡◌, ◌↔◌, List, Memᴰ, some, get_elem?}
use rusty_alto.Ids.{Symbol}
use rusty_alto.Traits.{DetBottomUpTa, IndexedBottomUpTa, TopDownTa}

module _ {ℓ} {S : Type ℓ} where
  -- `step_topdown` reports the bottom-up rules with a given result.
  unfoldable pub IsTopDown : TopDownTa S → Type ℓ
  IsTopDown a =
      (f : Symbol) (cs : List S) (q : S) → Memᴰ (f, cs) (a.step_topdown q) ↔ Memᴰ q (a.step f cs)

  -- `step_partial` reports the bottom-up rules with a given state at a given child position.
  unfoldable pub IsIndexed : IndexedBottomUpTa S → Type ℓ
  IsIndexed a =
      (f : Symbol) (position : ℕ) (p : S) (cs : List S) (q : S)
      → Memᴰ (cs, q) (a.step_partial f position p)
        ↔ (Memᴰ q (a.step f cs) × (get_elem? cs position ≡ some p))

  -- `step_det` returns the only state that `step` reports, and none when there is no such state.
  unfoldable pub IsDet : DetBottomUpTa S → Type ℓ
  IsDet a =
      (f : Symbol) (cs : List S) (q : S)
      → (a.step_det f cs ≡ some q)
        ↔ (Memᴰ q (a.step f cs) × ((p : S) → Memᴰ p (a.step f cs) → p ≡ q))
