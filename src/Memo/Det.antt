-- ===== src/Memo/Det.antt =====
-- `step_det` of the memo: the only result of the inner automaton, and a panic where there is none.
use rusty_alto.Base.{
  ◌<◌, ◌≡◌, refl, sym, ap, ◌∙◌, subst, inl, inr, ⊎_elim, List, [], ◌∷◌, Memᴰ, mem-cons, not-mem-nil,
  Option, none, some, Eq, nat_eq, length, Option-cases,
}
use rusty_alto.Base.Assoc.{lookup}
use rusty_alto.Ids.{StateId, Symbol, stuck}
use rusty_alto.Interner.{Interner, intern, resolve}
use rusty_alto.Interner.Laws.{IsValid, resolve-eq}
use rusty_alto.Traits.{DetBottomUpTa}
use rusty_alto.Traits.Views.{IsDet}
use rusty_alto.Memo.Keys.{key_of, key_eq, key_symbol-key_of, key_children-key_of}
use rusty_alto.Memo.{
  Memo, resolve_children, record_hit, remember, only_one, intern_answer, step_det_miss, step_det,
}
use rusty_alto.Memo.Interning.{Keeps, resolve_children-Keeps, Stands, intern-Extended}
use rusty_alto.Memo.Steps.{IsMemo, cached-Answered, remember-IsMemo}

module _ {ℓ} {S : Type ℓ} ⦃e : Eq S⦄ where
  resolve-injective :
      (i : Interner S) (p q : StateId) (s : S)
      → IsValid i
      → resolve i p ≡ some s
      → resolve i q ≡ some s
      → p ≡ q
  resolve-injective i p q s v h k =
      let first = v.two_way.to_forward s p (sym (resolve-eq i p v.bounded) ∙ h) in
      let second = v.two_way.to_forward s q (sym (resolve-eq i q v.bounded) ∙ k) in
      let both : Option.some p ≡ some q = sym first ∙ second in cc

  -- Identifiers that stand for one state are one identifier.
  Stands-only :
      (i : Interner S) (ids : List StateId) (states : List S) (s : S)
      → IsValid i
      → Stands i ids states
      → Memᴰ s states
      → ((t : S) → Memᴰ t states → t ≡ s)
      → (id : StateId) × (only_one ids ≡ some (some id)) × (resolve i id ≡ some s)
  unfolding only_one
  Stands-only i [] states s v h m only =
      let (id, n, at) = h.complete s m in absurd (not-mem-nil id n)
  Stands-only i (p ∷ []) states s v h m only =
      let (t, at, n) = h.sound p (Memᴰ.head refl) in (p, refl, at ∙ ap some (only t n))
  Stands-only i (p ∷ q ∷ ids) states s v h m only =
      let (t, at, n) = h.sound p (Memᴰ.head refl) in
      let (u, there, k) = h.sound q (Memᴰ.tail (Memᴰ.head refl)) in
      let same =
        resolve-injective i p q s v (at ∙ ap some (only t n)) (there ∙ ap some (only u k)) in
      absurd (h.distinct.0 (Memᴰ.head same))

module _ {ℓ} {S : Type ℓ} ⦃e : Eq S⦄ (inner : DetBottomUpTa S) where
  step_det_new :
      (m : Memo S) (f : Symbol) (qs : List StateId) (children : List S) (s : S) (j : Interner S)
      (id : StateId)
      → lookup (key_of f qs) m.cache ≡ none
      → resolve_children m.interner qs ≡ some children
      → inner.step_det f children ≡ some s
      → intern m.interner s ≡ some (j, id)
      → step_det inner m f qs ≡ some (remember m j (key_of f qs) (id ∷ []), some id)
  unfolding step_det step_det_miss intern_answer only_one
  step_det_new m f qs children s j id unknown known answer runs =
      rw (unknown, step_det) (rw known (rw answer (rw runs refl)))

  step_det_old :
      (m : Memo S) (f : Symbol) (qs : List StateId) (ids : List StateId) (id : StateId)
      → lookup (key_of f qs) m.cache ≡ some ids
      → only_one ids ≡ some (some id)
      → step_det inner m f qs ≡ some (record_hit m, some id)
  unfolding step_det
  step_det_old m f qs ids id found one = rw (found, step_det) (rw one refl)

  single-Stands :
      (i : Interner S) (id : StateId) (states : List S) (s : S)
      → resolve i id ≡ some s
      → Memᴰ s states
      → ((t : S) → Memᴰ t states → t ≡ s)
      → Stands i (id ∷ []) states
  single-Stands i id states s at m only = record {
    sound = λ p n.
        let same : p ≡ id =
          ⊎_elim (λ e. e) (λ never. absurd (not-mem-nil p never)) ((mem-cons p id []).0 n) in
        (s, subst (λ z. resolve i z ≡ some s) (sym same) at, m);
    complete = λ t n. (id, Memᴰ.head refl, at ∙ ap some (sym (only t n)));
    distinct = (not-mem-nil id, tt);
  }

  -- If `step_det` of the inner automaton returns the only result of `step` and there is one, so
  -- does that of the memo, as an identifier that stands for it; the invariant is kept.
  pub step_det_lem :
      (m : Memo S) (f : Symbol) (qs : List StateId) (children : List S) (s : S)
      → IsDet inner
      → IsMemo inner.oracle m
      → resolve_children m.interner qs ≡ some children
      → length m.interner.backward < stuck
      → inner.step_det f children ≡ some s
      → (n : Memo S) × (id : StateId) × (step_det inner m f qs ≡ some (n, some id))
        × (resolve n.interner id ≡ some s)
        × IsMemo inner.oracle n
        × Keeps m.interner n.interner
  unfolding IsDet
  step_det_lem m f qs children s det v known room answer =
      let (held, only) = (det f children s).0 answer in
      elim (Option-cases (lookup (key_of f qs) m.cache)) [
        | inr (ids, found) ↦
            let a = cached-Answered inner.oracle m f qs children ids v known found in
            let (id, one, at) =
              Stands-only m.interner ids (inner.step f children) s v.valid a.stands held only in
            (record_hit m, id, step_det_old m f qs ids id found one, at, a.valid, a.keeps)
        | inl unknown ↦
            let (j, id, runs, x) = intern-Extended m.interner s v.valid room in
            (
              remember m j (key_of f qs) (id ∷ []),
              id,
              step_det_new m f qs children s j id unknown known answer runs,
              x.found,
              remember-IsMemo inner.oracle m j (key_of f qs) (id ∷ []) v x.valid x.keeps (record {
                children = children;
                resolved =
                    rw (key_children-key_of f qs)
                      (resolve_children-Keeps m.interner j qs children x.keeps known);
                stands =
                    rw (key_symbol-key_of f qs)
                      (single-Stands j id (inner.step f children) s x.found held only);
              }),
              x.keeps,
            )
      ]

  -- Asked for a transition that is not in the cache and that the inner automaton answers by none,
  -- `step_det` panics.
  pub step_det_panics :
      (m : Memo S) (f : Symbol) (qs : List StateId) (children : List S)
      → resolve_children m.interner qs ≡ some children
      → lookup (key_of f qs) m.cache ≡ none
      → inner.step_det f children ≡ none
      → step_det inner m f qs ≡ none
  unfolding step_det step_det_miss intern_answer only_one
  step_det_panics m f qs children known unknown answer =
      rw (unknown, step_det) (rw known (rw answer refl))
