-- ===== src/Interner/Laws.antt =====
-- The two directions of an interner agree, and identifiers are dense and stable.
use rusty_alto.Base.{
  ◌≤◌, ◌<◌, ◌≡◌, ◌∙◌, Bool-cases, get_elem?-beyond, inl, inr, [], ◌∷◌, ◌++◌, none, some, Eq, nat_eq,
  arith, length, get_elem?, length-append, get_elem?-append_left, lt-length_of_get_elem?,
  Option-cases,
}
use rusty_alto.Base.Assoc.{lookup, insert}
use rusty_alto.Base.TwoWay.{TwoWay, empty-TwoWay, insert-TwoWay, insert-TwoWay_known}
use rusty_alto.Ids.{StateId, stuck, is_stuck, is_stuck_iff}
use rusty_alto.Interner.{Interner, new, resolve, get, intern}

module _ {ℓ} {T : Type ℓ} ⦃e : Eq T⦄ where
  -- `forward` and `backward` are inverse to one another, and no state is `STUCK`.
  pub record IsValid (i : Interner T) : Type ℓ where
    pub two_way : TwoWay i.forward i.backward
    pub bounded : length i.backward ≤ stuck

  pub new-IsValid : IsValid new
  unfolding stuck
  new-IsValid = record { two_way = empty-TwoWay; bounded = omega arith }

  -- What a call of `intern` that returns has done.
  pub data Interned (i : Interner T) (t : T) (j : Interner T) (id : StateId) : Type ℓ where
    known : lookup t i.forward ≡ some id → j ≡ i → Interned i t j id
    fresh :
        lookup t i.forward ≡ none
        → length i.backward < stuck
        → id ≡ length i.backward
        → j ≡ record { forward = insert t id i.forward; backward = i.backward ++ t ∷ [] }
        → Interned i t j id

  pub intern_cases :
      (i : Interner T) (t : T) (j : Interner T) (id : StateId)
      → intern i t ≡ some (j, id)
      → Interned i t j id
  unfolding intern stuck
  intern_cases i t j id h = elim (Option-cases (lookup t i.forward)) [
    | inl new_value ↦ fresh new_value (ground arith) (ground arith) (ground arith)
    | inr (old, found) ↦ known (ground arith) (ground arith)
  ]

  -- `intern` keeps the invariant.
  pub intern-IsValid :
      (i : Interner T) (t : T) (j : Interner T) (id : StateId)
      → IsValid i
      → intern i t ≡ some (j, id)
      → IsValid j
  intern-IsValid i t j id v h = keep (intern_cases i t j id h)
    where
      keep : Interned i t j id → IsValid j
      keep (known found same) = rw same v
      keep (fresh unknown room at same) = rw same (record {
        two_way = insert-TwoWay i.forward i.backward t id v.two_way unknown at;
        bounded = omega (arith, length-append i.backward (t ∷ []));
      })

  -- After `intern` both directions know the pair.
  pub intern_known :
      (i : Interner T) (t : T) (j : Interner T) (id : StateId)
      → IsValid i
      → intern i t ≡ some (j, id)
      → (lookup t j.forward ≡ some id) × (get_elem? j.backward id ≡ some t) × (id < stuck)
  intern_known i t j id v h = pair (intern_cases i t j id h)
    where
      pair :
          Interned i t j id
          → (lookup t j.forward ≡ some id) × (get_elem? j.backward id ≡ some t) × (id < stuck)
      pair (known found same) = rw same (
        found,
        v.two_way.to_backward t id found,
        omega (
          arith,
          v.bounded,
          lt-length_of_get_elem? i.backward id (v.two_way.to_backward t id found),
        ),
      )
      pair (fresh unknown room at same) =
          let (forth, back) = insert-TwoWay_known i.forward i.backward t id at in
          rw same (forth, back, omega arith)

  -- Identifiers given earlier keep their value.
  pub intern_stable :
      (i : Interner T) (t : T) (j : Interner T) (id k : StateId) (s : T)
      → intern i t ≡ some (j, id)
      → get_elem? i.backward k ≡ some s
      → get_elem? j.backward k ≡ some s
  intern_stable i t j id k s h m = keep (intern_cases i t j id h)
    where
      keep : Interned i t j id → get_elem? j.backward k ≡ some s
      keep (known found same) = rw same m
      keep (fresh unknown room at same) =
          rw same (
            get_elem?-append_left i.backward (t ∷ []) k (lt-length_of_get_elem? i.backward k m) ∙ m)

  pub resolve-eq :
      (i : Interner T) (k : StateId)
      → length i.backward ≤ stuck
      → resolve i k ≡ get_elem? i.backward k
  unfolding resolve
  resolve-eq i k low = elim (Bool-cases (is_stuck k)) [
    | inl at ↦ rw (at, get_elem?-beyond i.backward k (omega (arith, (is_stuck_iff k).0 at)))
    | inr off ↦ rw off
  ]

  -- A call of `intern` on a valid interner that returns leaves a valid interner; the identifier
  -- is not `STUCK`, resolves to the value, and is what `get` and a second call return; and every
  -- identifier that resolved before resolves to the same value.
  pub intern_lem :
      (i : Interner T) (t : T) (j : Interner T) (id : StateId)
      → IsValid i
      → intern i t ≡ some (j, id)
      → IsValid j
        × (resolve j id ≡ some t)
        × (get j t ≡ some id)
        × (intern j t ≡ some (j, id))
        × ((k : StateId) (s : T) → resolve i k ≡ some s → resolve j k ≡ some s)
  unfolding get intern
  intern_lem i t j id v h =
      let (forth, back, low) = intern_known i t j id v h in
      let valid = intern-IsValid i t j id v h in
      (
        valid,
        resolve-eq j id valid.bounded ∙ back,
        forth,
        rw (forth, intern),
        λ k s m.
            resolve-eq j k valid.bounded
            ∙ intern_stable i t j id k s h (rw (resolve-eq i k v.bounded) at m),
      )

  -- With fewer than `STUCK` values, `intern` does not panic.
  pub intern_total :
      (i : Interner T) (t : T)
      → length i.backward < stuck
      → (j : Interner T) × (id : StateId) × (intern i t ≡ some (j, id))
  unfolding intern stuck
  intern_total i t room = elim (Option-cases (lookup t i.forward)) [
    | inl unknown ↦ (
      record { forward = insert t (length i.backward) i.forward; backward = i.backward ++ t ∷ [] },
      length i.backward,
      ground arith,
    )
    | inr (old, found) ↦ (i, old, ground arith)
  ]
