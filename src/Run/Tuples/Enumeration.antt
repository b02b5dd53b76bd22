-- ===== src/Run/Tuples/Enumeration.antt =====
-- The odometer enumerates all tuples, each once and in order.
use rusty_alto.Base.{
  ℕ, zero, suc, ◌+◌, ◌*◌, ◌≤◌, ◌≡◌, ◌≢◌, refl, ◌∙◌, sym, ap, inl, inr, true, false, List, [], ◌∷◌,
  ◌++◌, map, none, some, ◌==◌, nat_eq, length, get_elem?, replicate, drop, any, arith, Bool-cases,
  Option-cases, length-map, length-append,
}
use rusty_alto.Base.Flat.{flat_map}
use rusty_alto.Run.Tuples.{
  advance, odometer, first_tuple, combinations, is_empty_pool, cartesian_product,
}
use rusty_alto.Run.Tuples.Odometer.{
  tuples, Selects, nowhere, at_head, onward, turn, behind, advance-cons,
}

module _ {ℓ} {A : Type ℓ} where
  later_pools :
      (p : List A) (ps : List (List A))
      → any is_empty_pool (p ∷ ps) ≡ false
      → (any is_empty_pool ps ≡ false) × (length p ≢ 0)
  later_pools [] ps h = cc
  later_pools (x ∷ p) ps h = (ground arith, ground arith)

  -- the first element of each pool, with the tuples that follow
  start_lem :
      (ps : List (List A))
      → any is_empty_pool ps ≡ false
      → (firsts : List A) × (first_tuple ps ≡ some firsts)
        × Selects ps (replicate (length ps) 0) firsts
        × (onward ps (replicate (length ps) 0) firsts ≡ tuples ps)
  unfolding first_tuple onward tuples
  start_lem [] h = ([], refl, nowhere, refl)
  start_lem ([] ∷ ps) h = absurd ((later_pools [] ps h).1 refl)
  start_lem ((x ∷ p) ∷ ps) h =
      let (xs, runs, selected, all) = start_lem ps (later_pools (x ∷ p) ps h).0 in
      (x ∷ xs, rw runs, at_head refl selected, rw all)

  drop_at : (p : List A) (i : ℕ) (x : A) → get_elem? p i ≡ some x → drop i p ≡ x ∷ drop (suc i) p
  drop_at [] i x e = cc
  drop_at (y ∷ p) zero x e = let same : y ≡ x = cc in rw same
  drop_at (y ∷ p) (suc i) x e = drop_at p i x e

  drop_beyond : (p : List A) (i : ℕ) → get_elem? p i ≡ none → drop i p ≡ []
  drop_beyond [] zero e = refl
  drop_beyond [] (suc i) e = refl
  drop_beyond (y ∷ p) zero e = cc
  drop_beyond (y ∷ p) (suc i) e = drop_beyond p i e

  Selects-length :
      {ps : List (List A)} {is : List ℕ} {ts : List A}
      → Selects ps is ts
      → (length is ≡ length ps) × (length ts ≡ length ps)
  Selects-length nowhere = (refl, refl)
  Selects-length (at_head e more) = let (a, b) = Selects-length more in (ap suc a, ap suc b)

  -- The odometer stops at the last tuple, and otherwise moves on to the next.
  data Turn (ps : List (List A)) (is : List ℕ) (ts : List A) : Type ℓ where
    stops : advance (length ps) ps is ts ≡ none → onward ps is ts ≡ ts ∷ [] → Turn ps is ts
    moves :
        (js : List ℕ) (us : List A)
        → advance (length ps) ps is ts ≡ some (js, us)
        → Selects ps js us
        → onward ps is ts ≡ ts ∷ onward ps js us
        → Turn ps is ts

  nothing_stops : Turn [] [] []
  unfolding advance onward
  nothing_stops = stops refl refl

  -- the tuples of a row of first elements
  abbrev starting : List (List A) → List A → List (List A)
  starting ps p = flat_map (λ x. map (λ xs. x ∷ xs) (tuples ps)) p

  Turn-of :
      (ps : List (List A)) (is : List ℕ) (ts : List A)
      → any is_empty_pool ps ≡ false
      → Selects ps is ts
      → Turn ps is ts
  unfolding onward
  Turn-of [] [] [] h nowhere = nothing_stops
  Turn-of [] [] (t ∷ ts) h selects = elim selects [ ]
  Turn-of [] (i ∷ is) ts h selects = elim selects [ ]
  Turn-of (p ∷ ps) [] ts h selects = elim selects [ ]
  Turn-of (p ∷ ps) (i ∷ is) [] h selects = elim selects [ ]
  Turn-of (p ∷ ps) (i ∷ is) (t ∷ ts) h (at_head e more) =
      let (pools, _) = later_pools p ps h in
      let (size, width) = Selects-length more in
      let (firsts, first, selected, all) = start_lem ps pools in
      let joint = advance-cons (length ps) p ps i is t ts firsts size width (omega arith) first in
      elim (Turn-of ps is ts pools more) [
        | moves js us a selects o ↦
            moves (i ∷ js) (t ∷ us) (joint ∙ ap (λ r. behind r i t (turn p ps i firsts)) a)
              (at_head e selects) (ap (λ l. map (λ xs. t ∷ xs) l ++ starting ps (drop (suc i) p)) o)
        | stops a o ↦
            let through = joint ∙ ap (λ r. behind r i t (turn p ps i firsts)) a in
            let next : i + 1 ≡ suc i = omega arith in
            let last = ap (λ l. map (λ xs. t ∷ xs) l ++ starting ps (drop (suc i) p)) o in
            elim (Option-cases (get_elem? p (i + 1))) [
              | inl ends ↦ stops (through ∙ rw (ends, turn)) (
                  last
                  ∙ ap (λ l. (t ∷ ts) ∷ starting ps l) (drop_beyond p (suc i) (rw (← next) ends)))
              | inr (x, there) ↦
                  moves ((i + 1) ∷ replicate (length ps) 0) (x ∷ firsts)
                    (through ∙ rw (there, turn)) (at_head there selected)
                    (last
                      ∙ ap (λ l. (t ∷ ts) ∷ starting ps l) (drop_at p (suc i) x (rw (← next) there))
                      ∙ sym (
                          ap
                            (λ l.
                              (t ∷ ts) ∷ map (λ xs. x ∷ xs) l ++ starting ps (drop (suc (i + 1)) p))
                            all
                          ∙ ap
                              (λ n.
                                (t ∷ ts) ∷ map (λ xs. x ∷ xs) (tuples ps)
                                ++ starting ps (drop (suc n) p))
                              next))
            ]
      ]

  -- With fuel for the tuples from the selected one on, the loop calls back with exactly these.
  odometer_lem :
      (fuel : ℕ) (ps : List (List A)) (is : List ℕ) (ts : List A)
      → any is_empty_pool ps ≡ false
      → Selects ps is ts
      → length (onward ps is ts) ≤ fuel
      → odometer fuel ps is ts ≡ some (onward ps is ts)
  unfolding odometer
  odometer_lem zero ps is ts h selects room = elim (Turn-of ps is ts h selects) [
    | stops a o ↦ absurd (let one = ap length o in omega arith)
    | moves js us a next o ↦ absurd (let one = ap length o in omega arith)
  ]
  odometer_lem (suc fuel) ps is ts h selects room = elim (Turn-of ps is ts h selects) [
    | stops a o ↦ rw (a, o)
    | moves js us a next o ↦
        let one = ap length o in rw (a, odometer_lem fuel ps js us h next (omega arith), o)
  ]

  length-row :
      (ps : List (List A)) (p : List A) → length (starting ps p) ≡ length p * length (tuples ps)
  length-row ps [] = omega arith
  length-row ps (x ∷ p) = grind (
    arith,
    length-append (map (λ xs. x ∷ xs) (tuples ps)) (starting ps p),
    length-map (λ xs. x ∷ xs) (tuples ps),
    length-row ps p,
  )

  length-tuples : (ps : List (List A)) → length (tuples ps) ≡ combinations ps
  unfolding tuples combinations
  length-tuples [] = refl
  length-tuples (p ∷ ps) = length-row ps p ∙ ap (λ n. length p * n) (length-tuples ps)

  no_rows : (ps : List (List A)) (p : List A) → tuples ps ≡ [] → starting ps p ≡ []
  no_rows ps [] e = refl
  no_rows ps (x ∷ p) e = ap (λ l. map (λ xs. x ∷ xs) l ++ starting ps p) e ∙ no_rows ps p e

  no_tuples : (ps : List (List A)) → any is_empty_pool ps ≡ true → tuples ps ≡ []
  unfolding tuples
  no_tuples [] h = cc
  no_tuples ([] ∷ ps) h = refl
  no_tuples ((x ∷ p) ∷ ps) h = no_rows ps (x ∷ p) (no_tuples ps (ground arith))

  -- `cartesian_product` calls its callback with each tuple of one element of each pool, once and in
  -- lexicographic order of the positions: it neither panics nor runs on.
  pub cartesian_product-eq-tuples : (ps : List (List A)) → cartesian_product ps ≡ some (tuples ps)
  unfolding cartesian_product tuples
  cartesian_product-eq-tuples [] = refl
  cartesian_product-eq-tuples (p ∷ ps) = elim (Bool-cases (any is_empty_pool (p ∷ ps))) [
    | inl gap ↦ rw gap (ap some (sym (no_tuples (p ∷ ps) gap)))
    | inr full ↦
        let (firsts, first, selected, all) = start_lem (p ∷ ps) full in
        let some_pool : (length (p ∷ ps) == 0) ≡ false = ground arith in
        let enough : length (onward (p ∷ ps) (replicate (length (p ∷ ps)) 0) firsts)
            ≤ combinations (p ∷ ps) =
          (let size = ap length all in omega (arith, length-tuples (p ∷ ps))) in
        rw (full, some_pool, first)
          (odometer_lem (combinations (p ∷ ps)) (p ∷ ps) (replicate (length (p ∷ ps)) 0) firsts full
              selected enough
            ∙ ap some all)
  ]
