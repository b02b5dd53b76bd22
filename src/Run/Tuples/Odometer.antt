-- ===== src/Run/Tuples/Odometer.antt =====
-- One turn of the odometer.
use rusty_alto.Base.{
  ℕ, zero, suc, ◌+◌, ◌-◌, ◌≤◌, ◌≡◌, refl, ◌∙◌, sym, ap, inl, inr, List, [], ◌∷◌, ◌++◌, map, Option,
  none, some, ltb, length, get_elem?, get_or, set, replicate, drop, arith, Bool-cases, Option-cases,
  get_elem?_of_lt, get_elem?-beyond, length-set, >>=-eq-some,
}
use rusty_alto.Base.Flat.{flat_map}
use rusty_alto.Run.Tuples.{copy_into, reset_from, advance, first_tuple}

module _ {ℓ} {A : Type ℓ} where
  -- The tuples of the pools, the last position fastest.
  unfoldable pub tuples : List (List A) → List (List A)
  tuples [] = [] ∷ []
  tuples (pool ∷ pools) = flat_map (λ x. map (λ xs. x ∷ xs) (tuples pools)) pool

  -- The tuple holds what the indices select.
  pub data Selects : List (List A) → List ℕ → List A → Type ℓ where
    nowhere : Selects [] [] []
    at_head :
        {p : List A} {i : ℕ} {t : A} {ps : List (List A)} {is : List ℕ} {ts : List A}
        → get_elem? p i ≡ some t
        → Selects ps is ts
        → Selects (p ∷ ps) (i ∷ is) (t ∷ ts)

  -- The tuples from the selected one on.
  unfoldable pub onward : List (List A) → List ℕ → List A → List (List A)
  unfolding tuples
  onward (p ∷ ps) (i ∷ is) (t ∷ ts) =
      map (λ xs. t ∷ xs) (onward ps is ts)
      ++ flat_map (λ x. map (λ xs. x ∷ xs) (tuples ps)) (drop (suc i) p)
  onward _ _ _ = [] ∷ []

  copy-cons :
      (p : List A) (ps : List (List A)) (t : A) (ts : List A) (at i : ℕ)
      → copy_into (p ∷ ps) (suc at) i (t ∷ ts) ≡ t ∷ copy_into ps at i ts
  unfolding copy_into
  copy-cons p ps t ts at i = elim (Option-cases (get_elem? (get_or ps at []) i)) [
    | inl gone ↦ rw (gone, copy_into)
    | inr (x, there) ↦ rw (there, copy_into)
  ]

  copy-head :
      (p : List A) (ps : List (List A)) (t : A) (ts : List A) (i : ℕ) (x : A)
      → get_elem? p i ≡ some x
      → copy_into (p ∷ ps) 0 i (t ∷ ts) ≡ x ∷ ts
  unfolding copy_into
  copy-head p ps t ts i x e = rw (e, copy_into)

  -- Resetting behind the first position.
  reset-cons :
      (rounds at : ℕ) (p : List A) (ps : List (List A)) (i : ℕ) (is : List ℕ) (t : A) (ts : List A)
      → reset_from rounds (suc at) (p ∷ ps) (i ∷ is, t ∷ ts)
        ≡ (i ∷ (reset_from rounds at ps (is, ts)).0, t ∷ (reset_from rounds at ps (is, ts)).1)
  unfolding reset_from
  reset-cons zero at p ps i is t ts = refl
  reset-cons (suc rounds) at p ps i is t ts =
      rw copy-cons (reset-cons rounds (suc at) p ps i (set is at 0) t (copy_into ps at 0 ts))

  -- Resetting everything.
  reset-all :
      (ps : List (List A)) (is : List ℕ) (ts firsts : List A)
      → length is ≡ length ps
      → length ts ≡ length ps
      → first_tuple ps ≡ some firsts
      → reset_from (length ps) 0 ps (is, ts) ≡ (replicate (length ps) 0, firsts)
  unfolding reset_from first_tuple
  reset-all [] [] [] firsts e₁ e₂ h = let same : firsts ≡ [] = cc in rw same
  reset-all (p ∷ ps) (i ∷ is) (t ∷ ts) firsts e₁ e₂ h =
      let (x, first, h₁) = >>=-eq-some (get_elem? p 0) _ h in
      let (xs, rest, h₂) = >>=-eq-some (first_tuple ps) _ h₁ in
      let same : firsts ≡ x ∷ xs = cc in
      ap (λ us. reset_from (length ps) 1 (p ∷ ps) (0 ∷ is, us)) (copy-head p ps t ts 0 x first)
      ∙ reset-cons (length ps) 0 p ps 0 is x ts
      ∙ ap (λ s. (0 ∷ s.0, x ∷ s.1)) (reset-all ps is ts xs (omega arith) (omega arith) rest)
      ∙ ap (λ l. (0 ∷ replicate (length ps) 0, l)) (sym same)
  reset-all (p ∷ ps) [] ts firsts e₁ e₂ h = absurd (omega arith)
  reset-all (p ∷ ps) (i ∷ is) [] firsts e₁ e₂ h = absurd (omega arith)
  reset-all [] (i ∷ is) ts firsts e₁ e₂ h = absurd (omega arith)
  reset-all [] [] (t ∷ ts) firsts e₁ e₂ h = absurd (omega arith)

  -- The step of the first position, with the others started again.
  abbrev pub turn : List A → List (List A) → ℕ → List A → Option (List ℕ × List A)
  turn p ps i firsts = elim (get_elem? p (i + 1)) [
    | none ↦ none
    | some x ↦ some ((i + 1) ∷ replicate (length ps) 0, x ∷ firsts)
  ]

  abbrev pub behind :
      Option (List ℕ × List A) → ℕ → A → Option (List ℕ × List A) → Option (List ℕ × List A)
  behind none i t other = other
  behind (some (is, ts)) i t other = some (i ∷ is, t ∷ ts)

  -- With one more pool in front the later positions move as before, and when they are through the
  -- first position moves.
  pub advance-cons :
      (pos : ℕ) (p : List A) (ps : List (List A)) (i : ℕ) (is : List ℕ) (t : A) (ts firsts : List A)
      → length is ≡ length ps
      → length ts ≡ length ps
      → pos ≤ length ps
      → first_tuple ps ≡ some firsts
      → advance (suc pos) (p ∷ ps) (i ∷ is) (t ∷ ts)
        ≡ behind (advance pos ps is ts) i t (turn p ps i firsts)
  unfolding advance
  advance-cons zero p ps i is t ts firsts e₁ e₂ low h =
      let rounds : suc (length ps) - 1 ≡ length ps = omega arith in
      elim (Bool-cases (ltb (i + 1) (length p))) [
        | inl more ↦
            let (x, there) = get_elem?_of_lt p (i + 1) (ground arith) in
            rw (more, there, turn)
              (ap some (
                ap
                  (λ n.
                    reset_from n 1 (p ∷ ps) ((i + 1) ∷ is, copy_into (p ∷ ps) 0 (i + 1) (t ∷ ts)))
                  rounds
                ∙ ap (λ us. reset_from (length ps) 1 (p ∷ ps) ((i + 1) ∷ is, us))
                    (copy-head p ps t ts (i + 1) x there)
                ∙ reset-cons (length ps) 0 p ps (i + 1) is x ts
                ∙ ap (λ s. ((i + 1) ∷ s.0, x ∷ s.1)) (reset-all ps is ts firsts e₁ e₂ h)))
        | inr last ↦ rw (last, get_elem?-beyond p (i + 1) (ground arith), turn)
      ]
  advance-cons (suc k) p ps i is t ts firsts e₁ e₂ low h =
      let next = get_or is k 0 + 1 in
      let rounds : suc (length ps) - suc (suc k) ≡ length ps - suc k = omega arith in
      elim (Bool-cases (ltb next (length (get_or ps k [])))) [
        | inl more ↦ rw more (
            ap some (
              ap
                (λ n.
                  reset_from n (suc (suc k)) (p ∷ ps)
                    (i ∷ set is k next, copy_into (p ∷ ps) (suc k) next (t ∷ ts)))
                rounds
              ∙ ap
                  (λ us.
                    reset_from (length ps - suc k) (suc (suc k)) (p ∷ ps) (i ∷ set is k next, us))
                  (copy-cons p ps t ts k next)
              ∙ reset-cons (length ps - suc k) (suc k) p ps i (set is k next) t
                  (copy_into ps k next ts)))
        | inr last ↦ rw last (
            advance-cons k p ps i (set is k next) t ts firsts (length-set is k next ∙ e₁) e₂
              (omega arith) h)
      ]
