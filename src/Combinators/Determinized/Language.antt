-- ===== src/Combinators/Determinized/Language.antt =====
-- The subset construction keeps the language.
use rusty_alto.Base.{
  ◌≡◌, refl, ◌↔◌, ◌⊎◌, inl, inr, ⊎_elim, List, [], ◌∷◌, map, Memᴰ, not-mem-nil, mem-cons, some,
  any_iff, arith,
}
use mathlib.Core.List.Memᴰ
use rusty_alto.Base.Order.{Ord, set_insert, mem-set_insert}
use rusty_alto.Base.Flat.{flat_map, mem-flat_map, mem-map}
use rusty_alto.Ids.{Symbol}
use rusty_alto.Term.{Term, Terms, node, nil, cons}
use rusty_alto.Traits.{BottomUpTa}
use rusty_alto.Traits.Runs.{Assigns, AssignsAll, Accepts, assign, all_nil, all_cons}
use rusty_alto.Run.Tuples.Odometer.{tuples}
use rusty_alto.Run.Tuples.Enumeration.{cartesian_product-eq-tuples}
use rusty_alto.Combinators.Determinized.{
  insert_all, deterministic_result, step, is_accepting, determinized,
}

module _ {ℓ} {S : Type ℓ} where
  -- The row takes one element of each set.
  pub data RowIn : List S → List (List S) → Type ℓ where
    row_nil : RowIn [] []
    row_cons :
        {c : S} {cs : List S} {qs : List S} {sets : List (List S)}
        → Memᴰ c qs
        → RowIn cs sets
        → RowIn (c ∷ cs) (qs ∷ sets)

  pub row_of_mem : (sets : List (List S)) (cs : List S) → Memᴰ cs (tuples sets) → RowIn cs sets
  unfolding tuples
  row_of_mem [] cs m = let same : cs ≡ [] = Memᴰ.eq_of_singleton m in rw same row_nil
  row_of_mem (qs ∷ sets) cs m =
      let (c, at, n) = (mem-flat_map (λ x. map (λ xs. x ∷ xs) (tuples sets)) qs cs).0 m in
      let (rest, later, e) = (mem-map (λ xs. c ∷ xs) (tuples sets) cs).0 n in
      rw e (row_cons at (row_of_mem sets rest later))

  pub mem_of_row : {sets : List (List S)} {cs : List S} → RowIn cs sets → Memᴰ cs (tuples sets)
  unfolding tuples
  mem_of_row row_nil = Memᴰ.head refl
  mem_of_row {sets = qs ∷ sets} (row_cons {c = c} {cs = cs} at row) =
      (mem-flat_map (λ x. map (λ xs. x ∷ xs) (tuples sets)) qs (c ∷ cs)).1
        (c, at, (mem-map (λ xs. c ∷ xs) (tuples sets) (c ∷ cs)).1 (cs, mem_of_row row, refl))

module _ {ℓ} {S : Type ℓ} ⦃o : Ord S⦄ where
  pub mem-insert_all :
      (q : S) (result qs : List S) → Memᴰ q (insert_all result qs) ↔ (Memᴰ q qs ⊎ Memᴰ q result)
  unfolding insert_all
  mem-insert_all q result [] = (inr, ⊎_elim (λ m. absurd (not-mem-nil q m)) (λ m. m))
  mem-insert_all q result (p ∷ qs) =
      ground (
        arith,
        mem-insert_all q (set_insert p result) qs,
        mem-set_insert q p result,
        mem-cons q p qs,
      )

  module _ (a : BottomUpTa S) where
    -- The set holds what the automaton reports for the rows of the sets.
    result_lem :
        (f : Symbol) (sets : List (List S))
        → (r : List S) × (deterministic_result a f sets ≡ some r)
          × ((q : S) → Memᴰ q r ↔ ((cs : List S) × RowIn cs sets × Memᴰ q (a.step f cs)))
    unfolding deterministic_result
    result_lem f sets =
        let all = flat_map (λ cs. a.step f cs) (tuples sets) in
        (
          insert_all [] all,
          rw cartesian_product-eq-tuples,
          λ q. (
            λ m.
                ⊎_elim
                  (λ n.
                    let (cs, at, k) = (mem-flat_map (λ cs. a.step f cs) (tuples sets) q).0 n in
                    (cs, row_of_mem sets cs at, k))
                  (λ n. absurd (not-mem-nil q n)) ((mem-insert_all q [] all).0 m),
            λ (cs, row, k). (mem-insert_all q [] all).1 (
                inl ((mem-flat_map (λ cs. a.step f cs) (tuples sets) q).1 (cs, mem_of_row row, k))),
          ),
        )

    -- The construction reports the set unless it is empty.
    step_lem :
        (f : Symbol) (sets : List (List S)) (r qs : List S)
        → deterministic_result a f sets ≡ some r
        → Memᴰ qs (step a f sets) ↔ ((qs ≡ r) × ((q : S) × Memᴰ q r))
    unfolding step
    step_lem f sets [] qs e =
        rw (e, step) (λ m. absurd (not-mem-nil qs m), λ (_, (q, m)). absurd (not-mem-nil q m))
    step_lem f sets (p ∷ r) qs e =
        rw (e, step) (λ m. (Memᴰ.eq_of_singleton m, (p, Memᴰ.head refl)), λ h. Memᴰ.head h.0)

    mutual
      members :
          (t : Term) (qs : List S)
          → Assigns (determinized a) t qs
          → (q : S) → Memᴰ q qs ↔ Assigns a t q
      members (node f ts) qs (assign {qs = sets} run m) q =
          let (r, runs, holds) = result_lem f sets in
          let same : qs ≡ r = ((step_lem f sets r qs runs).0 m).0 in
          (
            λ k.
                let (cs, row, n) = (holds q).0 (rw same at k) in
                assign ((rows ts sets run cs).0 row) n,
            λ k. elim k [
              | assign {qs = cs} all n ↦ rw same ((holds q).1 (cs, (rows ts sets run cs).1 all, n))
            ],
          )

      rows :
          (ts : Terms) (sets : List (List S))
          → AssignsAll (determinized a) ts sets
          → (cs : List S) → RowIn cs sets ↔ AssignsAll a ts cs
      rows nil [] all_nil [] = (λ h. all_nil, λ h. row_nil)
      rows nil [] all_nil (c ∷ cs) = (λ h. elim h [ ], λ h. elim h [ ])
      rows (cons t ts) (qs ∷ sets) (all_cons one more) [] = (λ h. elim h [ ], λ h. elim h [ ])
      rows (cons t ts) (qs ∷ sets) (all_cons one more) (c ∷ cs) =
          let first = members t qs one c in
          let later = rows ts sets more cs in
          (
            λ h. elim h [ row_cons m row ↦ all_cons (first.0 m) (later.0 row) ],
            λ h. elim h [ all_cons run runs ↦ row_cons (first.1 run) (later.1 runs) ],
          )
      rows nil (qs ∷ sets) run cs = elim run [ ]
      rows (cons t ts) [] run cs = elim run [ ]

    mutual
      simulated : (t : Term) (q : S) → Assigns a t q → (qs : List S) × Assigns (determinized a) t qs
      simulated (node f ts) q (assign {qs = cs} all n) =
          let (sets, run) = simulated_all ts cs all in
          let (r, runs, holds) = result_lem f sets in
          let there = (holds q).1 (cs, (rows ts sets run cs).1 all, n) in
          (r, assign run ((step_lem f sets r r runs).1 (refl, (q, there))))

      simulated_all :
          (ts : Terms) (cs : List S)
          → AssignsAll a ts cs
          → (sets : List (List S)) × AssignsAll (determinized a) ts sets
      simulated_all nil [] all_nil = ([], all_nil)
      simulated_all nil (c ∷ cs) run = elim run [ ]
      simulated_all (cons t ts) [] run = elim run [ ]
      simulated_all (cons t ts) (c ∷ cs) (all_cons one more) =
          let (qs, here) = simulated t c one in
          let (sets, rest) = simulated_all ts cs more in (qs ∷ sets, all_cons here rest)

    -- The determinized automaton accepts a tree exactly if the automaton does.
    pub determinized-Accepts_iff : (t : Term) → Accepts (determinized a) t ↔ Accepts a t
    unfolding is_accepting
    determinized-Accepts_iff t = (
      λ (qs, run, final).
          let (q, m, e) = (any_iff a.is_accepting qs).0 final in (q, (members t qs run q).0 m, e),
      λ (q, run, final).
          let (qs, there) = simulated t q run in
          (qs, there, (any_iff a.is_accepting qs).1 (q, (members t qs there q).1 run, final)),
    )
