-- ===== src/Run/Nondet/Sets.antt =====
-- `run_nondet` gives each node the set of the states that its tree may receive.
use rusty_alto.Base.{
  ℕ, ◌≡◌, refl, ◌↔◌, inl, ⊎_elim, true, false, List, [], ◌∷◌, Memᴰ, not-mem-nil, Option, none, some,
  ◌>>=◌, length, get_or, All, nat_eq,
}
use rusty_alto.Base.Bits.{has_bit}
use rusty_alto.Base.Order.{Ord}
use rusty_alto.Base.Flat.{flat_map, mem-flat_map}
use rusty_alto.Ids.{Symbol}
use rusty_alto.Term.{Term, Terms, nil, cons}
use rusty_alto.Traits.{BottomUpTa}
use rusty_alto.Traits.Runs.{Assigns, AssignsAll, all_nil, all_cons}
use rusty_alto.Run.Tuples.Odometer.{tuples}
use rusty_alto.Run.Tuples.Enumeration.{cartesian_product-eq-tuples}
use rusty_alto.Combinators.Determinized.Language.{
  RowIn, row_nil, row_cons, row_of_mem, mem_of_row, mem-insert_all,
}
use rusty_alto.Run.Det.{Arena}
use rusty_alto.Run.Det.Evaluation.{IsTree, IsRow, IsOrdered, tree_at}
use rusty_alto.Run.Det.Evaluation as Evaluation
use rusty_alto.Run.Nondet.{SetVisits, gather_pools, local_states}

module _ {ℓ} {S : Type ℓ} ⦃o : Ord S⦄ (a : BottomUpTa S) (arena : Arena) where
  -- The set holds what the automaton reports for the rows of the pools.
  pub mem-local_states :
      (f : Symbol) (pools : List (List S)) (q : S)
      → Memᴰ q (local_states a arena f pools)
        ↔ ((cs : List S) × RowIn cs pools × Memᴰ q (a.step f cs))
  unfolding local_states
  mem-local_states f pools q =
      let all = flat_map (λ cs. a.step f cs) (tuples pools) in
      rw (cartesian_product-eq-tuples pools, local_states)
        (
          λ m.
              ⊎_elim
                (λ n.
                  let (cs, at, k) = (mem-flat_map (λ cs. a.step f cs) (tuples pools) q).0 n in
                  (cs, row_of_mem pools cs at, k))
                (λ n. absurd (not-mem-nil q n)) ((mem-insert_all q [] all).0 m),
          λ (cs, row, k).
              (mem-insert_all q [] all).1 (
                inl
                  ((mem-flat_map (λ cs. a.step f cs) (tuples pools) q).1 (cs, mem_of_row row, k))),
        )

  pub record Filled (seen : List ℕ) (s : SetVisits S) : Type ℓ where
    pub size : length s.states ≡ arena.len
    pub width : length s.visited ≡ arena.len
    pub marks : (n : ℕ) → (has_bit s.visited n ≡ true) ↔ Memᴰ n seen
    pub fresh : (n : ℕ) → has_bit s.visited n ≡ false → get_or s.states n [] ≡ []
    pub right :
        (n : ℕ) (t : Term) (q : S)
        → Memᴰ n seen
        → IsTree arena n t
        → Memᴰ q (get_or s.states n []) ↔ Assigns a t q

  -- The pools hold the rows of states that the children may receive; without pools there are none.
  pub data Pools : Option (List (List S)) → List S → Type ℓ where
    in_pools : {pools : List (List S)} {cs : List S} → RowIn cs pools → Pools (some pools) cs

  -- one more pool in front
  abbrev more_pools : List S → Option (List (List S)) → Option (List (List S))
  more_pools [] rest = none
  more_pools (q ∷ qs) none = none
  more_pools (q ∷ qs) (some pools) = some ((q ∷ qs) ∷ pools)

  gather-nil : (states : List (List S)) → gather_pools states [] ≡ some []
  unfolding gather_pools
  gather-nil states = refl

  gather-cons :
      (states : List (List S)) (n : ℕ) (ns : List ℕ)
      → gather_pools states (n ∷ ns) ≡ more_pools (get_or states n []) (gather_pools states ns)
  unfolding gather_pools
  gather-cons states n ns = shape (get_or states n []) (gather_pools states ns)
    where
      shape :
          (set : List S) (rest : Option (List (List S)))
          → (elim set [ [] ↦ none | q ∷ qs ↦ rest >>= λ pools. some ((q ∷ qs) ∷ pools) ])
            ≡ more_pools set rest
      shape [] rest = refl
      shape (q ∷ qs) none = refl
      shape (q ∷ qs) (some pools) = refl

  pub to_row : (pools : List (List S)) (cs : List S) → Pools (some pools) cs → RowIn cs pools
  to_row pools cs (in_pools row) = row

  pub no-Pools : (cs : List S) → ¬ Pools none cs
  no-Pools cs h = elim h [ ]

  Pools-cons :
      (set : List S) (rest : Option (List (List S))) (c : S) (cs : List S)
      → Pools (more_pools set rest) (c ∷ cs) ↔ (Memᴰ c set × Pools rest cs)
  Pools-cons [] rest c cs = (λ h. absurd (no-Pools (c ∷ cs) h), λ h. absurd (not-mem-nil c h.0))
  Pools-cons (q ∷ qs) none c cs = (λ h. absurd (no-Pools (c ∷ cs) h), λ h. absurd (no-Pools cs h.1))
  Pools-cons (q ∷ qs) (some pools) c cs = (
    λ h. elim (to_row ((q ∷ qs) ∷ pools) (c ∷ cs) h) [ row_cons m row ↦ (m, in_pools row) ],
    λ (m, h). in_pools (row_cons m (to_row pools cs h)),
  )

  Pools-short : (set : List S) (rest : Option (List (List S))) → ¬ Pools (more_pools set rest) []
  Pools-short [] rest h = no-Pools [] h
  Pools-short (q ∷ qs) none h = no-Pools [] h
  Pools-short (q ∷ qs) (some pools) h = elim (to_row ((q ∷ qs) ∷ pools) [] h) [ ]

  pub rows :
      (seen : List ℕ) (s : SetVisits S) (ns : List ℕ) (ts : Terms) (cs : List S)
      → Filled seen s
      → All (λ c. Memᴰ c seen) ns
      → IsRow arena ns ts
      → Pools (gather_pools s.states ns) cs ↔ AssignsAll a ts cs
  rows seen s [] nil [] v in_seen run = rw gather-nil (λ h. all_nil, λ h. in_pools row_nil)
  rows seen s [] nil (c ∷ cs) v in_seen run =
      rw gather-nil (λ h. elim (to_row [] (c ∷ cs) h) [ ], λ h. elim h [ ])
  rows seen s (n ∷ ns) nil cs v in_seen run = elim run [ ]
  rows seen s [] (cons t ts) cs v in_seen run = elim run [ ]
  rows seen s (n ∷ ns) (cons t ts) [] v in_seen (Evaluation.row_cons one row) = rw gather-cons (
    λ h. absurd (Pools-short (get_or s.states n []) (gather_pools s.states ns) h),
    λ h. elim h [ ],
  )
  rows seen s (n ∷ ns) (cons t ts) (c ∷ cs) v in_seen (Evaluation.row_cons one row) =
      let here = v.right n t c in_seen.0 one in
      let rest = rows seen s ns ts cs v in_seen.1 row in
      let both = Pools-cons (get_or s.states n []) (gather_pools s.states ns) c cs in
      rw gather-cons (
        λ h. let (m, k) = both.0 h in all_cons (here.0 m) (rest.0 k),
        λ h. elim h [ all_cons run runs ↦ both.1 (here.1 run, rest.1 runs) ],
      )
