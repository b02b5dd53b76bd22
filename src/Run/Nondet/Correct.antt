-- ===== src/Run/Nondet/Correct.antt =====
-- The nodes that `run_nondet` visits get their sets of states.
use rusty_alto.Base.{
  ℕ, ◌<◌, ◌≡◌, ◌∙◌, sym, ap, ◌↔◌, inl, inr, ⊎_elim, true, false, List, [], ◌∷◌, Memᴰ, mem-cons,
  not-mem-nil, Option, none, some, arith, length, get_or, set, replicate, All, length-set,
  length-replicate, get_or-replicate, get_or-set_self, get_or-set_ne, Bool-cases, Option-cases,
  if◌then◌else◌, ◌==◌, nat_eq, nat_beq_iff,
}
use rusty_alto.Base.Bits.{has_bit, has_bit-set}
use rusty_alto.Base.Order.{Ord}
use rusty_alto.Ids.{Symbol}
use rusty_alto.Term.{Term, node}
use rusty_alto.Traits.{BottomUpTa}
use rusty_alto.Traits.Runs.{Assigns, assign}
use rusty_alto.Run.Det.{Arena}
use rusty_alto.Run.Det.Evaluation.{IsTree, IsOrdered, tree_at}
use rusty_alto.Run.Nondet.{SetVisits, gather_pools, local_states, visit_sets, run_nondet}
use rusty_alto.Run.Nondet.Sets.{Filled, Pools, in_pools, rows, no-Pools, to_row, mem-local_states}

module _ {ℓ} {S : Type ℓ} ⦃o : Ord S⦄ (a : BottomUpTa S) (arena : Arena) where
  -- the set of a node from the pools of its children
  abbrev set_of : Symbol → Option (List (List S)) → List S
  set_of f none = []
  set_of f (some pools) = local_states a arena f pools

  mem-set_of :
      (f : Symbol) (pools : Option (List (List S))) (q : S)
      → Memᴰ q (set_of f pools) ↔ ((cs : List S) × Pools a arena pools cs × Memᴰ q (a.step f cs))
  mem-set_of f none q =
      (λ m. absurd (not-mem-nil q m), λ (cs, h, m). absurd (no-Pools a arena cs h))
  mem-set_of f (some pools) q =
      let found = mem-local_states a arena f pools q in
      (
        λ m. let (cs, row, k) = found.0 m in (cs, in_pools row, k),
        λ (cs, h, k). found.1 (cs, to_row a arena pools cs h, k),
      )

  module _ (seen : List ℕ) (s : SetVisits S) (n : ℕ) (v : Filled a arena seen s)
      (low : n < arena.len) (in_seen : All (λ c. Memᴰ c seen) (arena.children n))
      (unseen : has_bit s.visited n ≡ false) where
    worth :
        (t : Term) (q : S)
        → IsTree arena n t
        → Memᴰ q (set_of (arena.label n) (gather_pools s.states (arena.children n))) ↔ Assigns a t q
    worth (node f ts) q (tree_at row) =
        let found = mem-set_of (arena.label n) (gather_pools s.states (arena.children n)) q in
        let below = λ (cs : List S). rows a arena seen s (arena.children n) ts cs v in_seen row in
        (
          λ m. let (cs, h, k) = found.0 m in assign ((below cs).0 h) k,
          λ run. elim run [ assign {qs = cs} all k ↦ found.1 (cs, (below cs).1 all, k) ],
        )

    next-Filled :
        (qs : List S) (states : List (List S))
        → length states ≡ arena.len
        → ((m : ℕ) → get_or states m [] ≡ (if n == m then qs else get_or s.states m []))
        → (qs ≡ set_of (arena.label n) (gather_pools s.states (arena.children n)))
        → Filled a arena (n ∷ seen) (record { states = states; visited = set s.visited n true })
    next-Filled qs states kept at same_set =
        let set_at = λ (m : ℕ). has_bit-set s.visited n m (rw v.width low) in
        record {
          size = kept;
          width = length-set s.visited n true ∙ v.width;
          marks = λ m. ground (arith, set_at m, v.marks m, mem-cons m n seen);
          fresh = λ m h. elim (Bool-cases (n == m)) [
            | inl here ↦
                absurd (let same : n ≡ m = (nat_beq_iff n m).0 here in ground (arith, set_at m))
            | inr other ↦ at m ∙ rw other (v.fresh m (ground (arith, set_at m, nat_beq_iff n m)))
          ];
          right = λ m t q k tree. elim (Bool-cases (n == m)) [
            | inl here ↦
                let same : n ≡ m = (nat_beq_iff n m).0 here in
                rw (at m, here, same_set) (worth t q (rw same tree))
            | inr other ↦
                let old : Memᴰ m seen =
                  ⊎_elim (λ e. absurd (let hit = (nat_beq_iff n m).1 (sym e) in ground arith))
                    (λ k. k) ((mem-cons m n seen).0 k) in
                rw (at m, other) (v.right m t q old tree)
          ];
        }

    stays :
        gather_pools s.states (arena.children n) ≡ none
        → Filled a arena (n ∷ seen) (record s { visited = set s.visited n true })
    stays e =
        next-Filled [] s.states v.size
          (λ m. elim (Bool-cases (n == m)) [
            | inl here ↦
                let same : n ≡ m = (nat_beq_iff n m).0 here in
                rw here (rw (← same) (v.fresh n unseen))
            | inr other ↦ rw other
          ])
          (ap (λ p. set_of (arena.label n) p) (sym e))

    moves :
        (pools : List (List S))
        → gather_pools s.states (arena.children n) ≡ some pools
        → Filled a arena (n ∷ seen) (record {
          states = set s.states n (local_states a arena (arena.label n) pools);
          visited = set s.visited n true;
        })
    moves pools e =
        let qs = local_states a arena (arena.label n) pools in
        next-Filled qs (set s.states n qs) (length-set s.states n qs ∙ v.size)
          (λ m. elim (Bool-cases (n == m)) [
            | inl here ↦
                let same : n ≡ m = (nat_beq_iff n m).0 here in
                rw here (rw (← same) (get_or-set_self s.states n qs [] (rw v.size low)))
            | inr other ↦ rw other (
                get_or-set_ne s.states n m qs []
                  (λ e. let hit = (nat_beq_iff n m).1 e in absurd (ground arith)))
          ])
          (ap (λ p. set_of (arena.label n) p) (sym e))

  again :
      (seen : List ℕ) (s : SetVisits S) (n : ℕ)
      → Filled a arena seen s
      → Memᴰ n seen
      → Filled a arena (n ∷ seen) s
  again seen s n v m =
      let old = λ (k : ℕ) (h : Memᴰ k (n ∷ seen)).
        ⊎_elim (λ (e : k ≡ n). rw e m) (λ h. h) ((mem-cons k n seen).0 h) in
      record {
        size = v.size;
        width = v.width;
        marks = λ k. (λ h. Memᴰ.tail ((v.marks k).0 h), λ h. (v.marks k).1 (old k h));
        fresh = v.fresh;
        right = λ k t q h tree. v.right k t q (old k h) tree;
      }

  -- Visiting a list of nodes: each of them is visited then, and those visited before stay so.
  AllFilled : List ℕ → List ℕ → SetVisits S → Type ℓ
  AllFilled seen ns s =
      (all : List ℕ) × Filled a arena all s
      × ((n : ℕ) → Memᴰ n ns → Memᴰ n all)
      × ((n : ℕ) → Memᴰ n seen → Memᴰ n all)

  one_more :
      (seen : List ℕ) (n : ℕ) (ns : List ℕ) (s : SetVisits S)
      → AllFilled (n ∷ seen) ns s
      → AllFilled seen (n ∷ ns) s
  unfolding AllFilled
  one_more seen n ns s (all, v, first, later) = (
    all,
    v,
    λ m h. ⊎_elim (λ e. later m (Memᴰ.head e)) (first m) ((mem-cons m n ns).0 h),
    λ m h. later m (Memᴰ.tail h),
  )

  visit_sets-filled :
      (seen : List ℕ) (s : SetVisits S) (ns : List ℕ)
      → Filled a arena seen s
      → IsOrdered arena seen ns
      → AllFilled seen ns (visit_sets a arena s ns)
  unfolding visit_sets IsOrdered AllFilled
  visit_sets-filled seen s [] v ordered = (seen, v, λ n m. absurd (not-mem-nil n m), λ n m. m)
  visit_sets-filled seen s (n ∷ ns) v (low, in_seen, later) =
      elim (Bool-cases (has_bit s.visited n)) [
        | inl old ↦ rw old (
            one_more seen n ns _
              (visit_sets-filled (n ∷ seen) s ns (again seen s n v ((v.marks n).0 old)) later))
        | inr new ↦ elim (Option-cases (gather_pools s.states (arena.children n))) [
          | inl e ↦
              rw (new, e)
                (one_more seen n ns _
                  (visit_sets-filled (n ∷ seen) _ ns (stays seen s n v low in_seen new e) later))
          | inr (pools, e) ↦
              rw (new, e)
                (one_more seen n ns _ (
                  visit_sets-filled (n ∷ seen) _ ns (moves seen s n v low in_seen new pools e)
                    later))
        ]
      ]

  -- If the arena lists the nodes of a tree in its length with children first, `run_nondet` gives each
  -- listed node that is the root of a tree exactly the states that this tree may receive, and reports
  -- those of the root.
  pub run_nondet_lem :
      (root : ℕ)
      → IsOrdered arena [] (arena.post_order root)
      → Memᴰ root (arena.post_order root)
      → ((n : ℕ) (t : Term) (q : S)
          → Memᴰ n (arena.post_order root)
          → IsTree arena n t
          → Memᴰ q (get_or (run_nondet a arena root).states n []) ↔ Assigns a t q)
        × ((t : Term) (q : S)
            → IsTree arena root t
            → Memᴰ q (run_nondet a arena root).root_states ↔ Assigns a t q)
  unfolding run_nondet AllFilled
  run_nondet_lem root ordered listed =
      let blank : Filled a arena []
          (record { states = replicate arena.len []; visited = replicate arena.len false }) =
        record {
          size = length-replicate arena.len [];
          width = length-replicate arena.len false;
          marks = λ n. (
            λ h. absurd (let blank = get_or-replicate arena.len n false in ground arith),
            λ m. absurd (not-mem-nil n m),
          );
          fresh = λ n h. get_or-replicate arena.len n [];
          right = λ n t q m tree. absurd (not-mem-nil n m);
        } in
      let (all, v, first, _) = visit_sets-filled [] _ (arena.post_order root) blank ordered in
      (
        λ n t q m tree. v.right n t q (first n m) tree,
        λ t q tree. v.right root t q (first root listed) tree,
      )
