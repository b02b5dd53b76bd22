-- ===== src/Run/Det/Evaluation.antt =====
-- `run_det` gives each node the state to which its tree evaluates.
use rusty_alto.Base.{
  ℕ, ◌<◌, ◌≡◌, refl, ◌∙◌, sym, ap, ◌↔◌, inl, inr, ⊎_elim, true, false, List, [], ◌∷◌, Memᴰ,
  mem-cons, not-mem-nil, Option, none, some, ◌>>=◌, arith, length, get_or, set, replicate, All,
  length-set, length-replicate, get_or-replicate, get_or-set_self, get_or-set_ne, Bool-cases,
  Option-cases, if◌then◌else◌, ◌==◌, nat_eq, nat_beq_iff,
}
use mathlib.Core.Option.{get_or as option_or}
use rusty_alto.Base.Bits.{has_bit, has_bit-set}
use rusty_alto.Ids.{StateId, Symbol, stuck, is_stuck}
use rusty_alto.Term.{Term, Terms, node, nil, cons}
use rusty_alto.Traits.{DetBottomUpTa}
use rusty_alto.Run.Det.{Arena, Visits, gather, visit_all, run_det}

module _ (arena : Arena) where
  mutual
    -- The node of the arena is the root of the tree.
    pub data IsTree : ℕ → Term → Type 0 where
      tree_at :
          {n : ℕ} {ts : Terms} → IsRow (arena.children n) ts → IsTree n (node (arena.label n) ts)

    pub data IsRow : List ℕ → Terms → Type 0 where
      row_nil : IsRow [] nil
      row_cons :
          {n : ℕ} {ns : List ℕ} {t : Term} {ts : Terms}
          → IsTree n t
          → IsRow ns ts
          → IsRow (n ∷ ns) (cons t ts)

  -- The nodes are in the arena, each behind its children, after the nodes that were seen.
  unfoldable pub IsOrdered : List ℕ → List ℕ → Type 0
  IsOrdered seen [] = Unit
  IsOrdered seen (n ∷ ns) =
      (n < arena.len) × All (λ c. Memᴰ c seen) (arena.children n) × IsOrdered (n ∷ seen) ns

module _ (a : DetBottomUpTa StateId) where
  -- the state of a node from those of its children
  abbrev pub state_of : Symbol → Option (List StateId) → StateId
  state_of f none = stuck
  state_of f (some qs) = option_or (a.step_det f qs) stuck

  unfoldable mutual
    -- The state to which a tree evaluates, `STUCK` if it evaluates to none.
    pub evaluate : Term → StateId
    evaluate (node f ts) = state_of f (evaluate_all ts)

    pub evaluate_all : Terms → Option (List StateId)
    evaluate_all nil = some []
    evaluate_all (cons t ts) =
        let rest = evaluate_all ts in
        if is_stuck (evaluate t) then none else do qs ← rest; some (evaluate t ∷ qs)

  module _ (arena : Arena) where
    record Visited (seen : List ℕ) (s : Visits) : Type 0 where
      pub size : length s.states ≡ arena.len
      pub width : length s.visited ≡ arena.len
      pub marks : (n : ℕ) → (has_bit s.visited n ≡ true) ↔ Memᴰ n seen
      pub fresh : (n : ℕ) → has_bit s.visited n ≡ false → get_or s.states n stuck ≡ stuck
      pub right :
          (n : ℕ) (t : Term) → Memᴰ n seen → IsTree arena n t → get_or s.states n stuck ≡ evaluate t

    gather_lem :
        (seen : List ℕ) (s : Visits) (ns : List ℕ) (ts : Terms)
        → Visited seen s
        → All (λ c. Memᴰ c seen) ns
        → IsRow arena ns ts
        → gather s.states ns ≡ evaluate_all ts
    unfolding gather evaluate_all
    gather_lem seen s [] nil v in_seen row_nil = refl
    gather_lem seen s (n ∷ ns) (cons t ts) v in_seen (row_cons one row) =
        let here = v.right n t in_seen.0 one in
        let rest = gather_lem seen s ns ts v in_seen.1 row in rw (here, rest)
    gather_lem seen s (n ∷ ns) nil v in_seen row = elim row [ ]
    gather_lem seen s [] (cons t ts) v in_seen row = elim row [ ]

    -- the state after a new node: its state is set, or stays `STUCK`
    module _ (seen : List ℕ) (s : Visits) (n : ℕ) (v : Visited seen s) (low : n < arena.len)
        (in_seen : All (λ c. Memᴰ c seen) (arena.children n))
        (unseen : has_bit s.visited n ≡ false) where
      value :
          (t : Term)
          → IsTree arena n t
          → state_of (arena.label n) (gather s.states (arena.children n)) ≡ evaluate t
      unfolding evaluate
      value (node f ts) (tree_at row) =
          ap (λ o. state_of (arena.label n) o)
            (gather_lem seen s (arena.children n) _ v in_seen row)

      next-Visited :
          (q : StateId) (states : List StateId)
          → length states ≡ arena.len
          → ((m : ℕ) → get_or states m stuck ≡ (if n == m then q else get_or s.states m stuck))
          → ((t : Term) → IsTree arena n t → q ≡ evaluate t)
          → Visited (n ∷ seen) (record { states = states; visited = set s.visited n true })
      next-Visited q states kept at worth =
          let set_at = λ (m : ℕ). has_bit-set s.visited n m (rw v.width low) in
          record {
            size = kept;
            width = length-set s.visited n true ∙ v.width;
            marks = λ m. ground (arith, set_at m, v.marks m, mem-cons m n seen);
            fresh = λ m h. ground (arith, at m, v.fresh m, set_at m);
            right = λ m t k tree. elim (Bool-cases (n == m)) [
              | inl here ↦
                  let same : n ≡ m = (nat_beq_iff n m).0 here in
                  at m ∙ rw here (worth t (rw same tree))
              | inr other ↦
                  let old : Memᴰ m seen =
                    ⊎_elim (λ e. absurd (let hit = (nat_beq_iff n m).1 (sym e) in ground arith))
                      (λ k. k) ((mem-cons m n seen).0 k) in
                  at m ∙ rw other (v.right m t old tree)
            ];
          }

      -- a node with a stuck child
      stays :
          gather s.states (arena.children n) ≡ none
          → Visited (n ∷ seen) (record s { visited = set s.visited n true })
      stays e =
          next-Visited stuck s.states v.size
            (λ m. elim (Bool-cases (n == m)) [
              | inl here ↦
                  let same : n ≡ m = (nat_beq_iff n m).0 here in
                  rw here (rw (← same) (v.fresh n unseen))
              | inr other ↦ rw other
            ])
            (λ t tree. ap (λ o. state_of (arena.label n) o) (sym e) ∙ value t tree)

      -- a node without
      moves :
          (buf : List StateId)
          → gather s.states (arena.children n) ≡ some buf
          → Visited (n ∷ seen) (record {
            states = set s.states n (option_or (a.step_det (arena.label n) buf) stuck);
            visited = set s.visited n true;
          })
      moves buf e =
          let q = option_or (a.step_det (arena.label n) buf) stuck in
          next-Visited q (set s.states n q) (length-set s.states n q ∙ v.size)
            (λ m. ground (
              arith,
              get_or-set_self s.states n q stuck (rw v.size low),
              get_or-set_ne s.states n m q stuck,
            ))
            (λ t tree. ap (λ o. state_of (arena.label n) o) (sym e) ∙ value t tree)

    again :
        (seen : List ℕ) (s : Visits) (n : ℕ) → Visited seen s → Memᴰ n seen → Visited (n ∷ seen) s
    again seen s n v m =
        let old = λ (k : ℕ) (h : Memᴰ k (n ∷ seen)).
          ⊎_elim (λ (e : k ≡ n). rw e m) (λ h. h) ((mem-cons k n seen).0 h) in
        record {
          size = v.size;
          width = v.width;
          marks = λ k. (λ h. Memᴰ.tail ((v.marks k).0 h), λ h. (v.marks k).1 (old k h));
          fresh = v.fresh;
          right = λ k t h tree. v.right k t (old k h) tree;
        }

    -- Visiting a list of nodes: each of them is visited then, and those visited before stay so.
    AllVisited : List ℕ → List ℕ → Visits → Type 0
    AllVisited seen ns s =
        (all : List ℕ) × Visited all s
        × ((n : ℕ) → Memᴰ n ns → Memᴰ n all)
        × ((n : ℕ) → Memᴰ n seen → Memᴰ n all)

    one_more :
        (seen : List ℕ) (n : ℕ) (ns : List ℕ) (s : Visits)
        → AllVisited (n ∷ seen) ns s
        → AllVisited seen (n ∷ ns) s
    unfolding AllVisited
    one_more seen n ns s (all, v, first, later) = (
      all,
      v,
      λ m h. ⊎_elim (λ e. later m (Memᴰ.head e)) (first m) ((mem-cons m n ns).0 h),
      λ m h. later m (Memᴰ.tail h),
    )

    visit_all-visited :
        (seen : List ℕ) (s : Visits) (ns : List ℕ)
        → Visited seen s
        → IsOrdered arena seen ns
        → AllVisited seen ns (visit_all a arena s ns)
    unfolding visit_all IsOrdered AllVisited
    visit_all-visited seen s [] v ordered = (seen, v, λ n m. absurd (not-mem-nil n m), λ n m. m)
    visit_all-visited seen s (n ∷ ns) v (low, in_seen, later) =
        elim (Bool-cases (has_bit s.visited n)) [
          | inl old ↦ rw old (
              one_more seen n ns _
                (visit_all-visited (n ∷ seen) s ns (again seen s n v ((v.marks n).0 old)) later))
          | inr new ↦ elim (Option-cases (gather s.states (arena.children n))) [
            | inl e ↦
                rw (new, e)
                  (one_more seen n ns _
                    (visit_all-visited (n ∷ seen) _ ns (stays seen s n v low in_seen new e) later))
            | inr (buf, e) ↦
                rw (new, e)
                  (one_more seen n ns _ (
                    visit_all-visited (n ∷ seen) _ ns (moves seen s n v low in_seen new buf e)
                      later))
          ]
        ]

    -- If the arena lists the nodes of a tree in its length with children first, `run_det` gives each
    -- listed node that is the root of a tree the state to which the tree evaluates, `STUCK` if it
    -- evaluates to none, and reports the state of the root.
    pub run_det_lem :
        (root : ℕ)
        → IsOrdered arena [] (arena.post_order root)
        → Memᴰ root (arena.post_order root)
        → ((n : ℕ) (t : Term)
            → Memᴰ n (arena.post_order root)
            → IsTree arena n t
            → get_or (run_det a arena root).states n stuck ≡ evaluate t)
          × ((t : Term) → IsTree arena root t → (run_det a arena root).root_state ≡ evaluate t)
    unfolding run_det AllVisited
    run_det_lem root ordered listed =
        let blank : Visited []
            (record { states = replicate arena.len stuck; visited = replicate arena.len false }) =
          record {
            size = length-replicate arena.len stuck;
            width = length-replicate arena.len false;
            marks = λ n. (
              λ h. absurd (let blank = get_or-replicate arena.len n false in ground arith),
              λ m. absurd (not-mem-nil n m),
            );
            fresh = λ n h. get_or-replicate arena.len n stuck;
            right = λ n t m tree. absurd (not-mem-nil n m);
          } in
        let (all, v, first, _) = visit_all-visited [] _ (arena.post_order root) blank ordered in
        (
          λ n t m tree. v.right n t (first n m) tree,
          λ t tree. v.right root t (first root listed) tree,
        )
