-- ===== src/Explicit/Reach/Steps.antt =====
-- Discharging a mention keeps the loop invariant.
use rusty_alto.Base.{
  ℕ, zero, suc, ◌+◌, ◌-◌, ◌≤◌, ◌<◌, ◌≡◌, ◌≢◌, refl, ◌∙◌, ap, inl, inr, Bool, true, List, [], ◌∷◌,
  some, arith, ◌==◌, nat_eq, length, get_elem?, get_or, set, length-set, Bool-cases, All, all-mem,
  ltb, if◌then◌else◌, get_or-set_self, get_or-set_ne, mem_of_get_elem?, get_elem?_of_lt,
}
use rusty_alto.Base.Bits.{zeros}
use rusty_alto.Ids.{StateId}
use rusty_alto.Explicit.Types.{StoredRule}
use rusty_alto.Explicit.Reach.{Saturation, mark_reachable, discharge, discharge_all}
use rusty_alto.Explicit.Reach.Productive.{by_rule}
use rusty_alto.Explicit.Reach.Invariant.{
  occurrences, occurrences-cons, undone, Frontier, Counted, mark-Frontier, mark_lem,
  undone-AllProductive,
}

get_or-beyond : (xs : List ℕ) (i : ℕ) → length xs ≤ i → get_or xs i 0 ≡ 0
get_or-beyond [] i h = refl
get_or-beyond (x ∷ xs) zero h = absurd (omega arith)
get_or-beyond (x ∷ xs) (suc i) h = get_or-beyond xs i (omega arith)

abbrev pub work : Saturation → ℕ
work s = zeros s.reachable + length s.worklist

module _ {ℓ} {W : Type ℓ} (rules : List (StoredRule W)) (n : ℕ) (done : StateId → Bool) where
  pub record Step (rest : List ℕ) (s t : Saturation) : Type ℓ where
    pub frontier : Frontier rules n done t
    pub counted : Counted rules done rest t
    pub work_kept : work t ≡ work s

  module _ (s : Saturation) (i : ℕ) (rest : List ℕ) (f : Frontier rules n done s)
      (c : Counted rules done (i ∷ rest) s) where
    abbrev left : ℕ
    left = get_or s.remaining i 0

    abbrev spent : Saturation
    spent = record s { remaining = set s.remaining i (left - 1) }

    spent-Frontier : Frontier rules n done spent
    spent-Frontier = record {
      bits = f.bits;
      marks = f.marks;
      waiting = f.waiting;
      distinct = f.distinct;
      sound = f.sound;
    }

    slot_lt : left ≢ 0 → i < length s.remaining
    slot_lt h = elim (Bool-cases (ltb i (length s.remaining))) [
      | inl low ↦ ground arith
      | inr high ↦ absurd (h (get_or-beyond s.remaining i (ground arith)))
    ]

    spent_at :
        left ≢ 0
        → (j : ℕ)
        → get_or spent.remaining j 0 ≡ (if i == j then left - 1 else get_or s.remaining j 0)
    spent_at h j = ground (
      arith,
      get_or-set_self s.remaining i (left - 1) 0 (slot_lt h),
      get_or-set_ne s.remaining i j (left - 1) 0,
    )

    spent_self : left ≢ 0 → get_or spent.remaining i 0 ≡ left - 1
    spent_self h = get_or-set_self s.remaining i (left - 1) 0 (slot_lt h)

    spent_counts :
        left ≢ 0
        → (j : ℕ) (r : StoredRule W) → get_elem? rules j ≡ some r
        → get_or spent.remaining j 0 ≡ undone done r.children + occurrences j rest
    spent_counts h j r e = ground (arith, spent_at h j, c.counts j r e, occurrences-cons j i rest)

    -- a mention of a rule that has none left
    idle : left ≡ 0 → Step rest s s
    idle h = record {
      frontier = f;
      counted = record {
        slots = c.slots;
        counts = λ j r e. ground (arith, c.counts j r e, occurrences-cons j i rest);
        closed = c.closed;
      };
      work_kept = refl;
    }

    -- a rule that has mentions left
    partial : left ≢ 0 → left - 1 ≢ 0 → Step rest s spent
    partial h more = record {
      frontier = spent-Frontier;
      counted = record {
        slots = length-set s.remaining i (left - 1) ∙ c.slots;
        counts = spent_counts h;
        closed = λ j r e z. ground (arith, spent_at h j, c.closed j r e);
      };
      work_kept = refl;
    }

    -- a rule whose last mention this is
    complete :
        (r : StoredRule W)
        → get_elem? rules i ≡ some r
        → r.result < n
        → left ≢ 0
        → left - 1 ≡ 0
        → Step rest s (mark_reachable r.result spent)
    complete r e low h last =
        let popped = λ (q : StateId) (d : done q ≡ true). f.sound q ((f.marks q).1 (inl d)) in
        let free : undone done r.children ≡ 0 = omega (arith, spent_counts h i r e, spent_self h) in
        let productive =
          by_rule r (mem_of_get_elem? rules i r e) refl
            (undone-AllProductive rules done r.children popped free) in
        let (marked, kept, same, fair) = mark_lem rules spent r.result (rw f.bits low) in
        record {
          frontier = mark-Frontier rules n done spent r.result spent-Frontier low productive;
          counted = record {
            slots = ap length same ∙ length-set s.remaining i (left - 1) ∙ c.slots;
            counts = λ j p g. rw same (spent_counts h j p g);
            closed = λ j p g z. elim (Bool-cases (i == j)) [
              | inl here ↦
                  let at : i ≡ j = ground arith in
                  let also_here : get_elem? rules i ≡ some p = rw at g in
                  let one : r ≡ p = cc in rw (← one) marked
              | inr other ↦
                  kept p.result
                    (c.closed j p g (ground (arith, spent_at h j, ap (λ m. get_or m j 0) same)))
            ];
          };
          work_kept = fair;
        }

  -- Discharging one mention keeps the invariant, for the mentions that follow.
  pub discharge-Step :
      All (λ r. r.result < n) rules
      → (s : Saturation) (i : ℕ) (rest : List ℕ) → Frontier rules n done s
      → Counted rules done (i ∷ rest) s
      → Step rest s (discharge rules s i)
  unfolding discharge
  discharge-Step low s i rest f c = elim (Bool-cases (get_or s.remaining i 0 == 0)) [
    | inl zero_left ↦ rw zero_left (idle s i rest f c (ground arith))
    | inr some_left ↦
        let pos : get_or s.remaining i 0 ≢ 0 = λ e. ground arith in
        elim (Bool-cases (get_or s.remaining i 0 - 1 == 0)) [
          | inl last ↦
              let (r, e) =
                get_elem?_of_lt rules i (omega (arith, slot_lt s i rest f c pos, c.slots)) in
              rw (some_left, last, e)
                (complete s i rest f c r e
                  (all-mem (λ p. p.result < n) rules low (mem_of_get_elem? rules i r e)) pos
                  (ground arith))
          | inr more ↦ rw (some_left, more) (partial s i rest f c pos (λ e. ground arith))
        ]
  ]

  -- Discharging all mentions of the state popped last.
  pub discharge_all-Step :
      All (λ r. r.result < n) rules
      → (s : Saturation) (idxs : List ℕ) → Frontier rules n done s
      → Counted rules done idxs s
      → Step [] s (discharge_all rules s idxs)
  unfolding discharge_all
  discharge_all-Step low s [] f c = record { frontier = f; counted = c; work_kept = refl }
  discharge_all-Step low s (i ∷ rest) f c =
      let one = discharge-Step low s i rest f c in
      let more = discharge_all-Step low (discharge rules s i) rest one.frontier one.counted in
      record {
        frontier = more.frontier;
        counted = more.counted;
        work_kept = more.work_kept ∙ one.work_kept;
      }
