-- ===== src/Explicit/Reach/Invariant.antt =====
-- The loop invariant of `compute_reachable_states`. `done` are the states popped so far, `rest` the
-- rule numbers that are still to be discharged for the last of them.
use rusty_alto.Base.{
  ℕ, suc, ◌+◌, ◌<◌, ◌≡◌, refl, ◌∙◌, ap, ◌↔◌, ◌⊎◌, inl, inr, ⊎_elim, Bool, true, false, List, [],
  ◌∷◌, ◌++◌, Memᴰ, Distinct, mem-cons, some, arith, ◌==◌, nat_eq, length, get_elem?, get_or,
  length-set, Bool-cases, if◌then◌else◌, nat_beq_iff,
}
use rusty_alto.Base.Bits.{has_bit, has_bit-set, zeros, zeros-set}
use rusty_alto.Ids.{StateId}
use rusty_alto.Explicit.Types.{StoredRule}
use rusty_alto.Explicit.Reach.{Saturation, mark_reachable}
use rusty_alto.Explicit.Reach.Productive.{Productive, AllProductive, none_left, one_more}

-- How often a number occurs.
pub occurrences : ℕ → List ℕ → ℕ
occurrences i [] = 0
occurrences i (j ∷ js) = if j == i then suc (occurrences i js) else occurrences i js

pub occurrences-cons :
    (i j : ℕ) (js : List ℕ)
    → occurrences i (j ∷ js) ≡ (if j == i then suc (occurrences i js) else occurrences i js)
unfolding occurrences
occurrences-cons i j js = refl

pub occurrences-nil : (i : ℕ) → occurrences i [] ≡ 0
unfolding occurrences
occurrences-nil i = refl

pub occurrences-append :
    (i : ℕ) (xs ys : List ℕ) → occurrences i (xs ++ ys) ≡ occurrences i xs + occurrences i ys
unfolding occurrences
occurrences-append i [] ys = omega arith
occurrences-append i (x ∷ xs) ys = ground (arith, occurrences-append i xs ys)

-- How many children are not popped.
pub undone : (StateId → Bool) → List StateId → ℕ
undone done [] = 0
undone done (c ∷ cs) = if done c then undone done cs else suc (undone done cs)

pub undone-nothing : (cs : List StateId) → undone (λ q. false) cs ≡ length cs
unfolding undone
undone-nothing [] = refl
undone-nothing (c ∷ cs) = ap suc (undone-nothing cs)

pub undone-cons :
    (done : StateId → Bool) (c : StateId) (cs : List StateId)
    → undone done (c ∷ cs) ≡ (if done c then undone done cs else suc (undone done cs))
unfolding undone
undone-cons done c cs = refl

pub undone-nil : (done : StateId → Bool) → undone done [] ≡ 0
unfolding undone
undone-nil done = refl

-- `q` is popped as well.
abbrev pub also : (StateId → Bool) → StateId → StateId → Bool
also done q x = if q == x then true else done x

-- Popping a state takes each of its occurrences from the count.
pub undone-also :
    (done : StateId → Bool) (q : StateId) (cs : List StateId)
    → done q ≡ false
    → undone done cs ≡ undone (also done q) cs + occurrences q cs
unfolding undone occurrences
undone-also done q [] h = omega arith
undone-also done q (c ∷ cs) h =
    ground (arith, undone-also done q cs h, nat_beq_iff c q, nat_beq_iff q c)

module _ {ℓ} {W : Type ℓ} (rules : List (StoredRule W)) where
  -- The marked states are the popped and the waiting ones, and some tree can receive each.
  pub record Frontier (n : ℕ) (done : StateId → Bool) (s : Saturation) : Type ℓ where
    pub bits : length s.reachable ≡ n
    pub marks :
        (q : StateId) → (has_bit s.reachable q ≡ true) ↔ ((done q ≡ true) ⊎ Memᴰ q s.worklist)
    pub waiting : (q : StateId) → Memᴰ q s.worklist → done q ≡ false
    pub distinct : Distinct s.worklist
    pub sound : (q : StateId) → has_bit s.reachable q ≡ true → Productive rules q

  -- `remaining` counts for each rule the children not popped and the mentions not discharged, and a
  -- rule with none left has its result marked.
  pub record Counted (done : StateId → Bool) (rest : List ℕ) (s : Saturation) : Type ℓ where
    pub slots : length s.remaining ≡ length rules
    pub counts :
        (i : ℕ) (r : StoredRule W)
        → get_elem? rules i ≡ some r
        → get_or s.remaining i 0 ≡ undone done r.children + occurrences i rest
    pub closed :
        (i : ℕ) (r : StoredRule W)
        → get_elem? rules i ≡ some r
        → get_or s.remaining i 0 ≡ 0
        → has_bit s.reachable r.result ≡ true

  -- Marking a state of the automaton that some tree can receive.
  pub mark-Frontier :
      (n : ℕ) (done : StateId → Bool) (s : Saturation) (q : StateId)
      → Frontier n done s
      → q < n
      → Productive rules q
      → Frontier n done (mark_reachable q s)
  unfolding mark_reachable
  mark-Frontier n done s q f low p = elim (Bool-cases (has_bit s.reachable q)) [
    | inl old ↦ rw old f
    | inr new ↦
        let set_at = λ (x : StateId). has_bit-set s.reachable q x (rw f.bits low) in
        rw new (record {
          bits = length-set s.reachable q true ∙ f.bits;
          marks = λ x. ground (arith, set_at x, f.marks x, mem-cons x q s.worklist);
          waiting = λ x m. ground (arith, f.waiting x, f.marks x, mem-cons x q s.worklist);
          distinct = (λ m. ground (arith, f.marks q), f.distinct);
          sound = λ x h. ⊎_elim (λ e. rw e p) (f.sound x) ((set_at x).0 h);
        })
  ]

  -- After a mark the state is marked, all marks stay, the counts stay, and the work does not grow.
  pub mark_lem :
      (s : Saturation) (q : StateId)
      → q < length s.reachable
      → (has_bit (mark_reachable q s).reachable q ≡ true)
        × ((x : StateId)
            → has_bit s.reachable x ≡ true
            → has_bit (mark_reachable q s).reachable x ≡ true)
        × ((mark_reachable q s).remaining ≡ s.remaining)
        × (zeros (mark_reachable q s).reachable + length (mark_reachable q s).worklist
            ≡ zeros s.reachable + length s.worklist)
  unfolding mark_reachable
  mark_lem s q low = elim (Bool-cases (has_bit s.reachable q)) [
    | inl old ↦ rw old (old, λ x h. h, refl, refl)
    | inr new ↦ rw new (
      (has_bit-set s.reachable q q low).1 (inl refl),
      λ x h. (has_bit-set s.reachable q x low).1 (inr h),
      refl,
      omega (arith, zeros-set s.reachable q low new),
    )
  ]

  -- If all children are popped, some tree can receive each.
  pub undone-AllProductive :
      (done : StateId → Bool) (cs : List StateId)
      → ((q : StateId) → done q ≡ true → Productive rules q)
      → undone done cs ≡ 0
      → AllProductive rules cs
  unfolding undone
  undone-AllProductive done [] h e = none_left
  undone-AllProductive done (c ∷ cs) h e = elim (Bool-cases (done c)) [
    | inl popped ↦ one_more (h c popped) (undone-AllProductive done cs h (rw popped at e))
    | inr other ↦ absurd (ground arith)
  ]
