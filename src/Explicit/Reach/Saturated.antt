-- ===== src/Explicit/Reach/Saturated.antt =====
-- The outer loop ends within its fuel, with all marked states popped.
use rusty_alto.Base.{
  ℕ, zero, suc, ◌+◌, ◌≤◌, ◌<◌, ◌≡◌, ◌≢◌, refl, ◌∙◌, ◌↔◌, ◌⊎◌, inl, inr, Bool, false, List, [], ◌∷◌,
  Memᴰ, Distinct, mem-cons, some, arith, nat_eq, length, List-cases, All, nat_beq_iff, subst,
  All-imp,
}
use rusty_alto.Base.Bits.{lt-length_of_has_bit}
use rusty_alto.Util.DenseIndex.{DenseIndex, values}
use rusty_alto.Util.DenseIndex.Groups.{group}
use rusty_alto.Ids.{StateId}
use rusty_alto.Explicit.Types.{StoredRule}
use rusty_alto.Explicit.Builder.Allocated.{IsRuleBelow}
use rusty_alto.Explicit.Reach.{Saturation, mention_pairs, discharge_all, saturate}
use rusty_alto.Explicit.Reach.Invariant.{occurrences-nil, undone-also, also, Frontier, Counted}
use rusty_alto.Explicit.Reach.Steps.{work, discharge_all-Step}
use rusty_alto.Explicit.Reach.Mentions.{mentions_of_rule}

module _ {ℓ} {W : Type ℓ} (rules : List (StoredRule W)) (n : ℕ)
    (low : All (IsRuleBelow n) rules) where
  -- The last state: all marked states are popped.
  pub record Saturated (t : Saturation) : Type ℓ where
    pub done : StateId → Bool
    pub frontier : Frontier rules n done t
    pub counted : Counted rules done [] t
    pub finished : t.worklist ≡ []

  results_low : All (λ r. r.result < n) rules
  results_low = All-imp (λ r h. h.0) rules low

  -- taking a state from the worklist
  module _ (done : StateId → Bool) (s : Saturation) (q : StateId) (rest : List StateId)
      (f : Frontier rules n done s) (e : s.worklist ≡ q ∷ rest) where
    abbrev popped : Saturation
    popped = record s { worklist = rest }

    queued : (x : StateId) → Memᴰ x s.worklist ↔ ((x ≡ q) ⊎ Memᴰ x rest)
    queued x = rw e (mem-cons x q rest)

    no_repeat : Distinct (q ∷ rest)
    no_repeat = subst (λ l. Distinct l) e f.distinct

    new : done q ≡ false
    new = f.waiting q ((queued q).1 (inl refl))

    pop-Frontier : Frontier rules n (also done q) popped
    pop-Frontier = record {
      bits = f.bits;
      marks = λ x. ground (arith, f.marks x, queued x, nat_beq_iff q x);
      waiting = λ x m.
          let other : x ≢ q = λ h. no_repeat.0 (rw (← h) m) in
          ground (arith, f.waiting x, queued x, nat_beq_iff q x);
      distinct = no_repeat.1;
      sound = f.sound;
    }

    pop-Counted :
        Counted rules done [] s
        → Counted rules (also done q) (group q (mention_pairs 0 rules)) popped
    pop-Counted c = record {
      slots = c.slots;
      counts = λ i r g.
          let here : 0 + i ≡ i = omega arith in
          let found = rw here at (mentions_of_rule q 0 i rules r g) in
          omega
            (arith, c.counts i r g, occurrences-nil i, undone-also done q r.children new, found);
      closed = c.closed;
    }

  saturate-pop :
      (mentions : DenseIndex ℕ) (fuel : ℕ) (s : Saturation) (q : StateId) (rest : List StateId)
      (idxs : List ℕ)
      → s.worklist ≡ q ∷ rest
      → values mentions q ≡ some idxs
      → saturate (suc fuel) rules mentions s
        ≡ saturate fuel rules mentions (discharge_all rules (record s { worklist = rest }) idxs)
  unfolding saturate
  saturate-pop mentions fuel s q rest idxs e v = ground arith

  -- With fuel for all states that are waiting or not marked, the loop ends.
  pub saturate_lem :
      (mentions : DenseIndex ℕ)
      → ((q : ℕ) → q < n → values mentions q ≡ some (group q (mention_pairs 0 rules)))
      → (fuel : ℕ) (done : StateId → Bool) (s : Saturation) → Frontier rules n done s
      → Counted rules done [] s
      → work s ≤ fuel
      → (t : Saturation) × (saturate fuel rules mentions s ≡ some t) × Saturated t
  unfolding saturate
  saturate_lem mentions find zero done s f c h = elim (List-cases s.worklist) [
    | inl ends ↦ (s, rw ends, record { done = done; frontier = f; counted = c; finished = ends })
    | inr (q, rest, e) ↦
        absurd (let one : length s.worklist ≡ suc (length rest) = rw e in omega arith)
  ]
  saturate_lem mentions find (suc fuel) done s f c h = elim (List-cases s.worklist) [
    | inl ends ↦ (s, rw ends, record { done = done; frontier = f; counted = c; finished = ends })
    | inr (q, rest, e) ↦
        let below : q < n = rw (← f.bits) (
          lt-length_of_has_bit s.reachable q
            ((f.marks q).1 (inr ((queued done s q rest f e q).1 (inl refl))))) in
        let next =
          discharge_all-Step rules n (also done q) results_low (popped done s q rest f e)
            (group q (mention_pairs 0 rules)) (pop-Frontier done s q rest f e)
            (pop-Counted done s q rest f e c) in
        let one : length s.worklist ≡ suc (length rest) = rw e in
        let (t, runs, last) =
          saturate_lem mentions find fuel (also done q) _ next.frontier next.counted
            (omega (arith, next.work_kept)) in
        (t, saturate-pop mentions fuel s q rest _ e (find q below) ∙ runs, last)
  ]
