-- ===== src/Explicit/Reach/Start.antt =====
-- The first loop marks the results of the nullary rules.
use rusty_alto.Base.{
  ℕ, zero, suc, ◌≤◌, ◌≡◌, refl, ◌∙◌, sym, ap, inl, inr, ⊎_elim, Bool, true, false, List, [], ◌∷◌,
  map, Memᴰ, mem-cons, not-mem-nil, some, arith, length, get_elem?, get_or, length-map, List-cases,
  All, replicate, length-replicate, get_or-replicate, mem_of_get_elem?,
}
use rusty_alto.Base.Bits.{has_bit, zeros-le-length}
use rusty_alto.Ids.{StateId}
use rusty_alto.Explicit.Types.{StoredRule, Explicit}
use rusty_alto.Explicit.Builder.Allocated.{IsRuleBelow}
use rusty_alto.Explicit.Reach.{Saturation, mark_reachable, mark_nullary, start}
use rusty_alto.Explicit.Reach.Productive.{Productive, by_rule, none_left}
use rusty_alto.Explicit.Reach.Invariant.{
  occurrences-nil, undone-nothing, Frontier, Counted, mark-Frontier, mark_lem,
}
use rusty_alto.Explicit.Reach.Steps.{work}

abbrev nothing : StateId → Bool
nothing q = false

children_at {ℓ} :
    {W : Type ℓ} (rules : List (StoredRule W)) (i : ℕ) (r : StoredRule W)
    → get_elem? rules i ≡ some r
    → get_or (map (λ p. length p.children) rules) i 0 ≡ length r.children
children_at [] i r e = cc
children_at (p ∷ rules) zero r e = let same : p ≡ r = cc in rw same
children_at (p ∷ rules) (suc i) r e = children_at rules i r e

mark_nullary-nil {ℓ} : (W : Type ℓ) (s : Saturation) → mark_nullary {W = W} [] s ≡ s
unfolding mark_nullary
mark_nullary-nil W s = refl

module _ {ℓ} {W : Type ℓ} where
  mark_nullary-leaf :
      (r : StoredRule W) (rs : List (StoredRule W)) (s : Saturation)
      → r.children ≡ []
      → mark_nullary (r ∷ rs) s ≡ mark_nullary rs (mark_reachable r.result s)
  unfolding mark_nullary
  mark_nullary-leaf r rs s e = ground arith

  mark_nullary-inner :
      (r : StoredRule W) (rs : List (StoredRule W)) (s : Saturation) (c : StateId)
      (cs : List StateId)
      → r.children ≡ c ∷ cs
      → mark_nullary (r ∷ rs) s ≡ mark_nullary rs s
  unfolding mark_nullary
  mark_nullary-inner r rs s c cs e = ground arith

module _ {ℓ} {W : Type ℓ} (rules : List (StoredRule W)) (n : ℕ) where
  record Marked (rs : List (StoredRule W)) (s t : Saturation) : Type ℓ where
    pub frontier : Frontier rules n nothing t
    pub work_kept : work t ≡ work s
    pub same : t.remaining ≡ s.remaining
    pub kept : (q : StateId) → has_bit s.reachable q ≡ true → has_bit t.reachable q ≡ true
    pub marked :
        (r : StoredRule W) → Memᴰ r rs → r.children ≡ [] → has_bit t.reachable r.result ≡ true

  mark_nullary-Marked :
      (rs : List (StoredRule W)) (s : Saturation)
      → ((r : StoredRule W) → Memᴰ r rs → Memᴰ r rules)
      → All (IsRuleBelow n) rs
      → Frontier rules n nothing s
      → Marked rs s (mark_nullary rs s)
  mark_nullary-Marked [] s sub low f = rw (mark_nullary-nil W s) (record {
    frontier = f;
    work_kept = refl;
    same = refl;
    kept = λ q h. h;
    marked = λ r m e. absurd (not-mem-nil r m);
  })
  mark_nullary-Marked (r ∷ rs) s sub low f = elim (List-cases r.children) [
    | inl leaf ↦
        let productive : Productive rules r.result =
          by_rule r (sub r (Memᴰ.head refl)) refl (rw leaf none_left) in
        let (here, kept, same, fair) = mark_lem rules s r.result (rw f.bits low.0.0) in
        let more =
          mark_nullary-Marked rs (mark_reachable r.result s) (λ p m. sub p (Memᴰ.tail m)) low.1
            (mark-Frontier rules n nothing s r.result f low.0.0 productive) in
        rw (mark_nullary-leaf r rs s leaf) (record {
          frontier = more.frontier;
          work_kept = more.work_kept ∙ fair;
          same = more.same ∙ same;
          kept = λ q h. more.kept q (kept q h);
          marked = λ p m e.
              ⊎_elim (λ at. more.kept p.result (rw at here)) (λ later. more.marked p later e)
                ((mem-cons p r rs).0 m);
        })
    | inr (c, cs, inner) ↦
        let more = mark_nullary-Marked rs s (λ p m. sub p (Memᴰ.tail m)) low.1 f in
        rw (mark_nullary-inner r rs s c cs inner) (record {
          frontier = more.frontier;
          work_kept = more.work_kept;
          same = more.same;
          kept = more.kept;
          marked = λ p m e.
              ⊎_elim
                (λ at. let here : c ∷ cs ≡ [] = sym inner ∙ ap (λ x. x.children) (sym at) ∙ e in cc)
                (λ later. more.marked p later e) ((mem-cons p r rs).0 m);
        })
  ]

module _ {ℓ} {W : Type ℓ} (a : Explicit W) (low : All (IsRuleBelow a.num_states) a.rules) where
  abbrev blank : Saturation
  blank = record {
    reachable = replicate a.num_states false;
    worklist = [];
    remaining = map (λ r. length r.children) a.rules;
  }

  blank-Frontier : Frontier a.rules a.num_states nothing blank
  blank-Frontier = record {
    bits = length-replicate a.num_states false;
    marks = λ q. ground (arith, get_or-replicate a.num_states q false, not-mem-nil q);
    waiting = λ q m. refl;
    distinct = tt;
    sound = λ q h. absurd (ground (arith, get_or-replicate a.num_states q false));
  }

  -- The outer loop starts with its invariant, and with work for at most `num_states` rounds.
  pub start_lem :
      Frontier a.rules a.num_states nothing (start a)
      × Counted a.rules nothing [] (start a)
      × (work (start a) ≤ a.num_states)
  unfolding start
  start_lem =
      let begun =
        mark_nullary-Marked a.rules a.num_states a.rules blank (λ r m. m) low blank-Frontier in
      let count = λ (i : ℕ) (r : StoredRule W) (e : get_elem? a.rules i ≡ some r).
        ap (λ l. get_or l i 0) begun.same ∙ children_at a.rules i r e in
      (
        begun.frontier,
        record {
          slots = ap length begun.same ∙ length-map (λ r. length r.children) a.rules;
          counts =
              λ i r e. omega (arith, count i r e, undone-nothing r.children, occurrences-nil i);
          closed = λ i r e z. elim (List-cases r.children) [
            | inl leaf ↦ begun.marked r (mem_of_get_elem? a.rules i r e) leaf
            | inr (c, cs, inner) ↦
                let one : length r.children ≡ suc (length cs) = rw inner in
                absurd (omega (arith, count i r e))
          ];
        },
        omega (
          arith,
          begun.work_kept,
          zeros-le-length (replicate a.num_states false),
          length-replicate a.num_states false,
        ),
      )
