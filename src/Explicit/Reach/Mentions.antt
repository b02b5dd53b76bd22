-- ===== src/Explicit/Reach/Mentions.antt =====
-- The pairs of `mentions` give a state the number of a rule once for each occurrence of the state
-- among the children of the rule.
use rusty_alto.Base.{
  ℕ, zero, suc, ◌+◌, ◌<◌, ◌≡◌, List, [], ◌∷◌, ◌++◌, map, some, arith, ◌==◌, nat_eq, get_elem?, All,
  if◌then◌else◌, nat_beq_iff, inl, inr, Bool-cases,
}
use rusty_alto.Util.DenseIndex.Groups.{group, group-cons, group-nil, group-append}
use rusty_alto.Ids.{StateId}
use rusty_alto.Explicit.Types.{StoredRule}
use rusty_alto.Explicit.Builder.Allocated.{IsRuleBelow}
use rusty_alto.Explicit.Reach.{mention_pairs}
use rusty_alto.Explicit.Reach.Invariant.{
  occurrences, occurrences-cons, occurrences-nil, occurrences-append,
}

-- the pairs of one rule
of_one :
    (q i j : ℕ) (cs : List StateId)
    → occurrences i (group q (map (λ c. (c, j)) cs)) ≡ (if j == i then occurrences q cs else 0)
of_one q i j [] =
    rw (group-nil, occurrences-nil, occurrences-nil)
      (elim (Bool-cases (j == i)) [ inl h ↦ rw h | inr h ↦ rw h ])
of_one q i j (c ∷ cs) = elim (Bool-cases (c == q)) [
  | inl here ↦
      rw (group-cons, here, occurrences-cons, occurrences-cons, here)
        (ground (arith, of_one q i j cs))
  | inr other ↦ rw (group-cons, other, occurrences-cons, other) (ground (arith, of_one q i j cs))
]

keys_of_one :
    (n j : ℕ) (cs : List StateId) (ps : List (StateId × ℕ))
    → All (λ q. q < n) cs
    → All (λ p. p.0 < n) ps
    → All (λ p. p.0 < n) (map (λ c. (c, j)) cs ++ ps)
keys_of_one n j [] ps low more = more
keys_of_one n j (c ∷ cs) ps low more = (low.0, keys_of_one n j cs ps low.1 more)

module _ {ℓ} {W : Type ℓ} where
  before_start :
      (q i j : ℕ) (rules : List (StoredRule W))
      → i < j
      → occurrences i (group q (mention_pairs j rules)) ≡ 0
  unfolding mention_pairs
  before_start q i j [] h = rw (group-nil, occurrences-nil)
  before_start q i j (r ∷ rules) h =
      rw (group-append, occurrences-append)
        (ground (arith, of_one q i j r.children, before_start q i (suc j) rules, nat_beq_iff j i))

  pub mentions_of_rule :
      (q j k : ℕ) (rules : List (StoredRule W)) (r : StoredRule W)
      → get_elem? rules k ≡ some r
      → occurrences (j + k) (group q (mention_pairs j rules)) ≡ occurrences q r.children
  unfolding mention_pairs
  mentions_of_rule q j k [] r e = cc
  mentions_of_rule q j zero (p ∷ rules) r e =
      let same : p ≡ r = cc in
      let at : j + 0 ≡ j = omega arith in
      rw (group-append, occurrences-append, at, ← same)
        (ground (arith, of_one q j j p.children, before_start q j (suc j) rules, nat_beq_iff j j))
  mentions_of_rule q j (suc k) (p ∷ rules) r e =
      let at : j + suc k ≡ suc j + k = omega arith in
      rw (group-append, occurrences-append, at)
        (ground (
          arith,
          of_one q (suc j + k) j p.children,
          mentions_of_rule q (suc j) k rules r e,
          nat_beq_iff j (suc j + k),
        ))

  -- Every mentioned state is a key.
  pub mention_keys :
      (n j : ℕ) (rules : List (StoredRule W))
      → All (IsRuleBelow n) rules
      → All (λ p. p.0 < n) (mention_pairs j rules)
  unfolding mention_pairs
  mention_keys n j [] low = tt
  mention_keys n j (r ∷ rules) low =
      keys_of_one n j r.children (mention_pairs (suc j) rules) low.0.1
        (mention_keys n (suc j) rules low.1)
