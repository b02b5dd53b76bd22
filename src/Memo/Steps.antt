-- ===== src/Memo/Steps.antt =====
-- The cached transitions stand for those of the inner automaton, and every query answers by them.
use rusty_alto.Base.{
  ◌+◌, ◌≤◌, ◌≡◌, refl, sym, ap, ◌∙◌, subst, inl, inr, Bool, false, List, Option, none, some, Eq,
  ◌==◌, nat_eq, length, Bool-cases, Option-cases, beq_refl,
}
use rusty_alto.Base.Assoc.{lookup, insert, lookup-insert, listed}
use rusty_alto.Ids.{StateId, Symbol, stuck, is_stuck}
use rusty_alto.Interner.{Interner, resolve}
use rusty_alto.Interner.Laws.{IsValid, new-IsValid}
use rusty_alto.Traits.{BottomUpTa}
use rusty_alto.Memo.Keys.{
  CacheKey, key_of, key_symbol, key_children, key_eq, key_symbol-key_of, key_children-key_of,
}
use rusty_alto.Memo.{
  Memo, new, resolve_children, record_hit, remember, intern_results, step_miss, step, is_accepting,
}
use rusty_alto.Memo.Interning.{
  Keeps, resolve_children-Keeps, Stands, Stands-Keeps, intern_results-Stands,
}

module _ {ℓ} {S : Type ℓ} ⦃e : Eq S⦄ (inner : BottomUpTa S) where
  -- The identifiers are those of the results of the inner automaton for the children.
  pub record Cached (i : Interner S) (key : CacheKey) (ids : List StateId) : Type ℓ where
    pub children : List S
    pub resolved : resolve_children i (key_children key) ≡ some children
    pub stands : Stands i ids (inner.step (key_symbol key) children)

  -- Each entry of the caches says what the inner automaton says.
  pub record IsMemo (m : Memo S) : Type ℓ where
    pub valid : IsValid m.interner
    pub cached :
        (key : CacheKey) (ids : List StateId)
        → lookup key m.cache ≡ some ids
        → Cached m.interner key ids
    pub accepted :
        (q : StateId) (b : Bool)
        → lookup q m.accepting_cache ≡ some b
        → (s : S) × (resolve m.interner q ≡ some s) × (inner.is_accepting s ≡ b)

  pub new-IsMemo : IsMemo new
  unfolding lookup
  new-IsMemo = record { valid = new-IsValid; cached = λ key ids h. cc; accepted = λ q b h. cc }

  pub Cached-Keeps :
      (i j : Interner S) (key : CacheKey) (ids : List StateId)
      → Keeps i j
      → Cached i key ids
      → Cached j key ids
  Cached-Keeps i j key ids k h = record {
    children = h.children;
    resolved = resolve_children-Keeps i j (key_children key) h.children k h.resolved;
    stands = Stands-Keeps i j ids (inner.step (key_symbol key) h.children) k h.stands;
  }

  -- A larger interner keeps the invariant, and so does a new entry that is right.
  pub grown-IsMemo :
      (m : Memo S) (j : Interner S)
      → IsMemo m
      → IsValid j
      → Keeps m.interner j
      → IsMemo (record m { interner = j })
  grown-IsMemo m j v valid keeps = record {
    valid = valid;
    cached = λ key ids h. Cached-Keeps m.interner j key ids keeps (v.cached key ids h);
    accepted = λ q b h. let (s, at, final) = v.accepted q b h in (s, keeps q s at, final);
  }

  pub remember-IsMemo :
      (m : Memo S) (j : Interner S) (key : CacheKey) (ids : List StateId)
      → IsMemo m
      → IsValid j
      → Keeps m.interner j
      → Cached j key ids
      → IsMemo (remember m j key ids)
  remember-IsMemo m j key ids v valid keeps c = record {
    valid = valid;
    cached = λ other found h. elim (Bool-cases (key == other)) [
      | inl here ↦
          let same : key ≡ other = (key_eq.same_iff key other).0 here in
          let read = rw lookup-insert at h in
          let only : ids ≡ found =
            (let both : Option.some ids ≡ some found = rw here at read in cc) in
          subst (λ z. Cached j z found) same (subst (Cached j key) only c)
      | inr there ↦
          let read = rw lookup-insert at h in
          let old : lookup other m.cache ≡ some found = rw there at read in
          Cached-Keeps m.interner j other found keeps (v.cached other found old)
    ];
    accepted = λ q b h. let (s, at, final) = v.accepted q b h in (s, keeps q s at, final);
  }

  -- What a query of the transitions from some children leaves.
  pub record Answered (m : Memo S) (f : Symbol) (children : List S) (n : Memo S)
      (out : List StateId) : Type ℓ where
    pub valid : IsMemo n
    pub keeps : Keeps m.interner n.interner
    pub stands : Stands n.interner out (inner.step f children)

  pub cached-Answered :
      (m : Memo S) (f : Symbol) (qs : List StateId) (children : List S) (out : List StateId)
      → IsMemo m
      → resolve_children m.interner qs ≡ some children
      → lookup (key_of f qs) m.cache ≡ some out
      → Answered m f children (record_hit m) out
  cached-Answered m f qs children out v known found =
      let c = v.cached (key_of f qs) out found in
      let there : resolve_children m.interner qs ≡ some c.children =
        rw (key_children-key_of f qs) at c.resolved in
      let same : c.children ≡ children =
        (let both : Option.some c.children ≡ some children = sym there ∙ known in cc) in
      record {
        valid = record { valid = v.valid; cached = v.cached; accepted = v.accepted };
        keeps = λ q s h. h;
        stands =
            subst (λ z. Stands m.interner out (inner.step f z)) same
              (rw (key_symbol-key_of f qs) at c.stands);
      }

  step_new :
      (m : Memo S) (f : Symbol) (qs : List StateId) (children : List S) (j : Interner S)
      (dense : List StateId)
      → lookup (key_of f qs) m.cache ≡ none
      → resolve_children m.interner qs ≡ some children
      → intern_results m.interner (inner.step f children) ≡ some (j, dense)
      → step inner m f qs ≡ some (remember m j (key_of f qs) dense, dense)
  unfolding step step_miss
  step_new m f qs children j dense unknown known runs =
      let own : listed (lookup (key_of f qs) (insert (key_of f qs) dense m.cache)) ≡ dense =
        rw (lookup-insert, beq_refl (key_of f qs)) refl in
      rw (unknown, step)
        (rw known (rw runs (ap (λ l. some (remember m j (key_of f qs) dense, l)) own)))

  -- A query of the transitions from children that the memo knows returns, if the interner has room
  -- for the results: its identifiers stand for exactly the results of the inner automaton, the
  -- invariant is kept, and no identifier changes its meaning.
  pub step-Answered :
      (m : Memo S) (f : Symbol) (qs : List StateId) (children : List S)
      → IsMemo m
      → resolve_children m.interner qs ≡ some children
      → length m.interner.backward + length (inner.step f children) ≤ stuck
      → (n : Memo S) × (out : List StateId) × (step inner m f qs ≡ some (n, out))
        × Answered m f children n out
  unfolding step step_miss
  step-Answered m f qs children v known room = elim (Option-cases (lookup (key_of f qs) m.cache)) [
    | inr (out, found) ↦ (
      record_hit m,
      out,
      rw (found, step) refl,
      cached-Answered m f qs children out v known found,
    )
    | inl unknown ↦
        let (j, dense, runs, valid, keeps, stands) =
          intern_results-Stands m.interner (inner.step f children) v.valid room in
        (
          remember m j (key_of f qs) dense,
          dense,
          step_new m f qs children j dense unknown known runs,
          record {
            valid = remember-IsMemo m j (key_of f qs) dense v valid keeps (record {
              children = children;
              resolved =
                  rw (key_children-key_of f qs)
                    (resolve_children-Keeps m.interner j qs children keeps known);
              stands = rw (key_symbol-key_of f qs) stands;
            });
            keeps = keeps;
            stands = stands;
          },
        )
  ]

  accepting_new :
      (m : Memo S) (q : StateId) (s : S)
      → is_stuck q ≡ false
      → lookup q m.accepting_cache ≡ none
      → resolve m.interner q ≡ some s
      → is_accepting inner m q
        ≡ some (
          record m { accepting_cache = insert q (inner.is_accepting s) m.accepting_cache },
          inner.is_accepting s,
        )
  unfolding is_accepting
  accepting_new m q s usual unknown known = rw usual (rw (unknown, is_accepting) (rw known refl))

  accepting_old :
      (m : Memo S) (q : StateId) (b : Bool)
      → is_stuck q ≡ false
      → lookup q m.accepting_cache ≡ some b
      → is_accepting inner m q ≡ some (m, b)
  unfolding is_accepting
  accepting_old m q b usual found = rw usual (rw (found, is_accepting) refl)

  -- For an identifier that the memo knows `is_accepting` returns what the inner automaton says of
  -- the state it stands for, and keeps the invariant.
  pub is_accepting_lem :
      (m : Memo S) (q : StateId) (s : S)
      → IsMemo m
      → resolve m.interner q ≡ some s
      → (n : Memo S) × (is_accepting inner m q ≡ some (n, inner.is_accepting s))
        × IsMemo n
        × (n.interner ≡ m.interner)
  unfolding resolve
  is_accepting_lem m q s v known = elim (Bool-cases (is_stuck q)) [
    | inl special ↦ absurd (let never = rw special at known in cc)
    | inr usual ↦ elim (Option-cases (lookup q m.accepting_cache)) [
      | inr (b, found) ↦
          let (t, there, final) = v.accepted q b found in
          let same : t ≡ s = (let both : Option.some t ≡ some s = sym there ∙ known in cc) in
          (
            m,
            accepting_old m q b usual found
                ∙ ap (λ z. some (m, z)) (sym final ∙ ap inner.is_accepting same),
            v,
            refl,
          )
      | inl unknown ↦ (
        record m { accepting_cache = insert q (inner.is_accepting s) m.accepting_cache },
        accepting_new m q s usual unknown known,
        record {
          valid = v.valid;
          cached = v.cached;
          accepted = λ p b h. elim (Bool-cases (q == p)) [
            | inl here ↦
                let same : q ≡ p = (nat_eq.same_iff q p).0 here in
                let read = rw lookup-insert at h in
                let only : inner.is_accepting s ≡ b =
                  (let both : Option.some (inner.is_accepting s) ≡ some b = rw here at read in
                    cc) in
                (s, subst (λ z. resolve m.interner z ≡ some s) same known, only)
            | inr there ↦ let read = rw lookup-insert at h in v.accepted p b (rw there at read)
          ];
        },
        refl,
      )
    ]
  ]
