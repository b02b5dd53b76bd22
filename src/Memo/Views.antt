-- ===== src/Memo/Views.antt =====
-- The other queries of the memo: the rules of the inner automaton, with identifiers for its states.
use rusty_alto.Base.{
  false, ℕ, ◌+◌, ◌≤◌, ◌≡◌, refl, List, [], ◌∷◌, some, Eq, nat_eq, arith, length, Bool-cases, inl,
  inr,
}
use rusty_alto.Ids.{StateId, Symbol, stuck, is_stuck}
use rusty_alto.Interner.{Interner, resolve}
use rusty_alto.Interner.Laws.{IsValid}
use rusty_alto.Traits.{IndexedBottomUpTa, TopDownTa}
use rusty_alto.Memo.{
  Memo, resolve_children, intern_rules, step_partial, intern_calls, step_topdown, initial_states,
}
use rusty_alto.Memo.Interning.{
  Keeps, Keeps-trans, resolve_children-Keeps, intern-Extended, intern_row-resolves,
}
use rusty_alto.Memo.Steps.{IsMemo, grown-IsMemo}

module _ {ℓ} {S : Type ℓ} ⦃e : Eq S⦄ where
  -- How many states the rules mention.
  abbrev pub mentions : List (List S × S) → ℕ
  mentions [] = 0
  mentions ((children, result) ∷ raw) = length children + 1 + mentions raw

  abbrev pub call_mentions : List (Symbol × List S) → ℕ
  call_mentions [] = 0
  call_mentions ((symbol, children) ∷ raw) = length children + call_mentions raw

module _ {ℓ} {S : Type ℓ} where
  -- The rules over identifiers stand for the rules over states, one by one and in order.
  pub data Rules (i : Interner S) : List (List StateId × StateId) → List (List S × S) → Type ℓ where
    no_rules : Rules i [] []
    and_rule :
        {ids : List StateId} {id : StateId} {children : List S} {result : S}
        {rules : List (List StateId × StateId)} {raw : List (List S × S)}
        → resolve_children i ids ≡ some children
        → resolve i id ≡ some result
        → Rules i rules raw
        → Rules i ((ids, id) ∷ rules) ((children, result) ∷ raw)

  -- The same for symbols with children.
  pub data Calls (i : Interner S)
      : List (Symbol × List StateId) → List (Symbol × List S) → Type ℓ where
    no_calls : Calls i [] []
    and_call :
        {f : Symbol} {ids : List StateId} {children : List S} {calls : List (Symbol × List StateId)}
        {raw : List (Symbol × List S)}
        → resolve_children i ids ≡ some children
        → Calls i calls raw
        → Calls i ((f, ids) ∷ calls) ((f, children) ∷ raw)

module _ {ℓ} {S : Type ℓ} ⦃e : Eq S⦄ where
  intern_rules-Rules :
      (i : Interner S) (raw : List (List S × S))
      → IsValid i
      → length i.backward + mentions raw ≤ stuck
      → (j : Interner S) × (rules : List (List StateId × StateId)) × (intern_rules i raw
          ≡ some (j, rules))
        × IsValid j
        × Keeps i j
        × Rules j rules raw
  unfolding intern_rules
  intern_rules-Rules i [] v room = (i, [], refl, v, λ q s k. k, no_rules)
  intern_rules-Rules i ((children, result) ∷ raw) v room =
      let (j, ids, runs₁, v₁, keeps₁, done₁, size₁) =
        intern_row-resolves i children v (omega arith) in
      let (k, id, runs₂, x) = intern-Extended j result v₁ (omega (arith, size₁)) in
      let (l, rules, runs₃, v₃, keeps₃, done₃) =
        intern_rules-Rules k raw x.valid (omega (arith, size₁, x.longer)) in
      let keeps₂ = Keeps-trans j k l x.keeps keeps₃ in
      (
        l,
        (ids, id) ∷ rules,
        rw runs₁ (rw runs₂ (rw runs₃ refl)),
        v₃,
        Keeps-trans i j l keeps₁ keeps₂,
        and_rule (resolve_children-Keeps j l ids children keeps₂ done₁) (keeps₃ id result x.found)
            done₃,
      )

  intern_calls-Calls :
      (i : Interner S) (raw : List (Symbol × List S))
      → IsValid i
      → length i.backward + call_mentions raw ≤ stuck
      → (j : Interner S) × (calls : List (Symbol × List StateId)) × (intern_calls i raw
          ≡ some (j, calls))
        × IsValid j
        × Keeps i j
        × Calls j calls raw
  unfolding intern_calls
  intern_calls-Calls i [] v room = (i, [], refl, v, λ q s k. k, no_calls)
  intern_calls-Calls i ((f, children) ∷ raw) v room =
      let (j, ids, runs₁, v₁, keeps₁, done₁, size₁) =
        intern_row-resolves i children v (omega arith) in
      let (k, calls, runs₂, v₂, keeps₂, done₂) =
        intern_calls-Calls j raw v₁ (omega (arith, size₁)) in
      (
        k,
        (f, ids) ∷ calls,
        rw runs₁ (rw runs₂ refl),
        v₂,
        Keeps-trans i j k keeps₁ keeps₂,
        and_call (resolve_children-Keeps j k ids children keeps₂ done₁) done₂,
      )

  usual_of_resolve :
      (i : Interner S) (q : StateId) (s : S) → resolve i q ≡ some s → is_stuck q ≡ false
  unfolding resolve
  usual_of_resolve i q s known = elim (Bool-cases (is_stuck q)) [
    | inl special ↦ absurd (let never = rw special at known in cc)
    | inr usual ↦ usual
  ]

  -- For an identifier that the memo knows, and with room for the states of the rules,
  -- `step_partial` returns the rules of the inner automaton, one by one and in order, and keeps the
  -- invariant.
  pub step_partial-Rules :
      (inner : IndexedBottomUpTa S) (m : Memo S) (f : Symbol) (position : ℕ) (q : StateId) (s : S)
      → IsMemo inner.oracle m
      → resolve m.interner q ≡ some s
      → length m.interner.backward + mentions (inner.step_partial f position s) ≤ stuck
      → (n : Memo S) × (rules : List (List StateId × StateId)) × (step_partial inner m f position q
          ≡ some (n, rules))
        × IsMemo inner.oracle n
        × Keeps m.interner n.interner
        × Rules n.interner rules (inner.step_partial f position s)
  unfolding step_partial
  step_partial-Rules inner m f position q s v known room =
      let usual = usual_of_resolve m.interner q s known in
      let (j, rules, runs, valid, keeps, done) =
        intern_rules-Rules m.interner (inner.step_partial f position s) v.valid room in
      (
        record m { interner = j },
        rules,
        rw usual (rw known (rw runs refl)),
        grown-IsMemo inner.oracle m j v valid keeps,
        keeps,
        done,
      )

  -- The same of `step_topdown` for the rules with the state as their result.
  pub step_topdown-Calls :
      (inner : TopDownTa S) (m : Memo S) (q : StateId) (s : S)
      → IsMemo inner.oracle m
      → resolve m.interner q ≡ some s
      → length m.interner.backward + call_mentions (inner.step_topdown s) ≤ stuck
      → (n : Memo S) × (calls : List (Symbol × List StateId)) × (step_topdown inner m q
          ≡ some (n, calls))
        × IsMemo inner.oracle n
        × Keeps m.interner n.interner
        × Calls n.interner calls (inner.step_topdown s)
  unfolding step_topdown
  step_topdown-Calls inner m q s v known room =
      let usual = usual_of_resolve m.interner q s known in
      let (j, calls, runs, valid, keeps, done) =
        intern_calls-Calls m.interner (inner.step_topdown s) v.valid room in
      (
        record m { interner = j },
        calls,
        rw usual (rw known (rw runs refl)),
        grown-IsMemo inner.oracle m j v valid keeps,
        keeps,
        done,
      )

  -- `initial_states` returns identifiers that resolve to the initial states of the inner automaton.
  pub initial_states_lem :
      (inner : TopDownTa S) (m : Memo S)
      → IsMemo inner.oracle m
      → length m.interner.backward + length inner.initial_states ≤ stuck
      → (n : Memo S) × (ids : List StateId) × (initial_states inner m ≡ some (n, ids))
        × IsMemo inner.oracle n
        × (resolve_children n.interner ids ≡ some inner.initial_states)
  unfolding initial_states
  initial_states_lem inner m v room =
      let (j, ids, runs, valid, keeps, done, size) =
        intern_row-resolves m.interner inner.initial_states v.valid room in
      (
        record m { interner = j },
        ids,
        rw runs refl,
        grown-IsMemo inner.oracle m j v valid keeps,
        done,
      )
