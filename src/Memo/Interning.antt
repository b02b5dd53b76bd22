-- ===== src/Memo/Interning.antt =====
-- Interning states gives identifiers that resolve to them, and keeps what earlier ones resolve to.
use rusty_alto.Base.{
  suc, ◌+◌, ◌≤◌, ◌<◌, ◌≡◌, refl, sym, ap, ◌∙◌, subst, inl, inr, ⊎_elim, List, [], ◌∷◌, ◌++◌, Memᴰ,
  mem-cons, mem-append, not-mem-nil, some, >>=-eq-some, Eq, nat_eq, arith, contains, contains_iff,
  length, length-append, if◌then◌else◌, Bool-cases, Distinct, Distinct-concat, append-nil,
  append_assoc,
}
use rusty_alto.Ids.{StateId, stuck}
use rusty_alto.Interner.{Interner, intern, resolve}
use rusty_alto.Interner.Laws.{
  IsValid, Interned, known, fresh, intern_cases, intern_lem, intern_total,
}
use rusty_alto.Memo.{resolve_children, intern_each, intern_results, intern_row}

-- What identifiers stand for does not change.
abbrev pub Keeps {ℓ} : {S : Type ℓ} → Interner S → Interner S → Type ℓ
Keeps {S = S} i j = (q : StateId) (s : S) → resolve i q ≡ some s → resolve j q ≡ some s

pub Keeps-trans {ℓ} : {S : Type ℓ} (i j k : Interner S) → Keeps i j → Keeps j k → Keeps i k
Keeps-trans i j k f g q s h = g q s (f q s h)

pub resolve_children-Keeps {ℓ} :
    {S : Type ℓ} (i j : Interner S) (qs : List StateId) (ss : List S)
    → Keeps i j
    → resolve_children i qs ≡ some ss
    → resolve_children j qs ≡ some ss
unfolding resolve_children
resolve_children-Keeps i j [] ss k h = h
resolve_children-Keeps i j (q ∷ qs) ss k h =
    let (s, first, more) = >>=-eq-some (resolve i q) _ h in
    let (rest, later, all) = >>=-eq-some (resolve_children i qs) _ more in
    rw (k q s first, resolve_children-Keeps i j qs rest k later) all

last {κ} : {A : Type κ} (a b : A) → Memᴰ a (b ∷ []) → a ≡ b
last a b m = ⊎_elim (λ e. e) (λ never. absurd (not-mem-nil a never)) ((mem-cons a b []).0 m)

module _ {ℓ} {S : Type ℓ} ⦃e : Eq S⦄ where
  -- One more state: what `intern` leaves when there is room.
  pub record Extended (i : Interner S) (s : S) (j : Interner S) (id : StateId) : Type ℓ where
    pub valid : IsValid j
    pub found : resolve j id ≡ some s
    pub keeps : Keeps i j
    pub longer : length j.backward ≤ suc (length i.backward)

  pub intern-Extended :
      (i : Interner S) (s : S)
      → IsValid i
      → length i.backward < stuck
      → (j : Interner S) × (id : StateId) × (intern i s ≡ some (j, id)) × Extended i s j id
  intern-Extended i s v room =
      let (j, id, runs) = intern_total i s room in
      let (valid, found, _, _, keeps) = intern_lem i s j id v runs in
      (
        j,
        id,
        runs,
        record {
          valid = valid;
          found = found;
          keeps = keeps;
          longer = size j (intern_cases i s j id runs);
        },
      )
    where
      size :
          {id : StateId} (j : Interner S)
          → Interned i s j id
          → length j.backward ≤ suc (length i.backward)
      size j (known at same) = rw same (omega arith)
      size j (fresh unknown low at same) =
          rw same (omega (arith, length-append i.backward (s ∷ [])))

  -- The identifiers stand for exactly the states listed, and none is listed twice.
  pub record Stands (i : Interner S) (ids : List StateId) (states : List S) : Type ℓ where
    pub sound : (id : StateId) → Memᴰ id ids → (s : S) × (resolve i id ≡ some s) × Memᴰ s states
    pub complete : (s : S) → Memᴰ s states → (id : StateId) × Memᴰ id ids × (resolve i id ≡ some s)
    pub distinct : Distinct ids

  pub Stands-Keeps :
      (i j : Interner S) (ids : List StateId) (states : List S)
      → Keeps i j
      → Stands i ids states
      → Stands j ids states
  Stands-Keeps i j ids states k h = record {
    sound = λ id m. let (s, at, n) = h.sound id m in (s, k id s at, n);
    complete = λ s m. let (id, n, at) = h.complete s m in (id, n, k id s at);
    distinct = h.distinct;
  }

  empty-Stands : (i : Interner S) → Stands i [] []
  empty-Stands i = record {
    sound = λ id m. absurd (not-mem-nil id m);
    complete = λ s m. absurd (not-mem-nil s m);
    distinct = tt;
  }

  concat-Stands :
      (i : Interner S) (ids : List StateId) (states : List S) (id : StateId) (s : S)
      → Stands i ids states
      → resolve i id ≡ some s
      → Stands i (if contains ids id then ids else ids ++ id ∷ []) (states ++ s ∷ [])
  concat-Stands i ids states id s h at = elim (Bool-cases (contains ids id)) [
    | inl hit ↦ rw hit (record {
      sound = λ p m.
          let (t, there, n) = h.sound p m in (t, there, (mem-append t states (s ∷ [])).1 (inl n));
      complete = λ t m.
          ⊎_elim (h.complete t)
            (λ n. (id, (contains_iff ids id).0 hit, at ∙ ap some (sym (last t s n))))
            ((mem-append t states (s ∷ [])).0 m);
      distinct = h.distinct;
    })
    | inr miss ↦ rw miss (record {
      sound = λ p m.
          ⊎_elim
            (λ n.
              let (t, there, k) = h.sound p n in
              (t, there, (mem-append t states (s ∷ [])).1 (inl k)))
            (λ n. (
              s,
              subst (λ z. resolve i z ≡ some s) (sym (last p id n)) at,
              (mem-append s states (s ∷ [])).1 (inr (Memᴰ.head refl)),
            ))
            ((mem-append p ids (id ∷ [])).0 m);
      complete = λ t m.
          ⊎_elim
            (λ n.
              let (p, k, there) = h.complete t n in
              (p, (mem-append p ids (id ∷ [])).1 (inl k), there))
            (λ n. (
              id,
              (mem-append id ids (id ∷ [])).1 (inr (Memᴰ.head refl)),
              at ∙ ap some (sym (last t s n)),
            ))
            ((mem-append t states (s ∷ [])).0 m);
      distinct =
          Distinct-concat id ids h.distinct (λ m. let there = (contains_iff ids id).1 m in cc);
    })
  ]

  pub intern_each-Stands :
      (i : Interner S) (ids : List StateId) (states more : List S)
      → IsValid i
      → length i.backward + length more ≤ stuck
      → Stands i ids states
      → (j : Interner S) × (dense : List StateId) × (intern_each i ids more ≡ some (j, dense))
        × IsValid j
        × Keeps i j
        × Stands j dense (states ++ more)
  unfolding intern_each
  intern_each-Stands i ids states [] v room h =
      (i, ids, refl, v, λ q s k. k, rw (append-nil states) h)
  intern_each-Stands i ids states (s ∷ more) v room h =
      let (j, id, runs, x) = intern-Extended i s v (omega arith) in
      let old = Stands-Keeps i j ids states x.keeps h in
      let now = concat-Stands j ids states id s old x.found in
      let (k, dense, rest, valid, keeps, done) =
        intern_each-Stands j (if contains ids id then ids else ids ++ id ∷ []) (states ++ s ∷ [])
          more x.valid (omega (arith, x.longer)) now in
      (
        k,
        dense,
        rw runs rest,
        valid,
        Keeps-trans i j k x.keeps keeps,
        rw (append_assoc states (s ∷ []) more) at done,
      )

  -- `intern_results` returns while there is room, and its identifiers stand for the results.
  pub intern_results-Stands :
      (i : Interner S) (results : List S)
      → IsValid i
      → length i.backward + length results ≤ stuck
      → (j : Interner S) × (dense : List StateId) × (intern_results i results ≡ some (j, dense))
        × IsValid j
        × Keeps i j
        × Stands j dense results
  unfolding intern_results
  intern_results-Stands i results v room =
      intern_each-Stands i [] [] results v room (empty-Stands i)

  -- `intern_row` gives for each state an identifier that resolves to it, in order.
  pub intern_row-resolves :
      (i : Interner S) (states : List S)
      → IsValid i
      → length i.backward + length states ≤ stuck
      → (j : Interner S) × (ids : List StateId) × (intern_row i states ≡ some (j, ids))
        × IsValid j
        × Keeps i j
        × (resolve_children j ids ≡ some states)
        × (length j.backward ≤ length i.backward + length states)
  unfolding intern_row resolve_children
  intern_row-resolves i [] v room = (i, [], refl, v, λ q s k. k, refl, omega arith)
  intern_row-resolves i (s ∷ states) v room =
      let (j, id, runs, x) = intern-Extended i s v (omega arith) in
      let (k, ids, rest, valid, keeps, done, size) =
        intern_row-resolves j states x.valid (omega (arith, x.longer)) in
      (
        k,
        id ∷ ids,
        rw (runs, rest) refl,
        valid,
        Keeps-trans i j k x.keeps keeps,
        rw (keeps id s x.found, done) refl,
        omega (arith, x.longer, size),
      )
