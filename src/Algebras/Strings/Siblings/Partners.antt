-- ===== src/Algebras/Strings/Siblings/Partners.antt =====
-- The partners of a span are the items added for the spans that it meets, in the order of the calls.
use rusty_alto.Base.{
  ℕ, zero, suc, ◌+◌, ◌≤◌, ◌≡◌, refl, sym, ap, ◌∙◌, ◌⊎◌, inl, inr, ⊎_elim, List, [], ◌∷◌, ◌++◌, some,
  arith, ◌==◌, nat_eq, length, length-replicate, replicate, get_elem?, get_elem?_of_lt,
  if◌then◌else◌, Bool-cases, All, append-nil, append_assoc,
}
use rusty_alto.Base.Assoc.{listed}
use rusty_alto.Base.Rows.{push_at, push_at_lem}
use rusty_alto.Util.DenseIndex.Groups.{group, group-nil, group-cons, group-append}
use rusty_alto.Algebras.Strings.{Span, StringDecompositionAutomaton, len}
use rusty_alto.Algebras.Strings.Siblings.{StringSiblingIndex, new_index, add, add_all, partners}

-- The items added for left children by the end of their spans, and for right children by the start.
abbrev pub lefts : List (ℕ × Span × ℕ) → List (ℕ × ℕ)
lefts [] = []
lefts ((position, state, item) ∷ calls) =
    if position == 0 then (state.end, item) ∷ lefts calls else lefts calls

abbrev pub rights : List (ℕ × Span × ℕ) → List (ℕ × ℕ)
rights [] = []
rights ((position, state, item) ∷ calls) =
    if position == 1 then (state.start, item) ∷ rights calls else rights calls

-- A call for one of the two positions, with a span up to a boundary.
abbrev pub IsCall : ℕ → ℕ × Span × ℕ → Type 0
IsCall n (position, state, item) =
    ((position ≡ 0) ⊎ (position ≡ 1)) × (state.start ≤ n) × (state.end ≤ n)

-- The rows hold what some pairs give to each key.
record HoldsRows (n : ℕ) (rows : List (List ℕ)) (pairs : List (ℕ × ℕ)) : Type 0 where
  size : length rows ≡ n + 1
  row_of : (k : ℕ) → listed (get_elem? rows k) ≡ group k pairs

get-replicate : (count k : ℕ) → listed (get_elem? (replicate {A = List ℕ} count []) k) ≡ []
get-replicate zero k = refl
get-replicate (suc count) zero = refl
get-replicate (suc count) (suc k) = get-replicate count k

empty-HoldsRows : (n : ℕ) → HoldsRows n (replicate (n + 1) []) []
empty-HoldsRows n = record {
  size = length-replicate (n + 1) [];
  row_of = λ k. get-replicate (n + 1) k ∙ sym (group-nil k);
}

push-HoldsRows :
    (n : ℕ) (rows : List (List ℕ)) (pairs : List (ℕ × ℕ)) (i item : ℕ)
    → HoldsRows n rows pairs
    → i ≤ n
    → (more : List (List ℕ)) × (push_at rows i item ≡ some more)
      × HoldsRows n more (pairs ++ (i, item) ∷ [])
push-HoldsRows n rows pairs i item h low =
    let (more, runs, p) = push_at_lem rows i item (omega (arith, h.size)) in
    (
      more,
      runs,
      record {
        size = p.size ∙ h.size;
        row_of = λ k.
            let last = group-append k pairs ((i, item) ∷ []) in
            p.row_of k
            ∙ rw (last, group-cons, group-nil, h.row_of k)
                (elim (Bool-cases (i == k)) [
                  | inl here ↦ rw here refl
                  | inr other ↦ rw other (sym (append-nil (group k pairs)))
                ]);
      },
    )

row-HoldsRows :
    (n : ℕ) (rows : List (List ℕ)) (pairs : List (ℕ × ℕ)) (k : ℕ)
    → HoldsRows n rows pairs
    → k ≤ n
    → get_elem? rows k ≡ some (group k pairs)
row-HoldsRows n rows pairs k h low =
    let (row, at) = get_elem?_of_lt rows k (omega (arith, h.size)) in
    at ∙ ap some (let read = h.row_of k in rw at at read)

-- The index after some calls.
abbrev Holds : ℕ → StringSiblingIndex → List (ℕ × ℕ) → List (ℕ × ℕ) → Type 0
Holds n ix ls rs = HoldsRows n ix.by_end ls × HoldsRows n ix.by_start rs

add_all-Holds :
    (n : ℕ) (calls : List (ℕ × Span × ℕ)) (ix : StringSiblingIndex) (ls rs : List (ℕ × ℕ))
    → All (IsCall n) calls
    → Holds n ix ls rs
    → (jx : StringSiblingIndex) × (add_all ix calls ≡ some jx)
      × Holds n jx (ls ++ lefts calls) (rs ++ rights calls)
unfolding add_all add
add_all-Holds n [] ix ls rs ok h = (ix, refl, rw (append-nil ls, append-nil rs) h)
add_all-Holds n ((zero, state, item) ∷ calls) ix ls rs ((side, low, high), ok) (h, k) =
    let (more, runs, now) = push-HoldsRows n ix.by_end ls state.end item h high in
    let (jx, rest, done) =
      add_all-Holds n calls (record { by_end = more; by_start = ix.by_start })
        (ls ++ (state.end, item) ∷ []) rs ok (now, k) in
    (jx, rw runs rest, rw append_assoc at done)
add_all-Holds n ((suc zero, state, item) ∷ calls) ix ls rs ((side, low, high), ok) (h, k) =
    let (more, runs, now) = push-HoldsRows n ix.by_start rs state.start item k low in
    let (jx, rest, done) =
      add_all-Holds n calls (record { by_end = ix.by_end; by_start = more }) ls
        (rs ++ (state.start, item) ∷ []) ok (h, now) in
    (jx, rw runs rest, rw append_assoc at done)
add_all-Holds n ((suc (suc position), state, item) ∷ calls) ix ls rs ((side, low, high), ok) h =
    absurd (⊎_elim (λ e. omega (arith, e)) (λ e. omega (arith, e)) side)

-- After calls for spans of the sentence, `partners` returns for a span of the sentence the items of
-- the right children that start where it ends, and of the left children that end where it starts.
pub partners_lem :
    (d : StringDecompositionAutomaton) (calls : List (ℕ × Span × ℕ))
    → All (IsCall (len d)) calls
    → (ix : StringSiblingIndex) × (new_index d d.concat ≡ some ix)
      × ((jx : StringSiblingIndex) × (add_all ix calls ≡ some jx)
          × ((p : Span)
              → p.start ≤ len d
              → p.end ≤ len d
              → (partners jx 0 p ≡ some (group p.end (rights calls)))
                × (partners jx 1 p ≡ some (group p.start (lefts calls)))))
unfolding new_index partners
partners_lem d calls ok =
    let start : StringSiblingIndex = record {
      by_end = replicate (len d + 1) [];
      by_start = replicate (len d + 1) [];
    } in
    let (jx, runs, (h, k)) =
      add_all-Holds (len d) calls start [] [] ok
        (empty-HoldsRows (len d), empty-HoldsRows (len d)) in
    (
      start,
      ground arith,
      (
        jx,
        runs,
        λ p low high. (
          row-HoldsRows (len d) jx.by_start (rights calls) p.end k high,
          row-HoldsRows (len d) jx.by_end (lefts calls) p.start h low,
        ),
      ),
    )
