-- ===== src/Algebras/Strings/Positions.antt =====
-- The table of positions: each word is at the positions listed for it, and at no other.
use rusty_alto.Base.{
  ℕ, suc, ◌-◌, ◌≤◌, ◌≡◌, sym, ap, ◌∙◌, ◌↔◌, inl, inr, ⊎_elim, List, [], ◌∷◌, ◌++◌, Memᴰ, mem-cons,
  not-mem-nil, some, arith, ◌==◌, nat_eq, nat_beq_iff, get_elem?, if◌then◌else◌, Bool-cases,
  append-nil, append_assoc, Distinct,
}
use rusty_alto.Base.Assoc.{Assoc, lookup, entry, listed, listed-entry_at}
use rusty_alto.Ids.{Symbol}
use rusty_alto.Algebras.Strings.{index_words}

-- The positions of a word, for a sentence whose first word has a given position.
abbrev pub places : ℕ → List Symbol → Symbol → List ℕ
places position [] f = []
places position (word ∷ words) f =
    if word == f then position ∷ places (suc position) words f else places (suc position) words f

index_words-listed :
    (position : ℕ) (words : List Symbol) (m : Assoc Symbol (List ℕ)) (f : Symbol)
    → listed (lookup f (index_words position words m))
      ≡ listed (lookup f m) ++ places position words f
unfolding index_words
index_words-listed position [] m f = sym (append-nil (listed (lookup f m)))
index_words-listed position (word ∷ words) m f =
    index_words-listed (suc position) words (entry word [] (λ ps. ps ++ position ∷ []) m) f
    ∙ (rw (listed-entry_at word f position m) (elim (Bool-cases (word == f)) [
      | inl hit ↦
          rw hit
            (append_assoc (listed (lookup f m)) (position ∷ []) (places (suc position) words f))
      | inr other ↦ rw other
    ]))

-- The table of `new` lists exactly the positions of each word, in order.
pub index_words-eq-places :
    (words : List Symbol) (f : Symbol)
    → listed (lookup f (index_words 0 words [])) ≡ places 0 words f
unfolding lookup
index_words-eq-places words f = index_words-listed 0 words [] f

pub mem-places :
    (position : ℕ) (words : List Symbol) (f : Symbol) (i : ℕ)
    → Memᴰ i (places position words f)
      ↔ ((position ≤ i) × (get_elem? words (i - position) ≡ some f))
mem-places position [] f i = (λ m. absurd (not-mem-nil i m), λ h. cc)
mem-places position (word ∷ words) f i =
    let rest = mem-places (suc position) words f i in
    elim (Bool-cases (word == f)) [
      | inl hit ↦
          let same : word ≡ f = (nat_beq_iff word f).0 hit in
          rw hit (
            λ m.
                ⊎_elim (λ (e : i ≡ position). (omega arith, here i e ∙ ap some same))
                  (λ n. let (low, at) = rest.0 n in (omega arith, further i low ∙ at))
                  ((mem-cons i position (places (suc position) words f)).0 m),
            λ (low, at). elim (Bool-cases (i == position)) [
              | inl first ↦ Memᴰ.head ((nat_beq_iff i position).0 first)
              | inr later ↦
                  let beyond : suc position ≤ i = ground arith in
                  Memᴰ.tail (rest.1 (beyond, sym (further i beyond) ∙ at))
            ],
          )
      | inr other ↦ rw other (
        λ n. let (low, at) = rest.0 n in (omega arith, further i low ∙ at),
        λ (low, at). elim (Bool-cases (i == position)) [
          | inl first ↦
              let e : i ≡ position = (nat_beq_iff i position).0 first in
              absurd (
                let both : some word ≡ some f = sym (here i e) ∙ at in
                let hit = (nat_beq_iff word f).1 cc in cc)
          | inr later ↦
              let beyond : suc position ≤ i = ground arith in
              rest.1 (beyond, sym (further i beyond) ∙ at)
        ],
      )
    ]
  where
    here : (i : ℕ) → i ≡ position → get_elem? (word ∷ words) (i - position) ≡ some word
    here i e = let zeroth : i - position ≡ 0 = omega arith in rw zeroth

    further :
        (i : ℕ)
        → suc position ≤ i
        → get_elem? (word ∷ words) (i - position) ≡ get_elem? words (i - suc position)
    further i h = let next : i - position ≡ suc (i - suc position) = omega arith in rw next

-- No position is listed twice.
pub places-Distinct :
    (position : ℕ) (words : List Symbol) (f : Symbol) → Distinct (places position words f)
places-Distinct position [] f = tt
places-Distinct position (word ∷ words) f =
    let rest = places-Distinct (suc position) words f in
    elim (Bool-cases (word == f)) [
      | inl hit ↦ rw hit (
        λ m.
            let (low, _) = (mem-places (suc position) words f position).0 m in absurd (omega arith),
        rest,
      )
      | inr other ↦ rw other rest
    ]

-- The positions listed for a word by the table of `new` are where the sentence has it.
pub mem-index_words :
    (words : List Symbol) (f : Symbol) (i : ℕ)
    → Memᴰ i (listed (lookup f (index_words 0 words []))) ↔ (get_elem? words i ≡ some f)
mem-index_words words f i =
    let whole : i - 0 ≡ i = omega arith in
    rw (index_words-eq-places words f) (
      let found = mem-places 0 words f i in
      (λ m. rw whole at (found.0 m).1, λ h. found.1 (omega arith, rw whole h)))
