-- ===== src/Algebras/Strings/Covers.antt =====
-- A span covers a word sequence: what the sentence has there.
use rusty_alto.Base.{
  ℕ, suc, ◌+◌, ◌-◌, ◌≤◌, ◌<◌, ◌≡◌, refl, sym, ap, ◌∙◌, ◌↔◌, ◌⊎◌, inl, inr, Bool-cases, true, List,
  [], ◌∷◌, ◌++◌, some, arith, length, get_elem?, get_elem?-append_left, length-append,
  lt-length_of_get_elem?, get_elem?_of_lt, ltb,
}
use rusty_alto.Ids.{Symbol}
use rusty_alto.Algebras.Strings.{Span, StringDecompositionAutomaton, valid_span, len}

lt-or_le : (i n : ℕ) → (i < n) ⊎ (n ≤ i)
lt-or_le i n = elim (Bool-cases (ltb i n)) [
  | inl low ↦ inl (ground arith)
  | inr high ↦ inr (ground arith)
]

get_elem?-append_right {ℓ} :
    {A : Type ℓ} (a b : List A) (j : ℕ) → get_elem? (a ++ b) (length a + j) ≡ get_elem? b j
get_elem?-append_right [] b j = let at : 0 + j ≡ j = omega arith in rw at
get_elem?-append_right (x ∷ a) b j =
    let next : suc (length a) + j ≡ suc (length a + j) = omega arith in
    rw next (get_elem?-append_right a b j)

list_ext {ℓ} :
    {A : Type ℓ} (xs ys : List A)
    → length xs ≡ length ys
    → ((i : ℕ) → i < length xs → get_elem? xs i ≡ get_elem? ys i)
    → xs ≡ ys
list_ext [] [] e h = refl
list_ext [] (y ∷ ys) e h = absurd (omega arith)
list_ext (x ∷ xs) [] e h = absurd (omega arith)
list_ext (x ∷ xs) (y ∷ ys) e h =
    let first : some x ≡ some y = h 0 (omega arith) in
    let rest = list_ext xs ys (omega arith) (λ i low. h (suc i) (omega arith)) in cc

module _ (xs : List Symbol) where
  -- The sentence has the words at the span.
  pub record Covers (q : Span) (w : List Symbol) : Type 0 where
    pub size : q.start + length w ≡ q.end
    pub agrees : (i : ℕ) → i < length w → get_elem? xs (q.start + i) ≡ get_elem? w i

  pub Covers-join :
      (s m e : ℕ) (a b : List Symbol)
      → Covers (record { start = s; end = m }) a
      → Covers (record { start = m; end = e }) b
      → Covers (record { start = s; end = e }) (a ++ b)
  Covers-join s m e a b h k = record {
    size = omega (arith, length-append a b, h.size, k.size);
    agrees = λ i low. elim (lt-or_le i (length a)) [
      | inl early ↦ h.agrees i early ∙ sym (get_elem?-append_left a b i early)
      | inr late ↦
          let at : s + i ≡ m + (i - length a) = omega (arith, h.size) in
          let there : i ≡ length a + (i - length a) = omega arith in
          rw at (k.agrees (i - length a) (omega (arith, length-append a b)))
          ∙ sym (ap (get_elem? (a ++ b)) there ∙ get_elem?-append_right a b (i - length a))
    ];
  }

  pub Covers-split :
      (s e : ℕ) (a b : List Symbol)
      → Covers (record { start = s; end = e }) (a ++ b)
      → Covers (record { start = s; end = s + length a }) a
        × Covers (record { start = s + length a; end = e }) b
  Covers-split s e a b h = (
    record {
      size = refl;
      agrees =
          λ i low. h.agrees i (omega (arith, length-append a b)) ∙ get_elem?-append_left a b i low;
    },
    record {
      size = omega (arith, h.size, length-append a b);
      agrees = λ i low.
          let at : s + length a + i ≡ s + (length a + i) = omega arith in
          rw at (h.agrees (length a + i) (omega (arith, length-append a b)))
          ∙ get_elem?-append_right a b i;
    },
  )

  -- A span that covers words is within the sentence.
  pub Covers-bound : (q : Span) (w : List Symbol) → Covers q w → 0 < length w → q.end ≤ length xs
  Covers-bound q w h k =
      let last : length w - 1 < length w = omega arith in
      let (x, at) = get_elem?_of_lt w (length w - 1) last in
      let low =
        lt-length_of_get_elem? xs (q.start + (length w - 1)) (h.agrees (length w - 1) last ∙ at) in
      omega (arith, h.size, low)

  pub Covers-whole : (w : List Symbol) → Covers (record { start = 0; end = length xs }) w → w ≡ xs
  Covers-whole w h =
      list_ext w xs (omega (arith, h.size))
        (λ i low. let at : 0 + i ≡ i = omega arith in sym (rw at at (h.agrees i low)))

  pub Covers-self : Covers (record { start = 0; end = length xs }) xs
  Covers-self = record {
    size = omega arith;
    agrees = λ i low. let at : 0 + i ≡ i = omega arith in rw at;
  }

  pub Covers-word :
      (i : ℕ) (f : Symbol)
      → get_elem? xs i ≡ some f
      → Covers (record { start = i; end = i + 1 }) (f ∷ [])
  Covers-word i f h = record {
    size = omega arith;
    agrees = λ j low.
        let first : j ≡ 0 = omega arith in let at : i + 0 ≡ i = omega arith in rw (first, at) h;
  }

  pub word_of_Covers :
      (q : Span) (f : Symbol)
      → Covers q (f ∷ [])
      → (q.end ≡ q.start + 1) × (get_elem? xs q.start ≡ some f)
  word_of_Covers q f h = (
    omega (arith, h.size),
    let at : q.start + 0 ≡ q.start = omega arith in rw at at (h.agrees 0 (omega arith)),
  )

pub valid_span_iff :
    (d : StringDecompositionAutomaton) (q : Span)
    → (valid_span d q ≡ true) ↔ ((q.start < q.end) × (q.end ≤ length d.sentence))
unfolding valid_span len
valid_span_iff d q = ground arith
