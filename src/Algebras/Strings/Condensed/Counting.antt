-- ===== src/Algebras/Strings/Condensed/Counting.antt =====
-- How many condensed rules there are, in closed form.
use Prim.Native.Nat.{◌*◌, ◌/◌, ◌%◌, ◌^◌}
use rusty_alto.Base.{
  ℕ, zero, suc, ◌+◌, ◌-◌, ◌<◌, ◌≡◌, refl, sym, ap, ◌∙◌, List, [], ◌∷◌, arith, length, length-append,
  length-map, map,
}
use rusty_alto.Base.Flat.{flat_map}
use rusty_alto.Base.Ranges.{counting, range, length-counting}
use rusty_alto.Ids.{Symbol}
use rusty_alto.Algebras.Strings.{StringDecompositionAutomaton, len}
use rusty_alto.Algebras.Strings.Condensed.{
  lexical_rules, concat_rule, rules_from, concat_rules, condensed_rules, rule_count,
}

abbrev tri : ℕ → ℕ
tri zero = 0
tri (suc c) = suc c + tri c

abbrev tet : ℕ → ℕ
tet zero = 0
tet (suc c) = tri c + tet c

tri_closed : (c : ℕ) → 2 * tri c ≡ c * (c + 1)
tri_closed zero = refl
tri_closed (suc c) = omega (arith, tri_closed c)

tet_closed : (c : ℕ) → 6 * tet (suc c) ≡ c * (c + 1) * (c + 2)
tet_closed zero = refl
tet_closed (suc c) = omega (arith, tet_closed c, tri_closed c)

length-lexical_rules : (i : ℕ) (xs : List Symbol) → length (lexical_rules i xs) ≡ length xs
unfolding lexical_rules
length-lexical_rules i [] = refl
length-lexical_rules i (x ∷ xs) = ap suc (length-lexical_rules (suc i) xs)

length-range : (start end : ℕ) → length (range start end) ≡ end - start
unfolding range
length-range start end = length-counting start (end - start)

module _ (d : StringDecompositionAutomaton) where
  length-splits :
      (start s c : ℕ)
      → s + c ≡ len d
      → length (
          flat_map
            (λ split. map (concat_rule d start split) (range (split + 1) (len d + 1)))
            (counting s c))
        ≡ tri c
  length-splits start s zero e = refl
  length-splits start s (suc c) e =
      let first = map (concat_rule d start s) (range (s + 1) (len d + 1)) in
      let size : length first ≡ suc c =
        length-map (concat_rule d start s) (range (s + 1) (len d + 1))
        ∙ length-range (s + 1) (len d + 1)
        ∙ omega arith in
      length-append first (
        flat_map (λ split. map (concat_rule d start split) (range (split + 1) (len d + 1)))
          (counting (suc s) c))
      ∙ omega (arith, size, length-splits start (suc s) c (omega arith))

  length-rules_from : (start c : ℕ) → start + suc c ≡ len d → length (rules_from d start) ≡ tri c
  unfolding rules_from range
  length-rules_from start c e =
      let left : len d - (start + 1) ≡ c = omega arith in
      rw left (length-splits start (start + 1) c (omega arith))

  length-starts :
      (s c : ℕ) → s + c ≡ len d → length (flat_map (rules_from d) (counting s c)) ≡ tet c
  length-starts s zero e = refl
  length-starts s (suc c) e =
      length-append (rules_from d s) (flat_map (rules_from d) (counting (suc s) c))
      ∙ omega (arith, length-rules_from s c e, length-starts (suc s) c (omega arith))

  length-concat_rules : length (concat_rules d) ≡ tet (len d)
  unfolding concat_rules range
  length-concat_rules =
      let whole : len d - 0 ≡ len d = omega arith in
      rw whole (length-starts 0 (len d) (omega arith))

tet_product : (n : ℕ) → 6 * tet n ≡ (n - 1) * n * (n + 1)
tet_product zero = refl
tet_product (suc c) = let less : suc c - 1 ≡ c = omega arith in rw less (tet_closed c ∙ omega arith)

mod_small : (m : ℕ) → m < 2 ^ 64 → m % 2 ^ 64 ≡ m
mod_small m h = omega arith

-- the value in 64 bits of the closed form
closed_form :
    (n p t : ℕ)
    → p * (n + 1) < 2 ^ 64
    → n + t < 2 ^ 64
    → 6 * t ≡ p * (n + 1)
    → (n + ((p % 2 ^ 64) * (n + 1)) % 2 ^ 64 / 6) % 2 ^ 64 ≡ n + t
closed_form n p t h k e =
    let small : p % 2 ^ 64 ≡ p = mod_small p (omega (arith, h)) in
    let next : (p * (n + 1)) % 2 ^ 64 ≡ p * (n + 1) = mod_small (p * (n + 1)) h in
    let sixth : p * (n + 1) / 6 ≡ t = omega (arith, e) in
    rw (small, next, sixth) (mod_small (n + t) k)

length-condensed_rules :
    (d : StringDecompositionAutomaton) → length (condensed_rules d) ≡ len d + tet (len d)
unfolding condensed_rules len
length-condensed_rules d =
    length-append (lexical_rules 0 d.sentence) (concat_rules d)
    ∙ omega (arith, length-lexical_rules 0 d.sentence, length-concat_rules d)

-- If its product and the number of condensed rules fit in 64 bits, `rule_count` is this number.
pub rule_count_lem :
    (d : StringDecompositionAutomaton)
    → (len d - 1) * len d * (len d + 1) < 2 ^ 64
    → length (condensed_rules d) < 2 ^ 64
    → rule_count d ≡ length (condensed_rules d)
unfolding rule_count
rule_count_lem d low fits =
    let size = length-condensed_rules d in
    closed_form (len d) ((len d - 1) * len d) (tet (len d)) low (omega (arith, size, fits))
      (tet_product (len d))
    ∙ sym size
