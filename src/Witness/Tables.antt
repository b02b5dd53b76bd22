-- ===== src/Witness/Tables.antt =====
-- src/util/dense_index.rs, src/interner.rs, src/signature.rs and the state set of src/run.rs at
-- concrete inputs.
use rusty_alto.Base.{ℕ, ◌≡◌, refl, ◌≤◌, List, [], ◌∷◌, some, length, arith, nat_eq, string_eq}
use rusty_alto.Base.Assoc.{lookup, insert}
use rusty_alto.Base.Order.{nat_ord}
use rusty_alto.Ids.{StateId, stuck, u32_max}
use rusty_alto.Util.DenseIndex.{DenseIndex, from_pairs}
use rusty_alto.Util.DenseIndex.Grouping.{IsGrouping, from_pairs_lem}
use rusty_alto.Interner.{Interner, new, intern, intern_fresh, resolve, get}
use rusty_alto.Interner.Laws.{IsValid, new-IsValid, intern_lem}
use rusty_alto.Signature
use rusty_alto.Signature.Laws as SignatureLaws

abbrev keyed : List (ℕ × ℕ)
keyed = (2, 10) ∷ (0, 20) ∷ (2, 30) ∷ []

from_pairs_lem_example :
    (ix : DenseIndex ℕ) × (from_pairs 0 3 keyed ≡ some ix) × IsGrouping 0 3 keyed ix
from_pairs_lem_example = from_pairs_lem 0 3 keyed (omega arith, (omega arith, (omega arith, tt)))

abbrev seven : Interner ℕ
seven = record { forward = (7, 0) ∷ []; backward = 7 ∷ [] }

seven_runs : intern new 7 ≡ some (seven, 0)
unfolding intern intern_fresh lookup insert stuck u32_max
seven_runs = refl

intern_lem_example :
    IsValid seven
    × (resolve seven 0 ≡ some 7)
    × (get seven 7 ≡ some 0)
    × (intern seven 7 ≡ some (seven, 0))
    × ((k : StateId) (s : ℕ) → resolve new k ≡ some s → resolve seven k ≡ some s)
intern_lem_example = intern_lem new 7 seven 0 new-IsValid seven_runs

names_fit : length Signature.new.names ≤ u32_max
unfolding u32_max
names_fit = omega arith

intern-Outcome_example : SignatureLaws.Outcome Signature.new "f" 2
intern-Outcome_example =
    SignatureLaws.intern-Outcome Signature.new "f" 2 SignatureLaws.new-IsValid names_fit
