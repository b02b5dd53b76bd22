-- ===== src/Traits/Runs.antt =====
-- What an automaton says of a tree: the states that its root may receive.
use rusty_alto.Base.{ℕ, ◌≡◌, true, List, [], ◌∷◌, Memᴰ}
use rusty_alto.Term.{Term, Terms, node, nil, cons}
use rusty_alto.Traits.{BottomUpTa}

module _ {ℓ} {S : Type ℓ} (a : BottomUpTa S) where
  mutual
    -- The root of a tree may receive a state.
    pub data Assigns : Term → S → Type ℓ where
      assign :
          {f : ℕ} {ts : Terms} {qs : List S} {q : S}
          → AssignsAll ts qs
          → Memᴰ q (a.step f qs)
          → Assigns (node f ts) q

    -- The roots of a row of trees may receive a row of states.
    pub data AssignsAll : Terms → List S → Type ℓ where
      all_nil : AssignsAll nil []
      all_cons :
          {t : Term} {ts : Terms} {q : S} {qs : List S}
          → Assigns t q
          → AssignsAll ts qs
          → AssignsAll (cons t ts) (q ∷ qs)

  -- The tree is in the automaton's language.
  abbrev pub Accepts : Term → Type ℓ
  Accepts t = (q : S) × Assigns t q × (a.is_accepting q ≡ true)
