-- ===== src/Explicit/Reach/Productive.antt =====
-- The states that some tree can receive at its root.
use rusty_alto.Base.{List, [], ◌∷◌, ◌≡◌, Memᴰ}
use rusty_alto.Ids.{StateId}
use rusty_alto.Explicit.Types.{StoredRule}

module _ {ℓ} {W : Type ℓ} (rules : List (StoredRule W)) where
  mutual
    pub data Productive : StateId → Type ℓ where
      by_rule :
          {q : StateId} (r : StoredRule W)
          → Memᴰ r rules
          → r.result ≡ q
          → AllProductive r.children
          → Productive q

    pub data AllProductive : List StateId → Type ℓ where
      none_left : AllProductive []
      one_more :
          {q : StateId} {qs : List StateId}
          → Productive q
          → AllProductive qs
          → AllProductive (q ∷ qs)
