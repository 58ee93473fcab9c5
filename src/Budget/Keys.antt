-- ===== src/Budget/Keys.antt =====
-- The keys of internal/budget/tracker.go: `nodeSelectorKey` and `modelKey`.
use inference_budget_control.Prelude.{ℕ, none, some, [], ◌∷◌, ◌≡◌, refl, rem_one}
use inference_budget_control.Budget.{NodeSelector, node_selector_key}

-- A nil selector, or one with at most one label: the key does not depend on Go's choice.
abbrev pub IsSingle : NodeSelector → Type 0
IsSingle none = Unit
IsSingle (some []) = Unit
IsSingle (some (e ∷ [])) = Unit
IsSingle (some (e ∷ f ∷ es)) = ⊥

pub node_selector_key-IsSingle :
    (i j : ℕ) (s : NodeSelector) → IsSingle s → node_selector_key i s ≡ node_selector_key j s
unfolding node_selector_key
node_selector_key-IsSingle i j none h = refl
node_selector_key-IsSingle i j (some []) h = refl
node_selector_key-IsSingle i j (some (e ∷ [])) h = rw (rem_one i, rem_one j)
node_selector_key-IsSingle i j (some (e ∷ f ∷ es)) h = absurd h
