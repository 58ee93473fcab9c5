-- ===== src/Budget/History.antt =====
-- Any history of the tracker of internal/budget/tracker.go.
use inference_budget_control.Prelude.{ℕ, String, some, none, ◌≡◌, ◌≢◌, ◌⊎◌, Bool}
use inference_budget_control.Prelude.Int.{pos}
use inference_budget_control.Prelude.Dict.{lookup}
use inference_budget_control.Quantity.{Quantities}
use inference_budget_control.Budget.{
  NodeSelector, Tracker, allocate, sync_allocation, release_model, set_node_budget,
}
use inference_budget_control.Budget.Accounts.{IsBalanced, used}
use inference_budget_control.Budget.Keys.{IsSingle}
use inference_budget_control.Budget.Balance.{
  allocate-IsBalanced, sync_allocation-IsBalanced, release_model-IsBalanced,
  set_node_budget-IsBalanced,
}

module _ {Q : Type 0} ⦃ops : Quantities Q⦄ where
  -- One call of a method that changes allocations or pools. Selectors have at most one label, and a
  -- budget is set for a pool that has one or that no allocation uses.
  pub data Change : Tracker Q → Tracker Q → Type 0 where
    allocated :
        {t t' : Tracker Q} (draw : ℕ → ℕ) (name namespace memory : String) (selector : NodeSelector)
        (done : Bool)
        → IsSingle selector
        → allocate t draw name namespace memory selector ≡ some (t', done)
        → Change t t'
    synced :
        {t t' : Tracker Q} (draw : ℕ) (name namespace memory : String) (selector : NodeSelector)
        (created : Bool)
        → IsSingle selector
        → sync_allocation t draw name namespace memory selector ≡ some (t', created)
        → Change t t'
    released :
        (t : Tracker Q) (draw : ℕ) (name namespace : String)
        → Change t (release_model t draw name namespace)
    budgeted :
        (t : Tracker Q) (key : String) (total : Q)
        → (lookup key t.node_budgets ≢ none) ⊎ (used key t.allocations ≡ pos 0)
        → Change t (set_node_budget t key total)

  pub data History (t : Tracker Q) : Tracker Q → Type 0 where
    start : History t t
    next : {u v : Tracker Q} → History t u → Change u v → History t v

  Change-IsBalanced : {t t' : Tracker Q} → Change t t' → IsBalanced t → IsBalanced t'
  Change-IsBalanced {t} (allocated draw name namespace memory selector done single e) v =
      allocate-IsBalanced t draw name namespace memory selector single v e
  Change-IsBalanced {t} (synced draw name namespace memory selector created single e) v =
      sync_allocation-IsBalanced t draw name namespace memory selector single v e
  Change-IsBalanced (released t draw name namespace) v =
      release_model-IsBalanced t draw name namespace v
  Change-IsBalanced (budgeted t key total known) v = set_node_budget-IsBalanced t key total known v

  -- Where every selector has at most one label and each pool's Allocated is the sum of the memory
  -- of the allocations in that pool, it still is after any history of Allocate, SyncAllocation,
  -- ReleaseModel and SetNodeBudget, whether they succeed or refuse, with selectors of at most one
  -- label and budgets set for pools that have one or that no allocation uses.
  pub History-IsBalanced : {t t' : Tracker Q} → History t t' → IsBalanced t → IsBalanced t'
  History-IsBalanced start v = v
  History-IsBalanced (next h c) v = Change-IsBalanced c (History-IsBalanced h v)
