-- ===== src/Budget/Blocking.antt =====
-- `GetBlockingModels`, `GetAvailableMemory` and `GetAllocatedMemory` of internal/budget/tracker.go
-- against the sums of the pools.
use inference_budget_control.Prelude.{
  ℕ, suc, String, str_eq, eq_iff, some, List, [], ◌∷◌, ◌≡◌, refl, sym, ◌∙◌, Bool-cases, inl, inr,
  All,
}
use inference_budget_control.Prelude.Int.{ℤ, pos, ◌+ℤ◌, ◌-ℤ◌, int_laws, parts_of_eq}
use inference_budget_control.Prelude.Dict.{Dict, lookup}
use inference_budget_control.Prelude.Sums.{AllValues, sum_by}
use inference_budget_control.Quantity.{Quantities}
use inference_budget_control.Budget.{
  NodeSelector, ModelAllocation, NodeBudget, Tracker, node_selector_key, blocking_from,
  get_blocking_models, get_available_memory, get_allocated_memory,
}
use inference_budget_control.Budget.Keys.{IsSingle, node_selector_key-IsSingle}
use inference_budget_control.Budget.Accounts.{used, IsBalanced, weight-key}

module _ {Q : Type 0} ⦃ops : Quantities Q⦄ where
  unfoldable pub memory_sum : List (ModelAllocation Q) → ℤ
  memory_sum [] = pos 0
  memory_sum (a ∷ as') = ops.amount a.memory +ℤ memory_sum as'

  blocking_from-sum :
      (draw : ℕ → ℕ) (key : String) (m : Dict (ModelAllocation Q))
      → AllValues (λ a. IsSingle a.node_selector) m
      → memory_sum (blocking_from draw key m) ≡ used key m
  unfolding blocking_from memory_sum used sum_by
  blocking_from-sum draw key [] s = refl
  blocking_from-sum draw key ((k, a) ∷ m) s =
      let rest = parts_of_eq (blocking_from-sum (λ i. draw (suc i)) key m s.1) in
      let own = weight-key (draw 0) key a s.0 in
      elim (Bool-cases (str_eq (node_selector_key (draw 0) a.node_selector) key)) [
        | inl here ↦ rw (here, blocking_from) (omega (int_laws, rest, parts_of_eq (rw here at own)))
        | inr other ↦
            rw (other, blocking_from) (omega (int_laws, rest, parts_of_eq (rw other at own)))
      ]

  blocking_from-in_pool :
      (draw : ℕ → ℕ) (key : String) (m : Dict (ModelAllocation Q))
      → AllValues (λ a. IsSingle a.node_selector) m
      → All (λ a. node_selector_key 0 a.node_selector ≡ key) (blocking_from draw key m)
  unfolding blocking_from
  blocking_from-in_pool draw key [] s = tt
  blocking_from-in_pool draw key ((k, a) ∷ m) s =
      let rest = blocking_from-in_pool (λ i. draw (suc i)) key m s.1 in
      elim (Bool-cases (str_eq (node_selector_key (draw 0) a.node_selector) key)) [
        | inl here ↦
            rw (here, All)
              (
                node_selector_key-IsSingle 0 (draw 0) a.node_selector s.0 ∙ (eq_iff _ key).0 here,
                rest,
              )
        | inr other ↦ rw (other, All) rest
      ]

  -- The blocking models of a pool are models of that pool, their memory is what the pool has
  -- allocated, and what is available is the budget less their memory, in a tracker with exact sums
  -- and for a selector of at most one label.
  pub get_blocking_models-accounts :
      (t : Tracker Q) (draw draw' : ℕ → ℕ) (selector : NodeSelector) (b : NodeBudget Q)
      → IsSingle selector
      → IsBalanced t
      → lookup (node_selector_key 0 selector) t.node_budgets ≡ some b
      → let blocking = get_blocking_models t draw selector in
        All (λ a. node_selector_key 0 a.node_selector ≡ node_selector_key 0 selector) blocking
        × (memory_sum blocking ≡ ops.amount (get_allocated_memory t (draw' 0) selector))
        × (ops.amount (get_available_memory t (draw' 1) selector)
            ≡ ops.amount b.total -ℤ memory_sum blocking)
  unfolding get_blocking_models get_allocated_memory get_available_memory
  get_blocking_models-accounts t draw draw' selector b s v known =
      let key = node_selector_key-IsSingle in
      let k0 = node_selector_key 0 selector in
      let sum = blocking_from-sum (λ i. draw (suc i)) k0 t.allocations v.single in
      let own = v.balanced k0 b known in
      rw
        (
          key (draw 0) 0 selector s,
          key (draw' 0) 0 selector s,
          key (draw' 1) 0 selector s,
          known,
          get_allocated_memory,
          get_available_memory,
        )
        (
          blocking_from-in_pool (λ i. draw (suc i)) k0 t.allocations v.single,
          sum ∙ sym own,
          omega (
            int_laws,
            parts_of_eq sum,
            parts_of_eq own,
            parts_of_eq (ops.amount-sub b.total b.allocated),
          ),
        )
