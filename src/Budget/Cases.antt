-- ===== src/Budget/Cases.antt =====
-- What a call of a fallible method of internal/budget/tracker.go did, by its result.
use inference_budget_control.Prelude.{
  ℕ, String, none, some, ◌≡◌, ◌∙◌, ap, Bool, true, false, Bool-cases, ◌⊎◌, Option-cases, inl, inr,
  >>=-eq-some, arith,
}
use inference_budget_control.Prelude.Dict.{lookup, insert, modify}
use inference_budget_control.Quantity.{Quantities}
use inference_budget_control.Budget.{
  NodeSelector, Tracker, model_key, node_selector_key, credit, sync_allocation, allocate,
  can_allocate_locked, commit, new_allocation,
}

module _ {Q : Type 0} ⦃ops : Quantities Q⦄ (t : Tracker Q) where
  -- A call of `Allocate` that returned refused and changed nothing, or committed.
  pub allocate_cases :
      (draw : ℕ → ℕ) (name namespace memory_str : String) (selector : NodeSelector) {t' : Tracker Q}
      {done : Bool}
      → allocate t draw name namespace memory_str selector ≡ some (t', done)
      → ((done ≡ false) × (t' ≡ t))
        ⊎ ((memory : Q) × (done ≡ true)
            × (ops.parse memory_str ≡ some memory)
            × (can_allocate_locked t (draw 0) name namespace memory_str selector ≡ some true)
            × (t' ≡ commit t draw (new_allocation name namespace memory selector)))
  unfolding allocate
  allocate_cases draw name namespace memory_str selector {t'} {done} e =
      let (fits, c, r) =
        >>=-eq-some (can_allocate_locked t (draw 0) name namespace memory_str selector) _ e in
      let (memory, p, q) = >>=-eq-some (ops.parse memory_str) _ r in
      elim (Bool-cases fits) [
        | inl y ↦ inr (memory, ground arith, p, c ∙ ap some y, ground arith)
        | inr n ↦ inl (ground arith, ground arith)
      ]

  -- A call of `SyncAllocation` that returned found the model allocated, or added it.
  pub sync_allocation_cases :
      (draw : ℕ) (name namespace memory_str : String) (selector : NodeSelector) {t' : Tracker Q}
      {created : Bool}
      → sync_allocation t draw name namespace memory_str selector ≡ some (t', created)
      → ((created ≡ false) × (t' ≡ t))
        ⊎ ((memory : Q) × (created ≡ true)
            × (ops.parse memory_str ≡ some memory)
            × (lookup (model_key name namespace) t.allocations ≡ none)
            × (t' ≡ record t {
              allocations =
                  insert
                    (model_key name namespace)
                    (new_allocation name namespace memory selector)
                    t.allocations;
              node_budgets =
                  modify (node_selector_key draw selector) (credit memory) t.node_budgets;
            }))
  unfolding sync_allocation
  sync_allocation_cases draw name namespace memory_str selector {t'} {created} e =
      elim (Option-cases (lookup (model_key name namespace) t.allocations)) [
        | inl absent ↦
            let r = rw (absent, sync_allocation) at e in
            let (memory, p, q) = >>=-eq-some (ops.parse memory_str) _ r in
            inr (memory, ground arith, p, absent, ground arith)
        | inr (a, present) ↦ inl (ground arith, ground arith)
      ]
