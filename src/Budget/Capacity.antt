-- ===== src/Budget/Capacity.antt =====
-- What `CanAllocate` and `Allocate` of internal/budget/tracker.go decide: whether a pool's budget
-- holds.
use inference_budget_control.Prelude.{
  ℕ, String, none, some, ◌≡◌, ◌↔◌, ◌∙◌, Bool, true, ◌>>=◌, arith,
}
use inference_budget_control.Prelude.Int.{◌+ℤ◌, ◌≤ℤ◌, int_laws, parts_of_eq}
use inference_budget_control.Prelude.Dict.{lookup}
use inference_budget_control.Quantity.{Quantities, is_ge_iff, is_le_iff}
use inference_budget_control.Budget.{
  NodeSelector, NodeBudget, Tracker, model_key, node_selector_key, can_allocate, allocate,
  can_allocate_locked, fits_new, fits_update,
}
use inference_budget_control.Budget.Keys.{IsSingle, node_selector_key-IsSingle}

module _ {Q : Type 0} ⦃ops : Quantities Q⦄ where
  pub fits_new_iff :
      (memory : Q) (b : NodeBudget Q)
      → (fits_new memory (some b) ≡ true)
        ↔ (ops.amount b.allocated +ℤ ops.amount memory ≤ℤ ops.amount b.total)
  unfolding fits_new
  fits_new_iff memory b = (
    (λ h.
        let le = (is_ge_iff (ops.sub b.total b.allocated) memory).0 h in
        omega (int_laws, parts_of_eq (ops.amount-sub b.total b.allocated))),
    (λ h.
        (is_ge_iff (ops.sub b.total b.allocated) memory).1
          (omega (int_laws, parts_of_eq (ops.amount-sub b.total b.allocated)))),
  )

  pub fits_update_iff :
      (old memory : Q) (b : NodeBudget Q)
      → (fits_update old memory b ≡ true)
        ↔ (ops.amount b.allocated +ℤ ops.amount memory ≤ℤ ops.amount b.total +ℤ ops.amount old)
  unfolding fits_update
  fits_update_iff old memory b =
      let s = parts_of_eq (ops.amount-sub b.allocated old) in
      let a = parts_of_eq (ops.amount-add (ops.sub b.allocated old) memory) in
      (
        (λ h.
            let le = (is_le_iff (ops.add (ops.sub b.allocated old) memory) b.total).0 h in
            omega int_laws),
        (λ h. (is_le_iff (ops.add (ops.sub b.allocated old) memory) b.total).1 (omega int_laws)),
      )

  can_allocate-locked :
      (t : Tracker Q) (draw : ℕ → ℕ) (i : ℕ) (name namespace memory_str : String)
      (selector : NodeSelector)
      → IsSingle selector
      → can_allocate t draw name namespace memory_str selector
        ≡ can_allocate_locked t i name namespace memory_str selector
  unfolding can_allocate can_allocate_locked fits_new
  can_allocate-locked t draw i name namespace memory_str selector s = ground (
    arith,
    node_selector_key-IsSingle (draw 0) i selector s,
    node_selector_key-IsSingle (draw 1) i selector s,
  )

  -- CanAllocate answers what Allocate then does, for a selector of at most one label.
  pub can_allocate-allocate :
      (t : Tracker Q) (draw draw' : ℕ → ℕ) (name namespace memory_str : String)
      (selector : NodeSelector)
      → IsSingle selector
      → can_allocate t draw name namespace memory_str selector
        ≡ (allocate t draw' name namespace memory_str selector >>= λ r. some r.1)
  unfolding allocate can_allocate_locked
  can_allocate-allocate t draw draw' name namespace memory_str selector s =
      can_allocate-locked t draw (draw' 0) name namespace memory_str selector s ∙ ground arith

  -- Allocate of a new model, in a pool with a budget, succeeds exactly when the pool's sum and the
  -- request together are within the budget.
  pub allocate_decides :
      (t : Tracker Q) (draw : ℕ → ℕ) (name namespace memory_str : String) (selector : NodeSelector)
      (memory : Q) (b : NodeBudget Q) {t' : Tracker Q} {done : Bool}
      → ops.parse memory_str ≡ some memory
      → lookup (model_key name namespace) t.allocations ≡ none
      → lookup (node_selector_key (draw 0) selector) t.node_budgets ≡ some b
      → allocate t draw name namespace memory_str selector ≡ some (t', done)
      → (done ≡ true) ↔ (ops.amount b.allocated +ℤ ops.amount memory ≤ℤ ops.amount b.total)
  unfolding allocate can_allocate_locked
  allocate_decides t draw name namespace memory_str selector memory b {t'} {done} p absent known e =
      let is_new : done ≡ fits_new memory (some b) = ground arith in
      rw is_new (fits_new_iff memory b)
