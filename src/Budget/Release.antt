-- ===== src/Budget/Release.antt =====
-- `Allocate` and then `ReleaseModel` of internal/budget/tracker.go: the tracker is as it was.
use inference_budget_control.Prelude.{
  ℕ, String, str_eq, eq_iff, eq_refl, Option, some, none, Bool, ◌≡◌, refl, ap, inl, inr, arith,
  if◌then◌else◌, true, false,
}
use inference_budget_control.Prelude.Int.{ℤ, int_laws, parts_of_eq}
use inference_budget_control.Prelude.Dict.{
  Dict, lookup, insert, modify, lookup-insert, lookup-delete, lookup-modify, map_some,
}
use inference_budget_control.Quantity.{Quantities}
use inference_budget_control.Budget.{
  NodeSelector, ModelAllocation, NodeBudget, Tracker, node_selector_key, model_key, allocate,
  release_model, commit, release_existing, new_allocation, credit, debit,
}
use inference_budget_control.Budget.Cases.{allocate_cases}
use inference_budget_control.Budget.Keys.{IsSingle, node_selector_key-IsSingle}

module _ {Q : Type 0} ⦃ops : Quantities Q⦄ where
  -- What a pool's entry says, as numbers.
  abbrev pub pool_numbers : Option (NodeBudget Q) → Option (ℤ × ℤ)
  pool_numbers none = none
  pool_numbers (some b) = some (ops.amount b.total, ops.amount b.allocated)

  undo :
      (memory : Q) (hit : Bool) (o : Option (NodeBudget Q))
      → pool_numbers (
          if hit
          then map_some (debit memory) (if hit then map_some (credit memory) o else o)
          else (if hit then map_some (credit memory) o else o))
        ≡ pool_numbers o
  undo memory false o = refl
  undo memory true none = refl
  undo memory true (some b) =
      ap (λ x. some (ops.amount b.total, x))
        (omega (
          int_laws,
          parts_of_eq (ops.amount-sub (ops.add b.allocated memory) memory),
          parts_of_eq (ops.amount-add b.allocated memory),
        ))

  unchanged_pool :
      (key k : String) (memory : Q) (pools : Dict (NodeBudget Q))
      → pool_numbers (lookup k (modify key (debit memory) (modify key (credit memory) pools)))
        ≡ pool_numbers (lookup k pools)
  unchanged_pool key k memory pools =
      rw (lookup-modify key k (debit memory) (modify key (credit memory) pools)) (
        rw (lookup-modify key k (credit memory) pools)
          (undo memory (str_eq key k) (lookup k pools)))

  commit-release :
      (t : Tracker Q) (draw : ℕ → ℕ) (i : ℕ) (a : ModelAllocation Q)
      → IsSingle a.node_selector
      → lookup (model_key a.name a.namespace) t.allocations ≡ none
      → (k : String)
      → (lookup k (release_model (commit t draw a) i a.name a.namespace).allocations
          ≡ lookup k t.allocations)
        × (pool_numbers
              (lookup k (release_model (commit t draw a) i a.name a.namespace).node_budgets)
            ≡ pool_numbers (lookup k t.node_budgets))
  unfolding commit release_model release_existing
  commit-release t draw i a s absent k =
      let key = model_key a.name a.namespace in
      let there : lookup key (insert key a t.allocations) ≡ some a =
        rw (lookup-insert key key a t.allocations, eq_refl key) refl in
      rw
        (
          there,
          release_model,
          absent,
          release_existing,
          node_selector_key-IsSingle i (draw 2) a.node_selector s,
        )
        (
          rw (lookup-delete key k (insert key a t.allocations), lookup-insert key k a t.allocations)
              (ground (arith, eq_iff key k)),
          unchanged_pool (node_selector_key (draw 2) a.node_selector) k a.memory t.node_budgets,
        )

  -- Releasing a model that Allocate has just admitted, and that was not allocated before, gives
  -- back every allocation and the numbers of every pool, for a selector of at most one label.
  pub release_model-allocate :
      (t : Tracker Q) (draw : ℕ → ℕ) (i : ℕ) (name namespace memory_str : String)
      (selector : NodeSelector) {t' : Tracker Q} {done : Bool}
      → IsSingle selector
      → lookup (model_key name namespace) t.allocations ≡ none
      → allocate t draw name namespace memory_str selector ≡ some (t', done)
      → done ≡ true
      → (k : String)
      → (lookup k (release_model t' i name namespace).allocations ≡ lookup k t.allocations)
        × (pool_numbers (lookup k (release_model t' i name namespace).node_budgets)
            ≡ pool_numbers (lookup k t.node_budgets))
  release_model-allocate t draw i name namespace memory_str selector {t'} s absent e ok k =
      elim (allocate_cases t draw name namespace memory_str selector e) [
        | inl refused ↦ cc (refused.0, ok)
        | inr (memory, _, _, _, done) ↦
            rw done
              (commit-release t draw i (new_allocation name namespace memory selector) s absent k)
      ]
