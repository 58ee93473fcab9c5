-- ===== src/Budget/Balance.antt =====
-- Every method of internal/budget/tracker.go that changes the tracker keeps the sums of the pools
-- exact.
use inference_budget_control.Prelude.{
  ℕ, String, eq_refl, none, some, ◌≡◌, ◌≢◌, refl, sym, subst, ◌∙◌, Bool, ◌⊎◌, Option-cases, inl,
  inr,
}
use inference_budget_control.Prelude.Int.{pos, int_laws, parts_of_eq}
use inference_budget_control.Prelude.Dict.{
  lookup, lookup-insert, lookup-insert_from, insert-Distinct, delete-Distinct,
}
use inference_budget_control.Prelude.Sums.{sum_by-delete, insert-AllValues, delete-AllValues}
use inference_budget_control.Quantity.{Quantities}
use inference_budget_control.Budget.{
  NodeSelector, ModelAllocation, Tracker, model_key, sync_allocation, set_node_budget, allocate,
  release_existing, release_model, new_tracker, commit, with_total, new_allocation,
}
use inference_budget_control.Budget.Cases.{allocate_cases, sync_allocation_cases}
use inference_budget_control.Budget.Keys.{IsSingle}
use inference_budget_control.Budget.Accounts.{
  weight, used, IsBalanced, credit-insert, release_existing-Accounts,
}

module _ {Q : Type 0} ⦃ops : Quantities Q⦄ where
  -- A new tracker has exact sums.
  pub new_tracker-IsBalanced : IsBalanced {Q = Q} new_tracker
  unfolding new_tracker lookup
  new_tracker-IsBalanced = record { single = tt; distinct = tt; balanced = λ k b f. cc }

  commit-IsBalanced :
      (t : Tracker Q) (draw : ℕ → ℕ) (a : ModelAllocation Q)
      → IsSingle a.node_selector
      → IsBalanced t
      → IsBalanced (commit t draw a)
  unfolding commit
  commit-IsBalanced t draw a s v =
      let key = model_key a.name a.namespace in
      record {
        single = insert-AllValues (λ a. IsSingle a.node_selector) key a t.allocations s v.single;
        distinct = insert-Distinct key a t.allocations v.distinct;
        balanced = credit-insert (draw 2) key a t.allocations _ s (
            release_existing-Accounts (draw 1) key t.allocations t.node_budgets v.single
              v.balanced);
      }

  -- Where every selector has at most one label and each pool's Allocated is the sum of the memory
  -- of the allocations in that pool, it still is after Allocate, whether it allocates or refuses.
  pub allocate-IsBalanced :
      (t : Tracker Q) (draw : ℕ → ℕ) (name namespace memory_str : String) (selector : NodeSelector)
      {t' : Tracker Q} {done : Bool}
      → IsSingle selector
      → IsBalanced t
      → allocate t draw name namespace memory_str selector ≡ some (t', done)
      → IsBalanced t'
  allocate-IsBalanced t draw name namespace memory_str selector s v e =
      elim (allocate_cases t draw name namespace memory_str selector e) [
        | inl refused ↦ subst IsBalanced (sym refused.1) v
        | inr (memory, _, _, _, done) ↦
            subst IsBalanced (sym done)
              (commit-IsBalanced t draw (new_allocation name namespace memory selector) s v)
      ]

  -- SyncAllocation keeps each pool's Allocated equal to the sum of its allocations, whether it
  -- finds the model or adds it, where every selector has at most one label.
  pub sync_allocation-IsBalanced :
      (t : Tracker Q) (draw : ℕ) (name namespace memory_str : String) (selector : NodeSelector)
      {t' : Tracker Q} {created : Bool}
      → IsSingle selector
      → IsBalanced t
      → sync_allocation t draw name namespace memory_str selector ≡ some (t', created)
      → IsBalanced t'
  sync_allocation-IsBalanced t draw name namespace memory_str selector s v e =
      elim (sync_allocation_cases t draw name namespace memory_str selector e) [
        | inl found ↦ subst IsBalanced (sym found.1) v
        | inr (memory, _, _, absent, done) ↦
            let key = model_key name namespace in
            let a = new_allocation name namespace memory selector in
            subst IsBalanced (sym done) (record {
              single =
                  insert-AllValues (λ a. IsSingle a.node_selector) key a t.allocations s v.single;
              distinct = insert-Distinct key a t.allocations v.distinct;
              balanced =
                  credit-insert draw key a t.allocations t.node_budgets s
                    (rw absent (λ k b f. omega (int_laws, parts_of_eq (v.balanced k b f))));
            })
      ]

  -- ReleaseModel keeps each pool's Allocated equal to the sum of its allocations, whether the
  -- model is allocated or not, where every selector has at most one label.
  pub release_model-IsBalanced :
      (t : Tracker Q) (draw : ℕ) (name namespace : String)
      → IsBalanced t
      → IsBalanced (release_model t draw name namespace)
  unfolding release_model release_existing used
  release_model-IsBalanced t draw name namespace v =
      let key = model_key name namespace in
      let gone =
        release_existing-Accounts draw key t.allocations t.node_budgets v.single v.balanced in
      elim (Option-cases (lookup key t.allocations)) [
        | inl absent ↦ rw (absent, release_model) v
        | inr (a, present) ↦
            rw (present, release_model)
              (record {
                single =
                    delete-AllValues (λ a. IsSingle a.node_selector) key t.allocations v.single;
                distinct = delete-Distinct key t.allocations v.distinct;
                balanced = λ k b f. omega (
                  int_laws,
                  parts_of_eq (sum_by-delete (weight k) key t.allocations v.distinct),
                  parts_of_eq (gone k b (rw (present, release_existing) f)),
                );
              })
      ]

  with_total-balanced :
      (t : Tracker Q) (key : String) (total : Q)
      → (lookup key t.node_budgets ≢ none) ⊎ (used key t.allocations ≡ pos 0)
      → IsBalanced t
      → ops.amount (with_total total (lookup key t.node_budgets)).allocated ≡ used key t.allocations
  unfolding with_total
  with_total-balanced t key total known v = elim (Option-cases (lookup key t.node_budgets)) [
    | inr (c, present) ↦ rw (present, with_total) (v.balanced key c present)
    | inl absent ↦ elim known [
      | inl has ↦ absurd (has absent)
      | inr zero_used ↦ rw (absent, with_total) (ops.amount-zero ∙ sym zero_used)
    ]
  ]

  -- SetNodeBudget keeps the sums exact for a pool that has a budget or that no allocation uses.
  pub set_node_budget-IsBalanced :
      (t : Tracker Q) (key : String) (total : Q)
      → (lookup key t.node_budgets ≢ none) ⊎ (used key t.allocations ≡ pos 0)
      → IsBalanced t
      → IsBalanced (set_node_budget t key total)
  unfolding set_node_budget
  set_node_budget-IsBalanced t key total known v = record {
    single = v.single;
    distinct = v.distinct;
    balanced = λ k b f.
        elim (lookup-insert_from key k (with_total total (lookup key t.node_budgets)) t.node_budgets
          f) [
            | inr old ↦ v.balanced k b old
            | inl (same, new) ↦ rw new (
                subst
                  (λ k.
                    ops.amount (with_total total (lookup key t.node_budgets)).allocated
                    ≡ used k t.allocations)
                  same (with_total-balanced t key total known v))
          ];
  }

  -- A budget that is set for the first time, while the allocations of its pool have memory, leaves
  -- the sums inexact.
  pub set_node_budget_unbalanced :
      (t : Tracker Q) (key : String) (total : Q)
      → lookup key t.node_budgets ≡ none
      → used key t.allocations ≢ pos 0
      → ¬ IsBalanced (set_node_budget t key total)
  unfolding set_node_budget
  set_node_budget_unbalanced t key total fresh busy v = busy (
      sym (v.balanced key (with_total total none) (rw (fresh, lookup-insert, eq_refl) refl))
      ∙ ops.amount-zero)
