-- ===== src/Budget/Limits.antt =====
-- `Allocate` and `ReleaseModel` of internal/budget/tracker.go against the budgets of the pools:
-- when every pool stays within its budget, and when a pool does not.
use inference_budget_control.Prelude.{
  ℕ, String, str_eq, eq_iff, eq_refl, none, some, ◌≡◌, ◌≢◌, sym, subst, ◌∙◌, Bool, true, Bool-cases,
  Option-cases, inl, inr, arith,
}
use inference_budget_control.Prelude.Int.{pos, ◌+ℤ◌, ◌≤ℤ◌, int_laws, parts_of_eq}
use inference_budget_control.Prelude.Dict.{lookup, modify, lookup-modify_from, lookup-modify}
use inference_budget_control.Quantity.{Quantities}
use inference_budget_control.Budget.{
  NodeSelector, ModelAllocation, NodeBudget, Tracker, model_key, node_selector_key, credit, debit,
  allocate, can_allocate_locked, commit, new_allocation, fits_new, fits_update, release_existing,
  release_model,
}
use inference_budget_control.Budget.Cases.{allocate_cases}
use inference_budget_control.Budget.Capacity.{fits_new_iff, fits_update_iff}
use inference_budget_control.Budget.Keys.{IsSingle, node_selector_key-IsSingle}

module _ {Q : Type 0} ⦃ops : Quantities Q⦄ where
  -- No pool has more allocated than its budget.
  abbrev pub IsWithin : Tracker Q → Type 0
  IsWithin t =
      (k : String) (b : NodeBudget Q)
      → lookup k t.node_budgets ≡ some b
      → ops.amount b.allocated ≤ℤ ops.amount b.total

  module _ (t : Tracker Q) (name namespace memory_str : String) (selector : NodeSelector)
      (memory : Q) (i : ℕ) (p : ops.parse memory_str ≡ some memory)
      (fits : can_allocate_locked t i name namespace memory_str selector ≡ some true) where
    fits_absent :
        {b : NodeBudget Q}
        → lookup (model_key name namespace) t.allocations ≡ none
        → lookup (node_selector_key i selector) t.node_budgets ≡ some b
        → fits_new memory (some b) ≡ true
    unfolding can_allocate_locked
    fits_absent absent known = ground arith

    fits_present :
        {b : NodeBudget Q} {a : ModelAllocation Q}
        → lookup (model_key name namespace) t.allocations ≡ some a
        → lookup (node_selector_key i selector) t.node_budgets ≡ some b
        → fits_update a.memory memory b ≡ true
    unfolding can_allocate_locked
    fits_present present known = ground arith

  -- The pools after an admitted call, where the model is new.
  new-within :
      (key : String) (memory : Q) (t : Tracker Q)
      → IsWithin t
      → ((c : NodeBudget Q) → lookup key t.node_budgets ≡ some c → fits_new memory (some c) ≡ true)
      → (k : String) (b : NodeBudget Q)
      → lookup k (modify key (credit memory) t.node_budgets) ≡ some b
      → ops.amount b.allocated ≤ℤ ops.amount b.total
  new-within key memory t v fits k b f =
      let (c, was, eq) = lookup-modify_from key k (credit memory) t.node_budgets f in
      elim (Bool-cases (str_eq key k)) [
        | inr other ↦ rw (rw other at eq) (v k c was)
        | inl same ↦
            let le = (fits_new_iff memory c).0 (fits c (rw ((eq_iff key k).0 same) was)) in
            rw (rw same at eq) (omega (int_laws, parts_of_eq (ops.amount-add c.allocated memory)))
      ]

  -- The pools after an admitted call, where the model was allocated in the same pool.
  update-within :
      (key : String) (old memory : Q) (t : Tracker Q)
      → IsWithin t
      → ((c : NodeBudget Q) → lookup key t.node_budgets ≡ some c → fits_update old memory c ≡ true)
      → (k : String) (b : NodeBudget Q)
      → lookup k (modify key (credit memory) (modify key (debit old) t.node_budgets)) ≡ some b
      → ops.amount b.allocated ≤ℤ ops.amount b.total
  update-within key old memory t v fits k b f =
      let (d, was', eq') =
        lookup-modify_from key k (credit memory) (modify key (debit old) t.node_budgets) f in
      let (c, was, eq) = lookup-modify_from key k (debit old) t.node_budgets was' in
      elim (Bool-cases (str_eq key k)) [
        | inr other ↦ rw (rw other at eq', rw other at eq) (v k c was)
        | inl same ↦
            let le = (fits_update_iff old memory c).0 (fits c (rw ((eq_iff key k).0 same) was)) in
            rw (rw same at eq', rw same at eq)
              (omega (
                int_laws,
                parts_of_eq (ops.amount-add (ops.sub c.allocated old) memory),
                parts_of_eq (ops.amount-sub c.allocated old),
              ))
      ]

  -- Allocate keeps every pool within its budget, whether it allocates or refuses, for a selector
  -- of at most one label and a model that is new or stays in its pool.
  pub allocate-IsWithin :
      (t : Tracker Q) (draw : ℕ → ℕ) (name namespace memory_str : String) (selector : NodeSelector)
      {t' : Tracker Q} {done : Bool}
      → IsSingle selector
      → ((a : ModelAllocation Q)
          → lookup (model_key name namespace) t.allocations ≡ some a
          → (i : ℕ) → node_selector_key i a.node_selector ≡ node_selector_key 0 selector)
      → IsWithin t
      → allocate t draw name namespace memory_str selector ≡ some (t', done)
      → IsWithin t'
  unfolding commit release_existing
  allocate-IsWithin t draw name namespace memory_str selector s stays v e =
      elim (allocate_cases t draw name namespace memory_str selector e) [
        | inl refused ↦ subst IsWithin (sym refused.1) v
        | inr (memory, _, p, fits, done) ↦
            let key = node_selector_key-IsSingle (draw 0) (draw 2) selector s in
            subst IsWithin (sym done)
              (elim (Option-cases (lookup (model_key name namespace) t.allocations)) [
                | inl absent ↦
                    rw (absent, release_existing)
                      (new-within (node_selector_key (draw 2) selector) memory t v λ c known.
                        fits_absent t name namespace memory_str selector memory (draw 0) p fits
                          absent (rw key known))
                | inr (a, present) ↦
                    rw
                      (
                        present,
                        release_existing,
                        stays a present (draw 1) ∙ node_selector_key-IsSingle 0 (draw 2) selector s,
                      )
                      (update-within (node_selector_key (draw 2) selector) a.memory memory t v
                        λ c known.
                          fits_present t name namespace memory_str selector memory (draw 0) p fits
                            present (rw key known))
              ])
      ]

  -- ReleaseModel keeps every pool within its budget, when the model's memory is not negative.
  pub release_model-IsWithin :
      (t : Tracker Q) (draw : ℕ) (name namespace : String)
      → ((a : ModelAllocation Q)
          → lookup (model_key name namespace) t.allocations ≡ some a
          → pos 0 ≤ℤ ops.amount a.memory)
      → IsWithin t
      → IsWithin (release_model t draw name namespace)
  unfolding release_model
  release_model-IsWithin t draw name namespace positive v =
      elim (Option-cases (lookup (model_key name namespace) t.allocations)) [
        | inl absent ↦ rw (absent, release_model) v
        | inr (a, present) ↦
            rw (present, release_model)
              (λ k b f.
                let key = node_selector_key draw a.node_selector in
                let (c, was, eq) = lookup-modify_from key k (debit a.memory) t.node_budgets f in
                let le = v k c was in
                let pos_mem = positive a present in
                elim (Bool-cases (str_eq key k)) [
                  | inr other ↦ rw (rw other at eq) le
                  | inl same ↦
                      rw (rw same at eq)
                        (omega (int_laws, parts_of_eq (ops.amount-sub c.allocated a.memory)))
                ])
      ]

  -- The pool that a model moves to, after the call.
  moved_pool :
      (t : Tracker Q) (draw : ℕ → ℕ) (name namespace : String) (selector : NodeSelector)
      (memory : Q) (a : ModelAllocation Q) (b : NodeBudget Q)
      → IsSingle selector
      → IsSingle a.node_selector
      → lookup (model_key name namespace) t.allocations ≡ some a
      → lookup (node_selector_key 0 selector) t.node_budgets ≡ some b
      → node_selector_key 0 a.node_selector ≢ node_selector_key 0 selector
      → lookup
          (node_selector_key 0 selector)
          (commit t draw (new_allocation name namespace memory selector)).node_budgets
        ≡ some (credit memory b)
  unfolding commit release_existing
  moved_pool t draw name namespace selector memory a b s sa present known apart =
      let there = node_selector_key 0 selector in
      let here = node_selector_key 0 a.node_selector in
      rw
        (
          present,
          release_existing,
          node_selector_key-IsSingle (draw 2) 0 selector s,
          node_selector_key-IsSingle (draw 1) 0 a.node_selector sa,
        )
        (ground (
          arith,
          lookup-modify there there (credit memory) (modify here (debit a.memory) t.node_budgets),
          lookup-modify here there (debit a.memory) t.node_budgets,
          eq_refl there,
          eq_iff here there,
        ))

  -- A model that is allocated in one pool and asks for another, which has room for the difference
  -- of its new and its old memory and not for the new one, is admitted and leaves that pool over
  -- its budget; both selectors have at most one label.
  pub allocate_moved_exceeds :
      (t : Tracker Q) (draw : ℕ → ℕ) (name namespace memory_str : String) (selector : NodeSelector)
      (memory : Q) (a : ModelAllocation Q) (b : NodeBudget Q)
      → IsSingle selector
      → IsSingle a.node_selector
      → ops.parse memory_str ≡ some memory
      → lookup (model_key name namespace) t.allocations ≡ some a
      → lookup (node_selector_key 0 selector) t.node_budgets ≡ some b
      → node_selector_key 0 a.node_selector ≢ node_selector_key 0 selector
      → ops.amount b.allocated +ℤ ops.amount memory ≤ℤ ops.amount b.total +ℤ ops.amount a.memory
      → ¬ (ops.amount b.allocated +ℤ ops.amount memory ≤ℤ ops.amount b.total)
      → (t' : Tracker Q) × (allocate t draw name namespace memory_str selector ≡ some (t', true))
        × (¬ IsWithin t')
  unfolding allocate can_allocate_locked
  allocate_moved_exceeds t draw name namespace memory_str selector memory a b s sa p present known
        apart le over =
      (
        commit t draw (new_allocation name namespace memory selector),
        (let known' = rw (node_selector_key-IsSingle 0 (draw 0) selector s) at known in
            let fits = (fits_update_iff a.memory memory b).1 le in ground arith),
        λ v.
            let full =
              v (node_selector_key 0 selector) (credit memory b)
                (moved_pool t draw name namespace selector memory a b s sa present known apart) in
            over (omega (int_laws, parts_of_eq (ops.amount-add b.allocated memory))),
      )
