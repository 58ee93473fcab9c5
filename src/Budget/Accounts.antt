-- ===== src/Budget/Accounts.antt =====
-- The sums of internal/budget/tracker.go: the `Allocated` of a pool is the sum of the memory of the
-- allocations with that pool's key.
use inference_budget_control.Prelude.{
  ℕ, String, str_eq, Option, some, ◌≡◌, Bool-cases, Option-cases, inl, inr, if◌then◌else◌,
}
use inference_budget_control.Prelude.Int.{ℤ, pos, ◌+ℤ◌, ◌-ℤ◌, int_laws, parts_of_eq}
use inference_budget_control.Prelude.Dict.{
  Dict, lookup, insert, modify, Distinct, lookup-modify_from,
}
use inference_budget_control.Prelude.Sums.{
  sum_by, weight_of, sum_by-insert, AllValues, lookup-AllValues,
}
use inference_budget_control.Quantity.{Quantities}
use inference_budget_control.Budget.{
  ModelAllocation, NodeBudget, Tracker, node_selector_key, credit, debit, release_existing,
}
use inference_budget_control.Budget.Keys.{IsSingle, node_selector_key-IsSingle}

module _ {Q : Type 0} ⦃ops : Quantities Q⦄ where
  -- What an allocation takes from the pool with key `k`.
  unfoldable pub weight : String → ModelAllocation Q → ℤ
  weight k a = if str_eq (node_selector_key 0 a.node_selector) k then ops.amount a.memory else pos 0

  unfoldable pub used : String → Dict (ModelAllocation Q) → ℤ
  used k m = sum_by (weight k) m

  -- The pools' sums are those of a given function.
  abbrev pub Accounts : Dict (NodeBudget Q) → (String → ℤ) → Type 0
  Accounts pools w =
      (k : String) (b : NodeBudget Q) → lookup k pools ≡ some b → ops.amount b.allocated ≡ w k

  pub record IsBalanced (t : Tracker Q) : Type 0 where
    pub single : AllValues (λ a. IsSingle a.node_selector) t.allocations
    pub distinct : Distinct t.allocations
    pub balanced : Accounts t.node_budgets (λ k. used k t.allocations)

  -- A change of the pool under `key` that gives `y` and takes `x`.
  pub modify-Accounts :
      (key : String) (f : NodeBudget Q → NodeBudget Q) (x y : ℤ)
      → ((c : NodeBudget Q) → ops.amount (f c).allocated +ℤ x ≡ ops.amount c.allocated +ℤ y)
      → (pools : Dict (NodeBudget Q)) (w w' : String → ℤ) → Accounts pools w
      → ((k : String)
          → w' k +ℤ (if str_eq key k then x else pos 0)
            ≡ w k +ℤ (if str_eq key k then y else pos 0))
      → Accounts (modify key f pools) w'
  modify-Accounts key f x y change pools w w' h e k b found =
      let (c, was, eq) = lookup-modify_from key k f pools found in
      let old : ops.amount c.allocated ≡ w k = h k c was in
      elim (Bool-cases (str_eq key k)) [
        | inl t ↦
            rw (rw t at eq) (
              omega
                (int_laws, parts_of_eq (change c), parts_of_eq old, parts_of_eq (rw t at (e k))))
        | inr t ↦ rw (rw t at eq) (omega (int_laws, parts_of_eq old, parts_of_eq (rw t at (e k))))
      ]

  credit-amount :
      (memory : Q) (c : NodeBudget Q)
      → ops.amount (credit memory c).allocated +ℤ pos 0
        ≡ ops.amount c.allocated +ℤ ops.amount memory
  credit-amount memory c = omega (int_laws, parts_of_eq (ops.amount-add c.allocated memory))

  pub debit-amount :
      (memory : Q) (c : NodeBudget Q)
      → ops.amount (debit memory c).allocated +ℤ ops.amount memory ≡ ops.amount c.allocated +ℤ pos 0
  debit-amount memory c = omega (int_laws, parts_of_eq (ops.amount-sub c.allocated memory))

  -- What the allocation of a model, if there is one, takes from the pool `k`.
  abbrev pub held : String → Option (ModelAllocation Q) → ℤ
  held k o = weight_of (weight k) o

  pub weight-key :
      (i : ℕ) (k : String) (a : ModelAllocation Q)
      → IsSingle a.node_selector
      → weight k a
        ≡ (if str_eq (node_selector_key i a.node_selector) k then ops.amount a.memory else pos 0)
  unfolding weight
  weight-key i k a s = rw (node_selector_key-IsSingle 0 i a.node_selector s)

  -- An allocation that is added, or replaced, is credited to its pool.
  pub credit-insert :
      (i : ℕ) (key : String) (a : ModelAllocation Q) (m : Dict (ModelAllocation Q))
      (pools : Dict (NodeBudget Q))
      → IsSingle a.node_selector
      → Accounts pools (λ k. used k m -ℤ held k (lookup key m))
      → Accounts
          (modify (node_selector_key i a.node_selector) (credit a.memory) pools)
          (λ k. used k (insert key a m))
  unfolding used
  credit-insert i key a m pools s h =
      modify-Accounts (node_selector_key i a.node_selector) (credit a.memory) (pos 0)
        (ops.amount a.memory) (credit-amount a.memory) pools _ _ h
        λ k.
          let ins = parts_of_eq (sum_by-insert (weight k) key a m) in
          let own = weight-key i k a s in
          elim (Bool-cases (str_eq (node_selector_key i a.node_selector) k)) [
            | inl t ↦ rw t (omega (int_laws, ins, parts_of_eq (rw t at own)))
            | inr t ↦ rw t (omega (int_laws, ins, parts_of_eq (rw t at own)))
          ]

  pub release_existing-Accounts :
      (i : ℕ) (key : String) (m : Dict (ModelAllocation Q)) (pools : Dict (NodeBudget Q))
      → AllValues (λ a. IsSingle a.node_selector) m
      → Accounts pools (λ k. used k m)
      → Accounts (release_existing i (lookup key m) pools) (λ k. used k m -ℤ held k (lookup key m))
  unfolding release_existing
  release_existing-Accounts i key m pools s h = elim (Option-cases (lookup key m)) [
    | inl e ↦ rw (e, release_existing) (λ k b f. omega (int_laws, parts_of_eq (h k b f)))
    | inr (a, e) ↦
        rw (e, release_existing)
          (modify-Accounts (node_selector_key i a.node_selector) (debit a.memory)
            (ops.amount a.memory) (pos 0) (debit-amount a.memory) pools _ _ h
            λ k.
              let own =
                weight-key i k a (lookup-AllValues (λ a. IsSingle a.node_selector) key m s e) in
              elim (Bool-cases (str_eq (node_selector_key i a.node_selector) k)) [
                | inl t ↦ rw t (omega (int_laws, parts_of_eq (rw t at own)))
                | inr t ↦ rw t (omega (int_laws, parts_of_eq (rw t at own)))
              ])
  ]
