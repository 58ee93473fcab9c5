-- ===== src/Budget/Total.antt =====
-- `GetTotalAllocatedMemory` of internal/budget/tracker.go: the int64 sum over all models.
use inference_budget_control.Prelude.{
  ℕ, String, str_eq, [], ◌∷◌, ◌≡◌, ◌∙◌, Bool-cases, inl, inr, arith, Option-cases,
}
use inference_budget_control.Prelude.Int.{
  ℤ, pos, ◌+ℤ◌, ◌≤ℤ◌, int_laws, parts_of_eq, int64, int64_of_range, max_int64,
}
use inference_budget_control.Prelude.Dict.{Dict, lookup, insert, delete}
use inference_budget_control.Prelude.Sums.{
  AllValues, sum_by, sum_by-insert, insert-AllValues, delete-AllValues, lookup-AllValues,
}
use inference_budget_control.Quantity.{Quantities}
use inference_budget_control.Budget.{
  ModelAllocation, Tracker, total_from, get_total_allocated_memory, release_model, model_key,
}

module _ {Q : Type 0} ⦃ops : Quantities Q⦄ where
  abbrev pub bytes : ModelAllocation Q → ℤ
  bytes a = ops.value a.memory

  -- The sum without the wrap-around.
  unfoldable pub exact_total : Dict (ModelAllocation Q) → ℤ
  exact_total m = sum_by (λ a. bytes a) m

  -- No model has a negative memory, and all together have at most `limit` bytes.
  pub record IsFunded (limit : ℤ) (m : Dict (ModelAllocation Q)) : Type 0 where
    pub nonneg : AllValues (λ a. pos 0 ≤ℤ bytes a) m
    pub within : exact_total m ≤ℤ limit

  pub exact_total-nonneg :
      (m : Dict (ModelAllocation Q)) → AllValues (λ a. pos 0 ≤ℤ bytes a) m → pos 0 ≤ℤ exact_total m
  unfolding exact_total sum_by
  exact_total-nonneg [] h = omega arith
  exact_total-nonneg ((k, a) ∷ m) h = omega (int_laws, h.0, exact_total-nonneg m h.1)

  total_from-exact :
      (total : ℤ) (m : Dict (ModelAllocation Q))
      → pos 0 ≤ℤ total
      → AllValues (λ a. pos 0 ≤ℤ bytes a) m
      → total +ℤ exact_total m ≤ℤ max_int64
      → total_from total m ≡ total +ℤ exact_total m
  unfolding total_from exact_total sum_by
  total_from-exact total [] p h le = omega int_laws
  total_from-exact total ((k, a) ∷ m) p h le =
      let rest = exact_total-nonneg m h.1 in
      let fits : int64 (total +ℤ bytes a) ≡ total +ℤ bytes a =
        int64_of_range (total +ℤ bytes a) (omega (int_laws, h.0)) (omega (int_laws, h.0)) in
      rw fits (
        total_from-exact (total +ℤ bytes a) m (omega (int_laws, h.0)) h.1 (omega int_laws)
        ∙ omega int_laws)

  -- The int64 sum is the exact one while the limit is one of int64.
  pub get_total-exact :
      (limit : ℤ) (t : Tracker Q)
      → limit ≤ℤ max_int64
      → IsFunded limit t.allocations
      → get_total_allocated_memory t ≡ exact_total t.allocations
  unfolding get_total_allocated_memory
  get_total-exact limit t small v =
      total_from-exact (pos 0) t.allocations (omega arith) v.nonneg (omega (int_laws, v.within))
      ∙ omega int_laws

  exact_total-delete :
      (k : String) (m : Dict (ModelAllocation Q))
      → AllValues (λ a. pos 0 ≤ℤ bytes a) m
      → exact_total (delete k m) ≤ℤ exact_total m
  unfolding exact_total sum_by delete
  exact_total-delete k [] h = omega arith
  exact_total-delete k ((j, a) ∷ m) h =
      let rest = exact_total-delete k m h.1 in
      elim (Bool-cases (str_eq j k)) [
        | inl same ↦ rw same (omega (int_laws, h.0))
        | inr other ↦ rw other (omega int_laws)
      ]

  pub release_model-IsFunded :
      (limit : ℤ) (t : Tracker Q) (draw : ℕ) (name namespace : String)
      → IsFunded limit t.allocations
      → IsFunded limit (release_model t draw name namespace).allocations
  unfolding release_model
  release_model-IsFunded limit t draw name namespace v =
      let key = model_key name namespace in
      elim (Option-cases (lookup key t.allocations)) [
        | inl absent ↦ rw (absent, release_model) v
        | inr (a, present) ↦
            let less = exact_total-delete key t.allocations v.nonneg in
            rw (present, release_model)
              (record {
                nonneg = delete-AllValues (λ a. pos 0 ≤ℤ bytes a) key t.allocations v.nonneg;
                within = omega (int_laws, v.within);
              })
      ]

  -- A model that is added, or replaced, where the limit leaves room for it.
  pub insert-IsFunded :
      (limit : ℤ) (key : String) (a : ModelAllocation Q) (m : Dict (ModelAllocation Q))
      → pos 0 ≤ℤ bytes a
      → exact_total m +ℤ bytes a ≤ℤ limit
      → AllValues (λ a. pos 0 ≤ℤ bytes a) m
      → IsFunded limit (insert key a m)
  unfolding exact_total
  insert-IsFunded limit key a m p room h = record {
    nonneg = insert-AllValues (λ a. pos 0 ≤ℤ bytes a) key a m p h;
    within =
        let sums = parts_of_eq (sum_by-insert (λ a. bytes a) key a m) in
        elim (Option-cases (lookup key m)) [
          | inl absent ↦
              omega (int_laws, parts_of_eq (rw absent at (sum_by-insert (λ a. bytes a) key a m)))
          | inr (b, present) ↦
              let old = lookup-AllValues (λ a. pos 0 ≤ℤ bytes a) key m h present in
              omega (int_laws, parts_of_eq (rw present at (sum_by-insert (λ a. bytes a) key a m)))
        ];
  }
