-- ===== src/Proxy/Room.antt =====
-- internal/proxy/handler.go: eviction under the global memory limit, and the room that it makes.
use inference_budget_control.Prelude.{
  some, List, [], ◌∷◌, ◌≡◌, sym, subst, Bool, true, false, not, ◌&&◌, if◌then◌else◌, arith,
  Option-cases, Bool-cases, inl, inr,
}
use inference_budget_control.Prelude.Int.{
  ℤ, pos, ◌+ℤ◌, ◌≤ℤ◌, int64, leb_ℤ, ltb_ℤ, max_int64, int64_of_range, int_laws,
}
use inference_budget_control.Quantity.{Quantities}
use inference_budget_control.Budget.{ModelAllocation, get_total_allocated_memory}
use inference_budget_control.Budget.Total.{
  IsFunded, exact_total, get_total-exact, release_model-IsFunded, exact_total-nonneg,
}
use inference_budget_control.Registry.{DeploymentEntry, get_idle_entries_sorted, entry_key}
use inference_budget_control.Proxy.{InferenceModel, Config, World, Env}
use inference_budget_control.Proxy.Eviction.{
  evict, evict_turn, evict_until_freed, try_evict_for_global_limit, needed_memory,
}
use inference_budget_control.Proxy.Evicted.{evict_turn_cases}
use inference_budget_control.Proxy.Deployment.{exceeds_global, admit_global}

not_over : (l s : ℤ) → ¬ (l ≤ℤ pos 0) → (ltb_ℤ (pos 0) l && ltb_ℤ l s) ≡ false → s ≤ℤ l
not_over l s on h = ground arith

right_false : (a b : Bool) → (a && not b) ≡ true → b ≡ false
right_false a b h = ground arith

module _ {Q : Type 0} ⦃ops : Quantities Q⦄ where
  -- The allocations of a world keep the limit.
  abbrev pub IsUnder : ℤ → World Q → Type 0
  IsUnder limit w = IsFunded limit w.tracker.allocations

  evict_turn-IsUnder :
      (limit : ℤ) (env : Env) (model : InferenceModel) (w : World Q) (entry : DeploymentEntry)
      {r : World Q × ModelAllocation Q}
      → IsUnder limit w
      → evict_turn env model w entry ≡ some r
      → IsUnder limit r.0
  unfolding evict
  evict_turn-IsUnder limit env model w entry v e =
      subst (IsUnder limit) (sym (evict_turn_cases env model w entry e).0) (
        release_model-IsFunded limit w.tracker
          (env.release_draw (entry_key entry.namespace entry.name)) entry.name entry.namespace v)

  evict_until_freed-IsUnder :
      (limit : ℤ) (env : Env) (model : InferenceModel) (needed freed : ℤ) (w : World Q)
      (es : List DeploymentEntry)
      → IsUnder limit w
      → IsUnder limit (evict_until_freed env model needed freed w es).0
  unfolding evict_until_freed
  evict_until_freed-IsUnder limit env model needed freed w [] v = v
  evict_until_freed-IsUnder limit env model needed freed w (e ∷ es) v =
      elim (Option-cases (evict_turn env model w e)) [
        | inl skip ↦
            rw (skip, evict_until_freed)
              (evict_until_freed-IsUnder limit env model needed freed w es v)
        | inr ((w', alloc), evicted) ↦
            let freed' = int64 (freed +ℤ ops.value alloc.memory) in
            let one = evict_turn-IsUnder limit env model w e v evicted in
            elim (Bool-cases (leb_ℤ needed freed')) [
              | inl enough ↦ rw (evicted, evict_until_freed, enough) one
              | inr more ↦
                  rw (evicted, evict_until_freed, more)
                    (evict_until_freed-IsUnder limit env model needed freed' w' es one)
            ]
      ]

  try_evict_for_global_limit-IsUnder :
      (limit : ℤ) (config : Config) (env : Env) (model : InferenceModel) (requested : ℤ)
      (w : World Q)
      → IsUnder limit w
      → IsUnder limit (try_evict_for_global_limit config env model requested w).0
  unfolding try_evict_for_global_limit
  try_evict_for_global_limit-IsUnder limit config env model requested w v =
      started (get_idle_entries_sorted w.registry env.now config.eviction_min_idle)
        config.has_registry
    where
      started :
          (es : List DeploymentEntry) (on : Bool)
          → (let r : World Q × Bool =
                if on
                then (elim es [
                  | [] ↦ (w, false)
                  | entry ∷ rest ↦
                      evict_until_freed env model
                        (needed_memory config w requested)
                        (pos 0)
                        w
                        (entry ∷ rest)
                ])
                else (w, false) in
              IsUnder limit r.0)
      started es false = v
      started [] true = v
      started (x ∷ xs) true =
          evict_until_freed-IsUnder limit env model (needed_memory config w requested) (pos 0) w
            (x ∷ xs) v

  -- Room for the request, where the check of the limit says that it is not exceeded.
  room :
      (config : Config) (w : World Q) (memory : Q)
      → ¬ (config.max_memory_bytes ≤ℤ pos 0)
      → config.max_memory_bytes +ℤ ops.value memory ≤ℤ max_int64
      → pos 0 ≤ℤ ops.value memory
      → IsUnder config.max_memory_bytes w
      → exceeds_global config w memory ≡ false
      → exact_total w.tracker.allocations +ℤ ops.value memory ≤ℤ config.max_memory_bytes
  unfolding exceeds_global
  room config w memory on small p v e =
      let total = exact_total w.tracker.allocations in
      let sum : get_total_allocated_memory w.tracker ≡ total =
        get_total-exact config.max_memory_bytes w.tracker (omega int_laws) v in
      let low = exact_total-nonneg w.tracker.allocations v.nonneg in
      let fits : int64 (total +ℤ ops.value memory) ≡ total +ℤ ops.value memory =
        int64_of_range (total +ℤ ops.value memory) (omega int_laws) (omega (int_laws, v.within)) in
      not_over config.max_memory_bytes (total +ℤ ops.value memory) on (rw (sum, fits) at e)

  pub admit_global-IsUnder :
      (config : Config) (env : Env) (model : InferenceModel) (memory : Q) (w : World Q)
      → IsUnder config.max_memory_bytes w
      → IsUnder config.max_memory_bytes (admit_global config env model memory w).0
  unfolding admit_global
  admit_global-IsUnder config env model memory w v =
      elim (Bool-cases (exceeds_global config w memory)) [
        | inr under ↦ rw (under, admit_global) v
        | inl over ↦
            rw (over, admit_global)
              (try_evict_for_global_limit-IsUnder config.max_memory_bytes config env model
                (ops.value memory) w v)
      ]

  pub admit_global-room :
      (config : Config) (env : Env) (model : InferenceModel) (memory : Q) (w : World Q)
      → ¬ (config.max_memory_bytes ≤ℤ pos 0)
      → config.max_memory_bytes +ℤ ops.value memory ≤ℤ max_int64
      → pos 0 ≤ℤ ops.value memory
      → IsUnder config.max_memory_bytes w
      → (admit_global config env model memory w).1 ≡ true
      → exact_total (admit_global config env model memory w).0.tracker.allocations
          +ℤ ops.value memory
        ≤ℤ config.max_memory_bytes
  unfolding admit_global
  admit_global-room config env model memory w on small p v ok =
      let w' = (try_evict_for_global_limit config env model (ops.value memory) w).0 in
      let v' =
        try_evict_for_global_limit-IsUnder config.max_memory_bytes config env model
          (ops.value memory) w v in
      elim (Bool-cases (exceeds_global config w memory)) [
        | inr under ↦ rw (under, admit_global) (room config w memory on small p v under)
        | inl over ↦
            rw (over, admit_global)
              (room config w' memory on small p v'
                (right_false _ (exceeds_global config w' memory) (rw (over, admit_global) at ok)))
      ]
