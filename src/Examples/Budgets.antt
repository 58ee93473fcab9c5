-- ===== src/Examples/Budgets.antt =====
-- Tests of the models of internal/budget/tracker.go.
use inference_budget_control.Prelude.{
  String, eq_iff, some, [], ◌∷◌, ◌≡◌, ◌≢◌, refl, true, inr, arith, All, ◌>>=◌,
}
use inference_budget_control.Prelude.Int.{ℤ, pos, ◌+ℤ◌, ◌-ℤ◌}
use inference_budget_control.Prelude.Dict.{lookup, insert, delete, modify}
use inference_budget_control.Prelude.Sums.{sum_by}
use inference_budget_control.Budget.{
  Tracker, model_key, node_selector_key, new_tracker, new_allocation, commit, allocate,
  release_model, set_node_budget, can_allocate, can_allocate_locked, release_existing, fits_new,
  fits_update, get_blocking_models, get_allocated_memory, get_available_memory,
}
use inference_budget_control.Budget.Accounts.{IsBalanced, used}
use inference_budget_control.Budget.Balance.{
  new_tracker-IsBalanced, allocate-IsBalanced, set_node_budget-IsBalanced,
}
use inference_budget_control.Budget.History.{start, next, allocated, released, History-IsBalanced}
use inference_budget_control.Budget.Limits.{IsWithin, allocate-IsWithin, allocate_moved_exceeds}
use inference_budget_control.Budget.Capacity.{can_allocate-allocate}
use inference_budget_control.Budget.Release.{release_model-allocate, pool_numbers}
use inference_budget_control.Budget.Blocking.{get_blocking_models-accounts, memory_sum}
use inference_budget_control.Budget.Usage.{peak_of}
use inference_budget_control.Budget.Peaks.{record_all, IsPeakOver, record_all-peak}
use inference_budget_control.Examples.{
  whole_units, no_draw, zone_a, zone_b, chat_allocation, two_pools,
}

abbrev no_models : Tracker ℤ
no_models = record {
  node_budgets =
      ("zone=a", record { total = pos 10; allocated = pos 0 })
      ∷ ("zone=b", record { total = pos 4; allocated = pos 0 })
      ∷ [];
  allocations = [];
  usage_tracking = [];
}

no_models-IsBalanced : IsBalanced no_models
unfolding set_node_budget lookup insert used new_tracker sum_by
no_models-IsBalanced =
    set_node_budget-IsBalanced (set_node_budget new_tracker "zone=a" (pos 10)) "zone=b" (pos 4)
      (inr refl)
      (set_node_budget-IsBalanced new_tracker "zone=a" (pos 10) (inr refl) new_tracker-IsBalanced)

two_pools-IsBalanced : IsBalanced two_pools
unfolding allocate can_allocate_locked lookup insert modify delete commit release_existing model_key
    fits_new fits_update node_selector_key ◌+ℤ◌ ◌-ℤ◌
two_pools-IsBalanced =
    allocate-IsBalanced _ no_draw "embed" "ml" "3" zone_b tt
      (allocate-IsBalanced no_models no_draw "chat" "ml" "4" zone_a tt no_models-IsBalanced refl)
      refl

-- Chat is allocated, as `SyncAllocation` does it, and no pool has a budget yet.
abbrev only_chat : Tracker ℤ
only_chat = record {
  node_budgets = [];
  allocations = ("ml/chat", chat_allocation) ∷ [];
  usage_tracking = [];
}

two_pools-IsWithin : IsWithin two_pools
unfolding allocate can_allocate_locked lookup insert modify delete commit release_existing model_key
    fits_new fits_update node_selector_key ◌+ℤ◌ ◌-ℤ◌
two_pools-IsWithin k b found = ground (arith, eq_iff "zone=a" k, eq_iff "zone=b" k)

allocate-IsWithin_example :
    IsWithin (commit two_pools no_draw (new_allocation "rank" "ml" (pos 6) zone_a))
unfolding allocate can_allocate_locked lookup insert modify delete commit release_existing model_key
    fits_new fits_update node_selector_key ◌+ℤ◌ ◌-ℤ◌
allocate-IsWithin_example =
    allocate-IsWithin two_pools no_draw "rank" "ml" "6" zone_a tt (λ a found i. ground arith)
      two_pools-IsWithin refl

allocate_moved_exceeds_example :
    (t' : Tracker ℤ) × (allocate two_pools no_draw "chat" "ml" "4" zone_b ≡ some (t', true))
    × (¬ IsWithin t')
unfolding allocate can_allocate_locked lookup insert modify delete commit release_existing model_key
    fits_new fits_update node_selector_key ◌+ℤ◌ ◌-ℤ◌
allocate_moved_exceeds_example =
    allocate_moved_exceeds two_pools no_draw "chat" "ml" "4" zone_b (pos 4) chat_allocation
      (record { total = pos 4; allocated = pos 3 }) tt tt refl refl refl
      (λ e. ground (arith, eq_iff "zone=a" "zone=b")) (ground arith) (λ le. ground arith)

can_allocate-allocate_example :
    can_allocate two_pools no_draw "rank" "ml" "6" zone_b
    ≡ (allocate two_pools no_draw "rank" "ml" "6" zone_b >>= λ r. some r.1)
can_allocate-allocate_example =
    can_allocate-allocate two_pools no_draw no_draw "rank" "ml" "6" zone_b tt

release_model-allocate_example :
    (lookup "ml/rank"
        (release_model
          (commit two_pools no_draw (new_allocation "rank" "ml" (pos 6) zone_a))
          0
          "rank"
          "ml").allocations
      ≡ lookup "ml/rank" two_pools.allocations)
    × (pool_numbers (
          lookup "ml/rank"
            (release_model
              (commit two_pools no_draw (new_allocation "rank" "ml" (pos 6) zone_a))
              0
              "rank"
              "ml").node_budgets)
        ≡ pool_numbers (lookup "ml/rank" two_pools.node_budgets))
unfolding allocate can_allocate_locked lookup insert modify delete commit release_existing model_key
    fits_new fits_update node_selector_key ◌+ℤ◌ ◌-ℤ◌
release_model-allocate_example =
    release_model-allocate two_pools no_draw 0 "rank" "ml" "6" zone_a tt refl refl refl "ml/rank"

get_blocking_models-accounts_example :
    let blocking = get_blocking_models two_pools no_draw zone_a in
    All (λ a. node_selector_key 0 a.node_selector ≡ node_selector_key 0 zone_a) blocking
    × (memory_sum blocking ≡ get_allocated_memory two_pools 0 zone_a)
    × (get_available_memory two_pools 0 zone_a ≡ pos 10 -ℤ memory_sum blocking)
unfolding allocate can_allocate_locked lookup insert modify delete commit release_existing model_key
    fits_new fits_update node_selector_key ◌+ℤ◌ ◌-ℤ◌
get_blocking_models-accounts_example =
    get_blocking_models-accounts two_pools no_draw no_draw zone_a
      (record { total = pos 10; allocated = pos 4 }) tt two_pools-IsBalanced refl

record_all-peak_example :
    (t' : Tracker ℤ) × (record_all two_pools "chat" "ml" (pos 3 ∷ pos 5 ∷ pos 2 ∷ []) ≡ some t')
    × All (λ o. IsPeakOver o (peak_of t' (model_key "chat" "ml"))) (pos 3 ∷ pos 5 ∷ pos 2 ∷ [])
    × ((z : ℤ)
        → IsPeakOver z (peak_of two_pools (model_key "chat" "ml"))
        → IsPeakOver z (peak_of t' (model_key "chat" "ml")))
    × ((key : String) → key ≢ model_key "chat" "ml" → peak_of t' key ≡ peak_of two_pools key)
    × (t'.allocations ≡ two_pools.allocations)
    × (t'.node_budgets ≡ two_pools.node_budgets)
record_all-peak_example = record_all-peak two_pools "chat" "ml" (pos 3 ∷ pos 5 ∷ pos 2 ∷ [])

-- A model is released and another one allocated.
History-IsBalanced_example : IsBalanced (
    commit
      (release_model two_pools 0 "embed" "ml")
      no_draw
      (new_allocation "rank" "ml" (pos 6) zone_a))
unfolding allocate can_allocate_locked lookup insert modify delete commit release_existing model_key
    fits_new fits_update node_selector_key release_model ◌+ℤ◌ ◌-ℤ◌
History-IsBalanced_example =
    History-IsBalanced
      (next (next start (released two_pools 0 "embed" "ml"))
        (allocated no_draw "rank" "ml" "6" zone_a true tt refl))
      two_pools-IsBalanced
