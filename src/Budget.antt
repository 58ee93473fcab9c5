-- ===== src/Budget.antt =====
-- internal/budget/tracker.go: the memory tracker. A method that changes the tracker returns the new
-- one; `none` is the panic of `resource.MustParse`, after which the tracker is as it was. A method
-- runs under the tracker's lock, so it is one step.
pub mod Keys
pub mod Cases
pub mod Accounts
pub mod Balance
pub mod Capacity
pub mod Limits
pub mod Usage
pub mod Peaks
pub mod Blocking
pub mod Release
pub mod Total
pub mod History
use inference_budget_control.Prelude.{
  ℕ, suc, ◌%◌, String, str_eq, str_append, Option, none, some, List, [], ◌∷◌, Bool, true, false,
  if◌then◌else◌, length, get_elem?, ◌>>=◌,
}
use inference_budget_control.Prelude.Int.{ℤ, pos, ◌+ℤ◌, int64}
use inference_budget_control.Prelude.Dict.{Dict, lookup, insert, delete, modify}
use inference_budget_control.Quantity.{Quantities, is_le, is_ge}

-- A `map[string]string` that may be nil. The list is the map's entries.
abbrev pub NodeSelector : Type 0
NodeSelector = Option (List (String × String))

pub record ModelAllocation (Q : Type 0) : Type 0 where
  pub name : String
  pub namespace : String
  pub memory : Q
  pub node_selector : NodeSelector

pub record ModelUsage (Q : Type 0) : Type 0 where
  pub name : String
  pub namespace : String
  pub observed_peak : Option Q

pub record NodeBudget (Q : Type 0) : Type 0 where
  pub total : Q
  pub allocated : Q

pub record Tracker (Q : Type 0) : Type 0 where
  pub node_budgets : Dict (NodeBudget Q)
  pub allocations : Dict (ModelAllocation Q)
  pub usage_tracking : Dict (ModelUsage Q)

unfoldable pub model_key : String → String → String
model_key name namespace = str_append (str_append namespace "/") name

key_of_pair : Option (String × String) → String
key_of_pair none = "default"
key_of_pair (some (k, v)) = str_append (str_append k "=") v

-- Go starts a `range` over a map at a position of its own choice: `draw` stands for that choice.
unfoldable pub node_selector_key : ℕ → NodeSelector → String
unfolding key_of_pair
node_selector_key draw none = "default"
node_selector_key draw (some entries) = key_of_pair (get_elem? entries (draw % length entries))

unfoldable pub new_tracker : {Q : Type 0} → Tracker Q
new_tracker = record { node_budgets = []; allocations = []; usage_tracking = [] }

abbrev pub new_allocation : {Q : Type 0} → String → String → Q → NodeSelector → ModelAllocation Q
new_allocation name namespace memory selector = record {
  name = name;
  namespace = namespace;
  memory = memory;
  node_selector = selector;
}

module _ {Q : Type 0} ⦃ops : Quantities Q⦄ where
  -- budget.Allocated.Add(memory) and budget.Allocated.Sub(memory), through the pointer in the map.
  abbrev pub credit : Q → NodeBudget Q → NodeBudget Q
  credit memory b = record b { allocated = ops.add b.allocated memory }

  abbrev pub debit : Q → NodeBudget Q → NodeBudget Q
  debit memory b = record b { allocated = ops.sub b.allocated memory }

  unfoldable pub sync_allocation :
      Tracker Q → ℕ → String → String → String → NodeSelector → Option (Tracker Q × Bool)
  sync_allocation t draw name namespace memory_str selector =
      let key = model_key name namespace in
      elim (lookup key t.allocations) [
        | some _ ↦ some (t, false)
        | none ↦ do
          memory ← ops.parse memory_str
          some (
            record t {
              allocations =
                  insert key (new_allocation name namespace memory selector) t.allocations;
              node_budgets =
                  modify (node_selector_key draw selector) (credit memory) t.node_budgets;
            },
            true,
          )
      ]

  with_total : Q → Option (NodeBudget Q) → NodeBudget Q
  with_total total none = record { total = total; allocated = ops.new_quantity (pos 0) }
  with_total total (some b) = record b { total = total }

  unfoldable pub set_node_budget : Tracker Q → String → Q → Tracker Q
  unfolding with_total
  set_node_budget t key total = record t {
    node_budgets = insert key (with_total total (lookup key t.node_budgets)) t.node_budgets;
  }

  -- The update of an existing allocation: the pool's sum with the old memory taken out.
  unfoldable pub fits_update : Q → Q → NodeBudget Q → Bool
  fits_update old memory b = is_le (ops.cmp (ops.add (ops.sub b.allocated old) memory) b.total)

  unfoldable pub fits_new : Q → Option (NodeBudget Q) → Bool
  fits_new memory none = true
  fits_new memory (some b) = is_ge (ops.cmp (ops.sub b.total b.allocated) memory)

  -- The two calls of `nodeSelectorKey` draw on their own.
  unfoldable pub can_allocate :
      Tracker Q → (ℕ → ℕ) → String → String → String → NodeSelector → Option Bool
  can_allocate t draw name namespace memory_str selector = do
    memory ← ops.parse memory_str
    let check_new = fits_new memory (lookup (node_selector_key (draw 1) selector) t.node_budgets)
    some (elim (lookup (model_key name namespace) t.allocations) [
      | none ↦ check_new
      | some existing ↦ elim (lookup (node_selector_key (draw 0) selector) t.node_budgets) [
        | none ↦ check_new
        | some b ↦ fits_update existing.memory memory b
      ]
    ])

  unfoldable pub can_allocate_locked :
      Tracker Q → ℕ → String → String → String → NodeSelector → Option Bool
  can_allocate_locked t draw name namespace memory_str selector = do
    memory ← ops.parse memory_str
    let pool = lookup (node_selector_key draw selector) t.node_budgets
    some (elim (lookup (model_key name namespace) t.allocations) [
      | none ↦ fits_new memory pool
      | some existing ↦ elim pool [ none ↦ true | some b ↦ fits_update existing.memory memory b ]
    ])

  -- "Release existing allocation if any": only the pool's sum changes here.
  unfoldable pub release_existing :
      ℕ → Option (ModelAllocation Q) → Dict (NodeBudget Q) → Dict (NodeBudget Q)
  release_existing draw none pools = pools
  release_existing draw (some existing) pools =
      modify (node_selector_key draw existing.node_selector) (debit existing.memory) pools

  -- From "Release existing allocation if any" to the end of `Allocate`.
  unfoldable pub commit : Tracker Q → (ℕ → ℕ) → ModelAllocation Q → Tracker Q
  unfolding release_existing
  commit t draw a =
      let key = model_key a.name a.namespace in
      record t {
        allocations = insert key a t.allocations;
        node_budgets =
            modify (node_selector_key (draw 2) a.node_selector) (credit a.memory)
              (release_existing (draw 1) (lookup key t.allocations) t.node_budgets);
      }

  unfoldable pub allocate :
      Tracker Q → (ℕ → ℕ) → String → String → String → NodeSelector → Option (Tracker Q × Bool)
  unfolding commit
  allocate t draw name namespace memory_str selector = do
    fits ← can_allocate_locked t (draw 0) name namespace memory_str selector
    memory ← ops.parse memory_str
    let a = new_allocation name namespace memory selector
    some (if fits then (commit t draw a, true) else (t, false))

  unfoldable pub release_model : Tracker Q → ℕ → String → String → Tracker Q
  release_model t draw name namespace =
      let key = model_key name namespace in
      elim (lookup key t.allocations) [
        | none ↦ t
        | some allocation ↦ record t {
          allocations = delete key t.allocations;
          node_budgets =
              modify (node_selector_key draw allocation.node_selector) (debit allocation.memory)
                t.node_budgets;
        }
      ]

  unfoldable pub get_available_memory : Tracker Q → ℕ → NodeSelector → Q
  get_available_memory t draw selector =
      elim (lookup (node_selector_key draw selector) t.node_budgets) [
        | none ↦ ops.new_quantity (pos 0)
        | some b ↦ ops.sub b.total b.allocated
      ]

  unfoldable pub get_allocated_memory : Tracker Q → ℕ → NodeSelector → Q
  get_allocated_memory t draw selector =
      elim (lookup (node_selector_key draw selector) t.node_budgets) [
        | none ↦ ops.new_quantity (pos 0)
        | some b ↦ b.allocated
      ]

  unfoldable pub get_allocation : Tracker Q → String → String → Option (ModelAllocation Q)
  get_allocation t name namespace = lookup (model_key name namespace) t.allocations

  -- The loop of `GetTotalAllocatedMemory`, from the total so far; `+=` on an int64 wraps.
  unfoldable pub total_from : ℤ → Dict (ModelAllocation Q) → ℤ
  total_from total [] = total
  total_from total ((k, alloc) ∷ m) = total_from (int64 (total +ℤ ops.value alloc.memory)) m

  unfoldable pub get_total_allocated_memory : Tracker Q → ℤ
  get_total_allocated_memory t = total_from (pos 0) t.allocations

  -- Each turn of the loop of `GetBlockingModels` computes a key of its own.
  unfoldable pub blocking_from :
      (ℕ → ℕ) → String → Dict (ModelAllocation Q) → List (ModelAllocation Q)
  blocking_from draw key [] = []
  blocking_from draw key ((k, a) ∷ m) =
      let rest = blocking_from (λ i. draw (suc i)) key m in
      if str_eq (node_selector_key (draw 0) a.node_selector) key then a ∷ rest else rest

  unfoldable pub get_blocking_models : Tracker Q → (ℕ → ℕ) → NodeSelector → List (ModelAllocation Q)
  unfolding blocking_from
  get_blocking_models t draw selector =
      blocking_from (λ i. draw (suc i)) (node_selector_key (draw 0) selector) t.allocations
