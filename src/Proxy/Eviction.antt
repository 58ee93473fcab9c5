-- ===== src/Proxy/Eviction.antt =====
-- internal/proxy/handler.go: eviction of idle models. Each loop runs over the entries that the
-- registry returned, oldest request first; nothing else runs in between.
use inference_budget_control.Prelude.{
  String, str_eq, Option, none, some, List, [], ◌∷◌, Bool, true, false, ◌&&◌, if◌then◌else◌, ◌>>=◌,
}
use inference_budget_control.Prelude.Int.{ℤ, pos, ◌+ℤ◌, ◌-ℤ◌, int64, ltb_ℤ, leb_ℤ}
use inference_budget_control.Quantity.{Quantities}
use inference_budget_control.Budget.{
  ModelAllocation, get_allocation, release_model, can_allocate, get_total_allocated_memory,
}
use inference_budget_control.Registry.{
  DeploymentEntry, entry_key, delete_entry, get_idle_entries_sorted,
}
use inference_budget_control.Proxy.{
  InferenceModel, Config, World, Env, PodDeletion, pod_deleted, delete_failed,
}

-- The pods deleted after the answer: only `pod_deleted` is a deletion of ours.
abbrev pub note_deletion : PodDeletion → String → List String → List String
note_deletion pod_deleted key deleted = key ∷ deleted
note_deletion _ key deleted = deleted

abbrev pub is_failed : PodDeletion → Bool
is_failed delete_failed = true
is_failed _ = false

module _ {Q : Type 0} ⦃ops : Quantities Q⦄ where
  -- "Release memory budget" and "Remove from registry", after the pod's deletion.
  unfoldable pub evict : Env → World Q → DeploymentEntry → World Q
  evict env w entry =
      let key = entry_key entry.namespace entry.name in
      record w {
        tracker = release_model w.tracker (env.release_draw key) entry.name entry.namespace;
        registry = delete_entry w.registry entry.namespace entry.name;
        deleted = note_deletion (env.pod_deletion key) key w.deleted;
      }

  -- One turn of either loop up to its test: `none` is a `continue`.
  unfoldable pub evict_turn :
      Env → InferenceModel → World Q → DeploymentEntry → Option (World Q × ModelAllocation Q)
  evict_turn env model w entry =
      if str_eq entry.name model.name && str_eq entry.namespace model.namespace then none else do
        alloc ← get_allocation w.tracker entry.name entry.namespace
        let failed = is_failed (env.pod_deletion (entry_key entry.namespace entry.name))
        if failed then none else some (evict env w entry, alloc)

  -- The end of a turn of `tryEvictIdleModels`, by the answer of `CanAllocate`.
  unfoldable pub after_check :
      Option Bool → World Q → Option (World Q × Bool) → Option (World Q × Bool)
  after_check none w rest = none
  after_check (some true) w rest = some (w, true)
  after_check (some false) w rest = rest

  -- The loop of `tryEvictIdleModels`. The outer `none` is a panic.
  unfoldable pub evict_until_fits :
      Env → InferenceModel → World Q → List DeploymentEntry → Option (World Q × Bool)
  unfolding after_check
  evict_until_fits env model w [] = some (w, false)
  evict_until_fits env model w (entry ∷ rest) = elim (evict_turn env model w entry) [
    | none ↦ evict_until_fits env model w rest
    | some (w', alloc) ↦
        after_check
          (can_allocate w'.tracker (env.check_draw (entry_key entry.namespace entry.name))
            model.name model.namespace model.memory model.node_selector)
          w' (evict_until_fits env model w' rest)
  ]

  unfoldable pub try_evict_idle_models :
      Config → Env → InferenceModel → World Q → Option (World Q × Bool)
  try_evict_idle_models config env model w =
      let idle = get_idle_entries_sorted w.registry env.now config.eviction_min_idle in
      if ltb_ℤ (pos 0) config.max_memory_bytes && config.has_registry
      then (elim idle [
        | [] ↦ some (w, false)
        | entry ∷ rest ↦ do _ ← ops.parse model.memory; evict_until_fits env model w (entry ∷ rest)
      ])
      else some (w, false)

  -- The loop of `tryEvictIdleModelsForGlobalLimit`, from the memory freed so far.
  unfoldable pub evict_until_freed :
      Env → InferenceModel → ℤ → ℤ → World Q → List DeploymentEntry → World Q × Bool
  evict_until_freed env model needed freed w [] = (w, leb_ℤ needed freed)
  evict_until_freed env model needed freed w (entry ∷ rest) = elim (evict_turn env model w entry) [
    | none ↦ evict_until_freed env model needed freed w rest
    | some (w', alloc) ↦ elim (leb_ℤ needed (int64 (freed +ℤ ops.value alloc.memory))) [
      | true ↦ (w', true)
      | false ↦ evict_until_freed env model needed (int64 (freed +ℤ ops.value alloc.memory)) w' rest
    ]
  ]

  -- requestedMemoryBytes - (s.MaxMemoryBytes - s.Tracker.GetTotalAllocatedMemory())
  unfoldable pub needed_memory : Config → World Q → ℤ → ℤ
  needed_memory config w requested =
      int64 (requested -ℤ int64 (config.max_memory_bytes -ℤ get_total_allocated_memory w.tracker))

  unfoldable pub try_evict_for_global_limit :
      Config → Env → InferenceModel → ℤ → World Q → World Q × Bool
  try_evict_for_global_limit config env model requested w =
      let idle = get_idle_entries_sorted w.registry env.now config.eviction_min_idle in
      if config.has_registry
      then (elim idle [
        | [] ↦ (w, false)
        | entry ∷ rest ↦
            evict_until_freed env model (needed_memory config w requested) (pos 0) w (entry ∷ rest)
      ])
      else (w, false)
